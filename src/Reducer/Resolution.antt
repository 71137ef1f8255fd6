-- ===== src/Reducer/Resolution.antt =====
-- `resolve`, `resolve_authenticated`, `pending_commit`, `is_exact_for` and `protocol_identity`.
pub mod Answers
use coppice_names.Prelude.{
  ℕ, ◌-◌, Bool, true, false, ◌&&◌, Option, none, some, List, [], ◌∷◌, Result, ok, err, ltb, leb,
  ◌==◌, if◌then◌else◌, is_some_and, is_some, all,
}
use coppice_names.Prelude.Word.{checked_sub}
use coppice_names.Collections.Order.{same, nat_ord, list_ord}
use coppice_names.Collections.OrdMap.{get, keys}
use coppice_names.Protocol.{
  Bytes, Name, NameId, CanonicalUa, Commitment, CommitRef, Primitives, name_id, commit_ref_ord,
}
use coppice_names.Reducer.State.{Head, Lifecycle, Undo, Reducer, lifecycle}

pub record Resolution : Type 0 where
  pub lifecycle : Lifecycle
  pub ua : Option CanonicalUa
  pub head : Option Head

pub data ResolutionError : Type 0 where
  incomplete_history : ℕ → Option ℕ → ResolutionError
  historical_resolution_unavailable : ℕ → ℕ → ResolutionError

pub record ProtocolIdentity : Type 0 where
  pub deployment_id : Bytes
  pub ruleset_fingerprint : Bytes

abbrev pub missing_resolution : Resolution
missing_resolution = record { lifecycle = Lifecycle.missing; ua = none; head = none }

-- what `resolve` makes of a head and of its lifecycle
abbrev pub describe : Head → Lifecycle → Resolution
describe head Lifecycle.missing = missing_resolution
describe head Lifecycle.active = record {
  lifecycle = Lifecycle.active;
  ua = some head.ua;
  head = some head;
}
describe head Lifecycle.cooldown = record {
  lifecycle = Lifecycle.cooldown;
  ua = none;
  head = some head;
}

-- the head of a name
unfoldable pub head_of : Reducer → NameId → ℕ → Resolution
head_of r id height = elim (get id r.heads) [
  | none ↦ missing_resolution
  | some head ↦ describe head (lifecycle head height r.parameters)
]

-- `pending_commit`
unfoldable pub pending_commit : Reducer → CommitRef → Option Commitment
pending_commit r reference = get reference r.commits

-- `is_exact_for`
unfoldable pub is_exact_for : Reducer → NameId → Bool
is_exact_for r name_id =
    all (λ candidate. same candidate name_id) (keys r.heads)
    && all (λ undo. all (λ candidate. same candidate name_id) (keys undo.heads)) r.history

-- `protocol_identity`, given the fingerprint of the ruleset
unfoldable pub protocol_identity : Bytes → Reducer → ProtocolIdentity
protocol_identity fingerprint r = record {
  deployment_id = r.parameters.deployment_id;
  ruleset_fingerprint = fingerprint;
}

-- whether no block is applied and the height is the one before activation
abbrev pub is_before_activation : Reducer → ℕ → Bool
is_before_activation r height = elim r.tip_height [
  | none ↦ is_some_and (checked_sub r.parameters.activation_height 1) (λ h. h == height)
  | some _ ↦ false
]

module _ ⦃prims : Primitives⦄ where
  -- `resolve`
  unfoldable pub resolve : Reducer → Name → ℕ → Resolution
  unfolding head_of
  resolve r name height = elim (name_id name) [
    | err _ ↦ missing_resolution
    | ok id ↦ head_of r id height
  ]

  -- `resolve_authenticated`
  unfoldable pub resolve_authenticated : Reducer → Name → ℕ → Result ResolutionError Resolution
  resolve_authenticated r name height =
      if is_before_activation r height then ok (resolve r name height) else elim r.tip_height [
        | none ↦ err (incomplete_history height none)
        | some tip ↦
            if ltb tip height
            then err (incomplete_history height (some tip))
            else if tip == height
            then ok (resolve r name height)
            else err (historical_resolution_unavailable height tip)
      ]
