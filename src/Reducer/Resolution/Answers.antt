-- ===== src/Reducer/Resolution/Answers.antt =====
-- What the two resolution queries answer, and when.
use coppice_names.Prelude.{ℕ, suc, ◌<◌, ◌≡◌, ◌↔◌, ◌⊎◌, none, some, ok, arith}
use coppice_names.Collections.Order.{nat_ord, list_ord}
use coppice_names.Collections.OrdMap.{get}
use coppice_names.Protocol.{Name, NameId, CanonicalUa, Primitives, name_id}
use coppice_names.Reducer.State.{Head, Reducer, lifecycle, terminal_at}
use coppice_names.Reducer.Resolution.{resolve, resolve_authenticated, head_of, describe}

describe_active :
    (r : Reducer) (head : Head) (ua : CanonicalUa) (height : ℕ)
    → ((describe head (lifecycle head height r.parameters)).ua ≡ some ua)
      ↔ ((head.ua ≡ ua) × (head.terminal_height ≡ none) × (height < head.expiry_height))
unfolding lifecycle terminal_at
describe_active r head ua height = ground arith

-- the head that stands behind a resolved address: no terminal height is recorded in it
pub record IsPaidTo ⦃prims : Primitives⦄ (r : Reducer) (name : Name) (height : ℕ) (ua : CanonicalUa)
    : Type 0 where
  pub id : NameId
  pub head : Head
  pub named : name_id name ≡ ok id
  pub stored : get id r.heads ≡ some head
  pub address : head.ua ≡ ua
  pub unrecorded : head.terminal_height ≡ none
  pub not_expired : height < head.expiry_height

module _ ⦃prims : Primitives⦄ where
  -- a resolution that carries an address found a head
  resolve_found :
      (r : Reducer) (name : Name) (height : ℕ) (ua : CanonicalUa)
      → (resolve r name height).ua ≡ some ua
      → (id : NameId) × (head : Head) × (name_id name ≡ ok id)
        × (get id r.heads ≡ some head)
        × ((describe head (lifecycle head height r.parameters)).ua ≡ some ua)
  unfolding resolve
  resolve_found r name height ua h = ground arith

  paid_of_resolved :
      (r : Reducer) (name : Name) (height : ℕ) (ua : CanonicalUa)
      → (resolve r name height).ua ≡ some ua
      → IsPaidTo r name height ua
  paid_of_resolved r name height ua h =
      let (id, head, named, stored, shown) = resolve_found r name height ua h in
      let (address, unrecorded, not_expired) = (describe_active r head ua height).0 shown in
      record {
        id = id;
        head = head;
        named = named;
        stored = stored;
        address = address;
        unrecorded = unrecorded;
        not_expired = not_expired;
      }

  resolved_of_paid :
      (r : Reducer) (name : Name) (height : ℕ) (ua : CanonicalUa)
      → IsPaidTo r name height ua
      → (resolve r name height).ua ≡ some ua
  unfolding resolve head_of
  resolved_of_paid r name height ua p =
      rw (p.named, resolve, p.stored, head_of)
        ((describe_active r p.head ua height).1 (p.address, p.unrecorded, p.not_expired))

  -- `resolve` gives an address for a name at a height exactly when the identifier exists and has a
  -- head with that address that has no recorded terminal height, neither from a spend nor from
  -- the expiry pass of a block, and whose lease reaches past the height. A recorded terminal height
  -- above the height that is asked for withholds the address too.
  pub resolve-ua_iff :
      (r : Reducer) (name : Name) (height : ℕ) (ua : CanonicalUa)
      → ((resolve r name height).ua ≡ some ua) ↔ IsPaidTo r name height ua
  resolve-ua_iff r name height ua =
      (paid_of_resolved r name height ua, resolved_of_paid r name height ua)

  -- The authenticated query answers exactly at the tip, or, before any block, at the height just
  -- below activation, and then as `resolve` does.
  pub resolve_authenticated_iff :
      (r : Reducer) (name : Name) (height : ℕ)
      → (resolve_authenticated r name height ≡ ok (resolve r name height)) ↔ (
          (r.tip_height ≡ some height)
          ⊎ ((r.tip_height ≡ none) × (r.parameters.activation_height ≡ suc height)))
  unfolding resolve_authenticated
  resolve_authenticated_iff r name height = ground arith
