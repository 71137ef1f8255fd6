-- ===== src/Protocol/References.antt =====
-- References to canonical positions, the keys of the reducer's state, with their derived order.
use coppice_names.Prelude.{ℕ, ◌≡◌}
use coppice_names.Collections.Order.{Ord, ord_by, nat_ord, list_ord, pair_ord}
use coppice_names.Protocol.External.{Bytes}

pub record CommitRef : Type 0 where
  pub height : ℕ
  pub tx_index : ℕ
  pub txid : Bytes

pub record StateRef : Type 0 where
  pub height : ℕ
  pub tx_index : ℕ
  pub txid : Bytes
  pub action_index : ℕ

abbrev pub commit_ref_key : CommitRef → ℕ × (ℕ × Bytes)
commit_ref_key c = (c.height, (c.tx_index, c.txid))

abbrev pub state_ref_key : StateRef → ℕ × (ℕ × (Bytes × ℕ))
state_ref_key s = (s.height, (s.tx_index, (s.txid, s.action_index)))

pub commit_ref_key_injective : (a b : CommitRef) → commit_ref_key a ≡ commit_ref_key b → a ≡ b
commit_ref_key_injective a b h = cc (h)

pub state_ref_key_injective : (a b : StateRef) → state_ref_key a ≡ state_ref_key b → a ≡ b
state_ref_key_injective a b h = cc (h)

-- `#[derive(Ord)]`
instance unfoldable pub commit_ref_ord : Ord CommitRef
commit_ref_ord = ord_by commit_ref_key commit_ref_key_injective

instance unfoldable pub state_ref_ord : Ord StateRef
state_ref_ord = ord_by state_ref_key state_ref_key_injective
