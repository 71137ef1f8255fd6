-- ===== src/Wallet/Bond.antt =====
-- crates/coppice-names-wallet/src/bond.rs: what a wallet has to do before a COMMIT.
use coppice_names.Prelude.{ℕ, ◌+◌, ◌-◌, ◌^◌, min, List, [], ◌∷◌, ◌==◌, leb, if◌then◌else◌}
use coppice_names.Prelude.{◌≡◌, arith, ◌≤◌, ◌<◌, ◌⊎◌}
use coppice_names.Protocol.{bond_zatoshis}

pub data BondInventoryDecision : Type 0 where
  ready prepare_exact_note insufficient_funds : BondInventoryDecision

-- `u64::saturating_add`
unfoldable pub saturating_add : ℕ → ℕ → ℕ
saturating_add a b = min (a + b) (2 ^ 64 - 1)

-- the loop of `classify_bond_inventory`, and what follows it
unfoldable pub classify_from : ℕ → List ℕ → BondInventoryDecision
unfolding saturating_add
classify_from total [] = if leb bond_zatoshis total then prepare_exact_note else insufficient_funds
classify_from total (value ∷ values) =
    let rest = classify_from (saturating_add total value) values in
    if value == bond_zatoshis then ready else rest

unfoldable pub classify_bond_inventory : List ℕ → BondInventoryDecision
unfolding classify_from
classify_bond_inventory values = classify_from 0 values

-- the value of all notes together
unfoldable pub sum : List ℕ → ℕ
sum [] = 0
sum (value ∷ values) = value + sum values

-- some note has exactly the bond's value
unfoldable pub HasExact : List ℕ → Type 0
HasExact [] = ⊥
HasExact (value ∷ values) = (value ≡ bond_zatoshis) ⊎ HasExact values

classify_from_lem :
    (total : ℕ) (values : List ℕ)
    → (HasExact values × (classify_from total values ≡ ready))
      ⊎ (¬ HasExact values
          × (bond_zatoshis ≤ total + sum values)
          × (classify_from total values ≡ prepare_exact_note))
      ⊎ (¬ HasExact values
          × (total + sum values < bond_zatoshis)
          × (classify_from total values ≡ insufficient_funds))
unfolding classify_from saturating_add sum HasExact
classify_from_lem total [] = ground arith
classify_from_lem total (value ∷ values) =
    ground (arith, classify_from_lem (saturating_add total value) values)

-- A wallet with a note of exactly the bond's value is ready; any other has to prepare one if its
-- notes together are worth the bond, and lacks funds if they are not, also where their sum leaves
-- the range of `u64`.
pub classify_bond_inventory_lem :
    (values : List ℕ)
    → (HasExact values × (classify_bond_inventory values ≡ ready))
      ⊎ (¬ HasExact values
          × (bond_zatoshis ≤ sum values)
          × (classify_bond_inventory values ≡ prepare_exact_note))
      ⊎ (¬ HasExact values
          × (sum values < bond_zatoshis)
          × (classify_bond_inventory values ≡ insufficient_funds))
unfolding classify_bond_inventory
classify_bond_inventory_lem values = ground (arith, classify_from_lem 0 values)
