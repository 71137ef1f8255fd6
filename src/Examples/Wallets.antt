-- ===== src/Examples/Wallets.antt =====
-- Instances of the theorems on the wallet's bond and its checkpoints.
use coppice_names.Prelude.{
  ℕ, zero, suc, ◌≤◌, ◌<◌, ◌≡◌, ◌↔◌, ◌⊎◌, refl, true, ltb, [], ◌∷◌, ◌++◌, ok, arith, length, all,
  List,
}
use coppice_names.Collections.Order.{nat_ord, list_ord}
use coppice_names.Protocol.{Bytes, bond_zatoshis}
use coppice_names.Wallet.Bond.{
  ready, prepare_exact_note, insufficient_funds, classify_from, classify_bond_inventory,
  classify_bond_inventory_lem, saturating_add, sum, HasExact,
}
use coppice_names.Wallet.Checkpoint.{KeyedHash, magic, seal_checkpoint, open_checkpoint}
use coppice_names.Wallet.Checkpoint.Slices.{IsBytes}
use coppice_names.Wallet.Checkpoint.Opened.{open_checkpoint_iff, open-seal}
use coppice_names.Examples.Chain.{toy}

abbrev fill : ℕ → ℕ → Bytes
fill zero b = []
fill (suc n) b = b ∷ fill n b

-- a hash that counts its input
instance abbrev toy_hash : KeyedHash
toy_hash = record { keyed = λ p k m. length m ∷ fill 31 0 }

abbrev payload : Bytes
payload = 1 ∷ 2 ∷ 3 ∷ []

abbrev envelope : Bytes
envelope = magic ++ 1 ∷ (fill 32 9 ++ (0 ∷ 0 ∷ 0 ∷ 3 ∷ (payload ++ 44 ∷ fill 31 0)))

IsBytes-all : (bs : Bytes) → all (λ b. ltb b 256) bs ≡ true → IsBytes bs
unfolding IsBytes
IsBytes-all [] h = tt
IsBytes-all (b ∷ bs) h = ground (arith, IsBytes-all bs)

open_checkpoint_iff_example :
    (open_checkpoint (fill 64 7) (fill 32 9) envelope ≡ ok payload)
    ↔ (seal_checkpoint (fill 64 7) (fill 32 9) payload ≡ ok envelope)
open_checkpoint_iff_example =
    open_checkpoint_iff (fill 64 7) (fill 32 9) payload envelope (λ p k m. refl) refl
      (IsBytes-all envelope refl)

open-seal_example :
    (sealed : Bytes) × (seal_checkpoint (fill 64 7) (fill 32 9) payload ≡ ok sealed)
    × (open_checkpoint (fill 64 7) (fill 32 9) sealed ≡ ok payload)
open-seal_example =
    open-seal (fill 64 7) (fill 32 9) payload (λ p k m. refl) refl refl (omega arith)

abbrev notes : List ℕ
notes = 60_000_000 ∷ 50_000_000 ∷ []

classify_bond_inventory_lem_example :
    (HasExact notes × (classify_bond_inventory notes ≡ ready))
    ⊎ (¬ HasExact notes
        × (bond_zatoshis ≤ sum notes)
        × (classify_bond_inventory notes ≡ prepare_exact_note))
    ⊎ (¬ HasExact notes
        × (sum notes < bond_zatoshis)
        × (classify_bond_inventory notes ≡ insufficient_funds))
classify_bond_inventory_lem_example = classify_bond_inventory_lem notes

two_notes : classify_bond_inventory notes ≡ prepare_exact_note
unfolding classify_bond_inventory classify_from saturating_add
two_notes = refl
