-- ===== src/Examples/Positions.antt =====
-- Instances of the theorems on the positions of actions.
use coppice_names.Prelude.{ℕ, ◌+◌, ◌-◌, ◌≤◌, ◌≡◌, ◌↔◌, refl, List, [], ◌∷◌, ok, arith}
use coppice_names.Protocol.{Bytes}
use coppice_names.Transport.Positions.{
  Contexts, authenticated_action_position, positioned_action_position, total_actions, seek, paired,
  u32_of, position_within,
}
use coppice_names.Transport.Positions.Located.{ArePaired, IsAt, actions, count_of}
use coppice_names.Transport.Positions.Authenticated.{
  authenticated_action_position_iff, authenticated-eq-positioned,
  authenticated_action_position-injective,
}

record Listed : Type 0 where
  index : ℕ
  nullifiers : List Bytes
  commitments : List Bytes

-- a block is its transactions and the size of a tree
instance abbrev toy_core : Contexts
toy_core = record {
  Transaction = Listed;
  tx_index = λ (t : Listed). t.index;
  nullifiers = λ (t : Listed). t.nullifiers;
  commitments = λ (t : Listed). t.commitments;
  CoreBlock = List Listed × ℕ;
  transactions = λ (b : List Listed × ℕ). b.0;
  tree_size = λ (b : List Listed × ℕ). b.1;
  PositionedBlock = List Listed × ℕ;
  positioned_transactions = λ (b : List Listed × ℕ). b.0;
  pre_ironwood_tree_size = λ (b : List Listed × ℕ). b.1;
}

abbrev two : List Bytes
two = (1 ∷ []) ∷ (2 ∷ []) ∷ []

abbrev listed : List Listed
listed =
    record { index = 4; nullifiers = two; commitments = two }
    ∷ record { index = 7; nullifiers = two; commitments = two }
    ∷ []

-- the second action of the second transaction is the last of 50 leaves
second_of_second : authenticated_action_position (listed, 50) 7 1 ≡ ok 49
unfolding authenticated_action_position total_actions seek paired u32_of position_within
second_of_second = refl

authenticated_action_position_iff_example :
    (authenticated_action_position (listed, 50) 7 1 ≡ ok 49)
    ↔ (ArePaired listed × (actions listed ≤ 50) × IsAt listed (50 - actions listed) 7 1 49)
authenticated_action_position_iff_example =
    authenticated_action_position_iff (listed, 50) 7 1 49 (omega arith)

listed-ArePaired : ArePaired listed
unfolding ArePaired
listed-ArePaired = (refl, (refl, tt))

listed_grown : 50 ≡ 46 + actions listed
unfolding actions count_of
listed_grown = refl

authenticated-eq-positioned_example :
    authenticated_action_position (listed, 50) 7 1 ≡ positioned_action_position (listed, 46) 7 1
authenticated-eq-positioned_example =
    authenticated-eq-positioned (listed, 50) (listed, 46) 7 1 refl listed-ArePaired listed_grown
      (omega arith)

authenticated_action_position-injective_example : ◌≡◌ {A = ℕ} 7 7 × ◌≡◌ {A = ℕ} 1 1
authenticated_action_position-injective_example =
    authenticated_action_position-injective (listed, 50) 7 1 7 1 49 second_of_second
      second_of_second
