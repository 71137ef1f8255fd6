-- ===== src/Transport/Positions/Located.antt =====
-- Which action a position belongs to.
use coppice_names.Prelude.{
  ℕ, ◌+◌, ◌≤◌, ◌<◌, ◌≡◌, ◌≢◌, refl, ap, List, [], ◌∷◌, ◌++◌, Each, ok, length, arith,
}
use coppice_names.Prelude.Word.{IsU32}
use coppice_names.Transport.Positions.{
  Contexts, u32_of, paired, total_actions, position_within, seek, action_position,
}

module _ ⦃core : Contexts⦄ where
  -- the actions of a transaction, and of all of them
  unfoldable pub count_of : core.Transaction → ℕ
  count_of t = length (core.commitments t)

  unfoldable pub actions : List core.Transaction → ℕ
  unfolding count_of
  actions [] = 0
  actions (t ∷ ts) = count_of t + actions ts

  -- Every transaction has a nullifier for each commitment.
  unfoldable pub ArePaired : List core.Transaction → Type 0
  ArePaired = Each (λ t. length (core.nullifiers t) ≡ length (core.commitments t))

  -- The position counts the actions before: those of the transactions ahead of the first one with
  -- the index, and those ahead in it.
  unfoldable pub IsAt : List core.Transaction → ℕ → ℕ → ℕ → ℕ → Type 0
  unfolding actions count_of
  IsAt ts start tx_index action_index position =
      (before : List core.Transaction) × (t : core.Transaction) × (after : List core.Transaction)
      × (ts ≡ before ++ t ∷ after)
      × Each (λ u. core.tx_index u ≢ tx_index) before
      × (core.tx_index t ≡ tx_index)
      × (action_index < count_of t)
      × (position ≡ start + actions before + action_index)

  pub total_actions-eq-ok :
      (acc : ℕ) (ts : List core.Transaction)
      → ArePaired ts
      → IsU32 (acc + actions ts)
      → total_actions acc ts ≡ ok (acc + actions ts)
  unfolding total_actions actions count_of ArePaired paired u32_of
  total_actions-eq-ok acc [] p fits = ap ok (omega arith)
  total_actions-eq-ok acc (t ∷ ts) (p, ps) fits =
      ground (arith, total_actions-eq-ok (acc + count_of t) ts ps)

  pub total_actions_inversion :
      (acc total : ℕ) (ts : List core.Transaction)
      → total_actions acc ts ≡ ok total
      → ArePaired ts × (total ≡ acc + actions ts)
  unfolding total_actions actions count_of ArePaired paired u32_of
  total_actions_inversion acc total [] h = (tt, ground arith)
  total_actions_inversion acc total (t ∷ ts) h =
      ground (arith, total_actions_inversion (acc + count_of t) total ts)

  seek-append :
      (before : List core.Transaction) (t : core.Transaction) (after : List core.Transaction)
      (start tx_index action_index : ℕ)
      → IsU32 (start + actions (before ++ t ∷ after))
      → Each (λ (u : core.Transaction). core.tx_index u ≢ tx_index) before
      → core.tx_index t ≡ tx_index
      → action_index < count_of t
      → seek (before ++ t ∷ after) start tx_index action_index
        ≡ ok (start + actions before + action_index)
  unfolding seek actions count_of u32_of position_within
  seek-append [] t after start ti ai fits first found within = ground arith
  seek-append (u ∷ us) t after start ti ai fits (other, first) found within =
      ground (arith, seek-append us t after (start + count_of u) ti ai)

  pub seek-eq-ok :
      (ts : List core.Transaction) (start tx_index action_index position : ℕ)
      → IsU32 (start + actions ts)
      → IsAt ts start tx_index action_index position
      → seek ts start tx_index action_index ≡ ok position
  unfolding IsAt
  seek-eq-ok ts start ti ai p fits (before, t, after, split, first, found, within, at) =
      rw (split, at) (seek-append before t after start ti ai (rw (← split) fits) first found within)

  IsAt-here :
      (t : core.Transaction) (ts : List core.Transaction) (start action_index : ℕ)
      → action_index < count_of t
      → IsAt (t ∷ ts) start (core.tx_index t) action_index (start + action_index)
  unfolding IsAt actions
  IsAt-here t ts start ai within = ([], t, ts, refl, tt, refl, within, omega arith)

  IsAt-there :
      (t : core.Transaction) (ts : List core.Transaction) (start tx_index action_index position : ℕ)
      → core.tx_index t ≢ tx_index
      → IsAt ts (start + count_of t) tx_index action_index position
      → IsAt (t ∷ ts) start tx_index action_index position
  unfolding IsAt actions
  IsAt-there u us start ti ai p other (before, t, after, split, first, found, within, at) =
      (u ∷ before, t, after, ap (λ l. u ∷ l) split, (other, first), found, within, omega arith)

  pub seek_inversion :
      (ts : List core.Transaction) (start tx_index action_index position : ℕ)
      → seek ts start tx_index action_index ≡ ok position
      → IsAt ts start tx_index action_index position
  unfolding seek count_of u32_of position_within
  seek_inversion [] start ti ai p h = cc
  seek_inversion (t ∷ ts) start ti ai p h = ground (
    arith,
    seek_inversion ts (start + count_of t) ti ai p,
    IsAt-here t ts start ai,
    IsAt-there t ts start ti ai p,
  )

  pub seek-≤ :
      (ts : List core.Transaction) (start tx_index action_index position : ℕ)
      → seek ts start tx_index action_index ≡ ok position
      → start ≤ position
  unfolding seek u32_of position_within
  seek-≤ [] start ti ai p h = cc
  seek-≤ (t ∷ ts) start ti ai p h =
      ground (arith, seek-≤ ts (start + length (core.commitments t)) ti ai p)

  pub seek-injective :
      (ts : List core.Transaction) (start tx_index action_index tx_index' action_index' p : ℕ)
      → seek ts start tx_index action_index ≡ ok p
      → seek ts start tx_index' action_index' ≡ ok p
      → (tx_index ≡ tx_index') × (action_index ≡ action_index')
  unfolding seek u32_of position_within
  seek-injective [] start ti ai ti' ai' p one two = cc
  seek-injective (t ∷ ts) start ti ai ti' ai' p one two =
      let next = start + length (core.commitments t) in
      ground (
        arith,
        seek-≤ ts next ti ai p,
        seek-≤ ts next ti' ai' p,
        seek-injective ts next ti ai ti' ai' p,
      )

  -- With its nullifiers in order, a block answers alike from the commitment total and from the tree
  -- before it.
  pub seek-eq-action_position :
      (ts : List core.Transaction) (start tx_index action_index : ℕ)
      → ArePaired ts
      → seek ts start tx_index action_index ≡ action_position ts start tx_index action_index
  unfolding seek action_position ArePaired paired u32_of
  seek-eq-action_position [] start ti ai p = refl
  seek-eq-action_position (t ∷ ts) start ti ai (p, ps) =
      ground (arith, seek-eq-action_position ts (start + length (core.commitments t)) ti ai ps)
