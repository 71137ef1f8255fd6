-- ===== src/Schedule/Descending.antt =====
-- `operation_windows_descending`: the windows that a resolver scans.
use coppice_names.Prelude.{
  ℕ, zero, suc, ◌+◌, ◌-◌, ◌≤◌, ◌<◌, ◌≡◌, ◌↔◌, ◌⊎◌, inl, inr, refl, Bool, true, false, ◌||◌, ok,
  Result, List, [], ◌∷◌, arith, bind-eq-ok, Bool-cases, max, min, ltb, leb, ltb→lt, guard,
  if◌then◌else◌, ◌>>=◌, subst, ap,
}
use native.Mathlib.Decide.{ℕ_discrete}
use coppice_names.Prelude.Word.{u32_size}
use coppice_names.Protocol.{NameId, Primitives}
use coppice_names.Schedule.{
  Parameters, Window, ScheduleError, invalid_range, validate, epoch, window, accepts_operation,
  contains_height, clip, push_window, windows_loop, operation_windows_descending,
}
use coppice_names.Schedule.Arithmetic.{IsValid, epoch_start, epoch_mono}
use coppice_names.Schedule.Windows.{accepts_operation_iff, epoch_of_window, window_within_epoch}

-- whether one of the windows contains a height
abbrev pub in_any : List Window → ℕ → Bool
in_any [] h = false
in_any (w ∷ ws) h = contains_height w h || in_any ws h

-- newest first: nonempty windows between `low` and `high`, each ending where or before the one
-- above it starts
abbrev pub Descends : ℕ → ℕ → List Window → Type 0
Descends low high [] = Unit
Descends low high (w ∷ ws) =
    (low ≤ w.start) × (w.start < w.end) × (w.end ≤ high) × Descends low w.start ws

Descends-widen :
    (low low' high high' : ℕ) (ws : List Window)
    → low' ≤ low
    → high ≤ high'
    → Descends low high ws
    → Descends low' high' ws
Descends-widen low low' high high' [] h k d = tt
Descends-widen low low' high high' (w ∷ ws) h k d =
    (omega arith, d.1, omega arith, Descends-widen low low' w.start w.start ws h (omega arith) d.3)

in_any-push :
    (s t h : ℕ) (w : Window) (ws : List Window)
    → (in_any (push_window (clip s t w) ws) h ≡ true)
      ↔ (((s ≤ h) × (h < t) × (contains_height w h ≡ true)) ⊎ (in_any ws h ≡ true))
in_any-push s t h w ws = (λ c. ground arith, λ c. ground arith)

module _ ⦃prims : Primitives⦄ (p : Parameters) (n : NameId) (s t : ℕ) where
  -- some window among the epochs from `first` to below `last`, clipped to the range, contains `h`
  abbrev pub Hit : ℕ → ℕ → ℕ → Type 0
  Hit first last h =
      (e : ℕ) × (w : Window) × (first ≤ e)
      × (e < last)
      × (window p n e ≡ ok w)
      × ((s ≤ h) × (h < t) × (contains_height w h ≡ true))

  windows_loop_inversion :
      (first count : ℕ) (ws : List Window)
      → windows_loop p n s t first (suc count) ≡ ok ws
      → (w : Window) × (rest : List Window) × (window p n (first + count) ≡ ok w)
        × (windows_loop p n s t first count ≡ ok rest)
        × (ws ≡ push_window (clip s t w) rest)
  unfolding windows_loop
  windows_loop_inversion first count ws r =
      let (w, hw, r1) = bind-eq-ok (window p n (first + count)) _ r in
      let (rest, hr, r2) = bind-eq-ok (windows_loop p n s t first count) _ r1 in
      (w, rest, hw, hr, cc)

  -- what the loop's windows contain
  loop_contains :
      (first count h : ℕ) (ws : List Window)
      → windows_loop p n s t first count ≡ ok ws
      → (in_any ws h ≡ true) ↔ Hit first (first + count) h
  unfolding windows_loop
  loop_contains first zero h ws r =
      (λ c. absurd (ground arith), λ (e, w, low, high, _, _). absurd (omega arith))
  loop_contains first (suc count) h ws r =
      let (w, rest, hw, hr, shape) = windows_loop_inversion first count ws r in
      let pushed = in_any-push s t h w rest in
      let ih = loop_contains first count h rest hr in
      (
        λ c. widen rest w hw ih (pushed.0 (rw shape at c)),
        λ hit. rw shape (pushed.1 (narrow rest w hw ih hit)),
      )
    where
      widen :
          (rest : List Window) (w : Window)
          → window p n (first + count) ≡ ok w
          → (in_any rest h ≡ true) ↔ Hit first (first + count) h
          → ((s ≤ h) × (h < t) × (contains_height w h ≡ true)) ⊎ (in_any rest h ≡ true)
          → Hit first (first + suc count) h
      widen rest w hw ih (inl here) = (first + count, w, omega arith, omega arith, hw, here)
      widen rest w hw ih (inr later) =
          let (e, v, low, high, hv, inside) = ih.0 later in (e, v, low, omega arith, hv, inside)

      narrow :
          (rest : List Window) (w : Window)
          → window p n (first + count) ≡ ok w
          → (in_any rest h ≡ true) ↔ Hit first (first + count) h
          → Hit first (first + suc count) h
          → ((s ≤ h) × (h < t) × (contains_height w h ≡ true)) ⊎ (in_any rest h ≡ true)
      narrow rest w hw ih (e, v, low, high, hv, inside) = elim (ℕ_discrete e (first + count)) [
        | yes same ↦ inl (subst (λ u. (s ≤ h) × (h < t) × (contains_height u h ≡ true)) (cc) inside)
        | no other ↦ inr (ih.1 (e, v, low, omega arith, hv, inside))
      ]

  -- the order of the loop's windows
  loop-Descends :
      (first count : ℕ) (ws : List Window)
      → IsValid p
      → windows_loop p n s t first count ≡ ok ws
      → Descends s (min t (epoch_start p (first + count))) ws
  unfolding windows_loop
  loop-Descends first zero ws v r = let e : [] ≡ ws = cc in rw (← e) tt
  loop-Descends first (suc count) ws v r =
      let (w, rest, hw, hr, shape) = windows_loop_inversion first count ws r in
      let ih = loop-Descends first count rest v hr in
      let inside = window_within_epoch p n (first + count) w v hw in
      let later : epoch_start p (first + suc count) ≡ epoch_start p (suc (first + count)) =
        ap (epoch_start p) (omega arith) in
      rw shape (push w rest inside later ih)
    where
      push :
          (w : Window) (rest : List Window)
          → (epoch_start p (first + count) ≤ w.start)
            × (w.start + p.window_blocks ≡ w.end)
            × (w.end ≤ epoch_start p (suc (first + count)))
            × (w.end < u32_size)
          → epoch_start p (first + suc count) ≡ epoch_start p (suc (first + count))
          → Descends s (min t (epoch_start p (first + count))) rest
          → Descends s (min t (epoch_start p (first + suc count))) (push_window (clip s t w) rest)
      push w rest inside later ih = elim (Bool-cases (ltb (max w.start s) (min w.end t))) [
        | inl kept ↦ rw kept (
          omega arith,
          ltb→lt _ _ kept,
          omega arith,
          Descends-widen s s _ _ rest (omega arith) (omega arith) ih,
        )
        | inr dropped ↦ rw dropped (Descends-widen s s _ _ rest (omega arith) (omega arith) ih)
      ]

module _ ⦃prims : Primitives⦄ where
  accepts_from_activation :
      (p : Parameters) (n : NameId) (h : ℕ)
      → accepts_operation p n h ≡ true
      → p.activation_height ≤ h
  unfolding accepts_operation epoch
  accepts_from_activation p n h a = ground arith

  -- how a successful call ran: the range lies before activation, or the loop covered its epochs
  data Ran (p : Parameters) (n : NameId) (s t : ℕ) (ws : List Window) : Type 0 where
    empty_range : t ≤ max s p.activation_height → ws ≡ [] → Ran p n s t ws
    looped :
        (low first last : ℕ)
        → low ≡ max s p.activation_height
        → low < t
        → epoch p low ≡ ok first
        → epoch p (t - 1) ≡ ok last
        → windows_loop p n low t first (last + 1 - first) ≡ ok ws
        → Ran p n s t ws

  descending_inversion :
      (p : Parameters) (n : NameId) (s t : ℕ) (ws : List Window)
      → operation_windows_descending p n s t ≡ ok ws
      → Ran p n s t ws
  unfolding operation_windows_descending
  descending_inversion p n s t ws r =
      let (_, _, r1) = bind-eq-ok (validate p) _ r in
      let (_, _, r2) = bind-eq-ok (guard (ltb s t) invalid_range) _ r1 in
      split _ (Bool-cases (leb t (max s p.activation_height))) r2 looping
    where
      looping :
          (do
            first_epoch ← epoch p (max s p.activation_height)
            last_epoch ← epoch p (t - 1)
            windows_loop p n
                (max s p.activation_height)
                t
                first_epoch
                (last_epoch + 1 - first_epoch))
            ≡ ok ws
          → max s p.activation_height < t
          → Ran p n s t ws
      looping r low =
          let (first, hf, r1) = bind-eq-ok (epoch p (max s p.activation_height)) _ r in
          let (last, hl, r2) = bind-eq-ok (epoch p (t - 1)) _ r1 in
          looped (max s p.activation_height) first last refl low hf hl r2

      split :
          (after : Result ScheduleError (List Window))
          → (leb t (max s p.activation_height) ≡ true) ⊎ (leb t (max s p.activation_height) ≡ false)
          → (if leb t (max s p.activation_height) then ok [] else after) ≡ ok ws
          → (after ≡ ok ws → max s p.activation_height < t → Ran p n s t ws)
          → Ran p n s t ws
      split after (inl e) r k = empty_range (ground arith) (let q = rw e at r in cc)
      split after (inr e) r k = k (rw e at r) (ground arith)

  -- The windows contain exactly the heights of the requested range at which the name's operations
  -- are accepted.
  pub operation_windows_exact :
      (p : Parameters) (n : NameId) (s t h : ℕ) (ws : List Window)
      → IsValid p
      → operation_windows_descending p n s t ≡ ok ws
      → (in_any ws h ≡ true) ↔ ((accepts_operation p n h ≡ true) × (s ≤ h) × (h < t))
  operation_windows_exact p n s t h ws v r = exact (descending_inversion p n s t ws r)
    where
      exact :
          Ran p n s t ws
          → (in_any ws h ≡ true) ↔ ((accepts_operation p n h ≡ true) × (s ≤ h) × (h < t))
      exact (empty_range small e) = (
        λ c. absurd (ground arith),
        λ (accepted, low, high). absurd (omega (arith, accepts_from_activation p n h accepted)),
      )
      exact (looped low first last e room hf hl loop) =
          let contains = loop_contains p n low t first (last + 1 - first) h ws loop in
          let accepts = accepts_operation_iff p n h v in
          (λ c. forward (contains.0 c), λ c. contains.1 (backward c))
        where
          forward :
              Hit p n low t first (first + (last + 1 - first)) h
              → (accepts_operation p n h ≡ true) × (s ≤ h) × (h < t)
          forward (i, w, _, _, hw, inside) =
              ((accepts_operation_iff p n h v).1 (i, w, hw, inside.2), omega arith, inside.1)

          backward :
              (accepts_operation p n h ≡ true) × (s ≤ h) × (h < t)
              → Hit p n low t first (first + (last + 1 - first)) h
          backward (accepted, from, below) =
              let (i, w, hw, inside) = (accepts_operation_iff p n h v).0 accepted in
              let hi = epoch_of_window p n i h w v hw inside in
              let from_low : low ≤ h = omega (arith, accepts_from_activation p n h accepted) in
              let above = epoch_mono p low h first i hf hi from_low in
              let under = epoch_mono p h (t - 1) i last hi hl (omega arith) in
              (i, w, above, omega arith, hw, (from_low, below, inside))

  -- The windows are nonempty, lie in the requested range, and descend without overlap.
  pub operation_windows_descend :
      (p : Parameters) (n : NameId) (s t : ℕ) (ws : List Window)
      → IsValid p
      → operation_windows_descending p n s t ≡ ok ws
      → Descends s t ws
  operation_windows_descend p n s t ws v r = descend (descending_inversion p n s t ws r)
    where
      descend : Ran p n s t ws → Descends s t ws
      descend (empty_range small e) = rw e tt
      descend (looped low first last e room hf hl loop) =
          Descends-widen low s _ t ws (omega arith) (omega arith)
            (loop-Descends p n low t first (last + 1 - first) ws v loop)
