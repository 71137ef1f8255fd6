-- ===== src/Collections/Order.antt =====
-- Rust's `Ord`: a comparison with the laws that the trait asks for, and the derived instances that
-- the keys of the program use (numbers, byte strings, pairs, and what injects into those).
use coppice_names.Prelude.{
  ℕ, compare, Ordering, ◌≡◌, refl, ◌↔◌, Bool, true, false, Option, none, some, List, [], ◌∷◌, arith,
}
use Prim.Native.Nat.Ordering.{lt, eq, gt}

abbrev pub flip : Ordering → Ordering
flip lt = gt
flip eq = eq
flip gt = lt

-- the derived lexicographic comparison
abbrev pub or_else : Ordering → Ordering → Ordering
or_else eq second = second
or_else first _ = first

pub record Ord {ℓ} (K : Type ℓ) : Type ℓ where
  pub cmp : K → K → Ordering
  pub cmp_self : (a : K) → cmp a a ≡ eq
  pub eq_of_cmp : (a b : K) → cmp a b ≡ eq → a ≡ b
  pub cmp_flip : (a b : K) → cmp b a ≡ flip (cmp a b)
  pub cmp_trans : (a b c : K) → cmp a b ≡ lt → cmp b c ≡ lt → cmp a c ≡ lt

abbrev test_eq : Ordering → Bool
test_eq eq = true
test_eq _ = false

module _ {ℓ} {K : Type ℓ} ⦃o : Ord K⦄ where
  -- `==`
  unfoldable pub same : K → K → Bool
  same a b = test_eq (o.cmp a b)

  pub same_self : (a : K) → same a a ≡ true
  unfolding same
  same_self a = rw o.cmp_self

  pub eq_of_same : (a b : K) → same a b ≡ true → a ≡ b
  unfolding same
  eq_of_same a b h = ground (arith, o.eq_of_cmp a b)

  pub same_of_eq : (a b : K) → a ≡ b → same a b ≡ true
  same_of_eq a b h = rw h (same_self b)

  pub same_iff : (a b : K) → (same a b ≡ true) ↔ (a ≡ b)
  same_iff a b = (eq_of_same a b, same_of_eq a b)

pub cmp_nat_self : (a : ℕ) → compare a a ≡ eq
cmp_nat_self a = ground arith

pub eq_of_cmp_nat : (a b : ℕ) → compare a b ≡ eq → a ≡ b
eq_of_cmp_nat a b h = ground arith

pub cmp_nat_flip : (a b : ℕ) → compare b a ≡ flip (compare a b)
cmp_nat_flip a b = ground arith

pub cmp_nat_trans : (a b c : ℕ) → compare a b ≡ lt → compare b c ≡ lt → compare a c ≡ lt
cmp_nat_trans a b c h k = ground arith

instance unfoldable pub nat_ord : Ord ℕ
nat_ord = record {
  cmp = compare;
  cmp_self = cmp_nat_self;
  eq_of_cmp = eq_of_cmp_nat;
  cmp_flip = cmp_nat_flip;
  cmp_trans = cmp_nat_trans;
}

module _ {ℓ} {K : Type ℓ} ⦃o : Ord K⦄ where
  abbrev cmp_list : List K → List K → Ordering
  cmp_list [] [] = eq
  cmp_list [] (y ∷ ys) = lt
  cmp_list (x ∷ xs) [] = gt
  cmp_list (x ∷ xs) (y ∷ ys) = or_else (o.cmp x y) (cmp_list xs ys)

  pub cmp_list_self : (a : List K) → cmp_list a a ≡ eq
  cmp_list_self [] = refl
  cmp_list_self (x ∷ xs) = rw o.cmp_self (cmp_list_self xs)

  pub eq_of_cmp_list : (a b : List K) → cmp_list a b ≡ eq → a ≡ b
  eq_of_cmp_list [] [] h = refl
  eq_of_cmp_list [] (y ∷ ys) h = cc
  eq_of_cmp_list (x ∷ xs) [] h = cc
  eq_of_cmp_list (x ∷ xs) (y ∷ ys) h = ground (arith, o.eq_of_cmp x y, eq_of_cmp_list xs ys)

  pub cmp_list-flip : (a b : List K) → cmp_list b a ≡ flip (cmp_list a b)
  cmp_list-flip [] [] = refl
  cmp_list-flip [] (y ∷ ys) = refl
  cmp_list-flip (x ∷ xs) [] = refl
  cmp_list-flip (x ∷ xs) (y ∷ ys) = ground (arith, o.cmp_flip x y, cmp_list-flip xs ys)

  pub cmp_list_trans : (a b c : List K) → cmp_list a b ≡ lt → cmp_list b c ≡ lt → cmp_list a c ≡ lt
  cmp_list_trans [] [] c h k = cc
  cmp_list_trans [] (y ∷ ys) [] h k = cc
  cmp_list_trans [] (y ∷ ys) (z ∷ zs) h k = refl
  cmp_list_trans (x ∷ xs) [] c h k = cc
  cmp_list_trans (x ∷ xs) (y ∷ ys) [] h k = cc
  cmp_list_trans (x ∷ xs) (y ∷ ys) (z ∷ zs) h k = ground (
    arith,
    o.eq_of_cmp x y,
    o.eq_of_cmp y z,
    o.cmp_self x,
    o.cmp_trans x y z,
    cmp_list_trans xs ys zs,
  )

  instance unfoldable pub list_ord : Ord (List K)
  list_ord = record {
    cmp = cmp_list;
    cmp_self = cmp_list_self;
    eq_of_cmp = eq_of_cmp_list;
    cmp_flip = cmp_list-flip;
    cmp_trans = cmp_list_trans;
  }

module _ {ℓ κ} {A : Type ℓ} {B : Type κ} ⦃a : Ord A⦄ ⦃b : Ord B⦄ where
  abbrev cmp_pair : A × B → A × B → Ordering
  cmp_pair x y = or_else (a.cmp x.0 y.0) (b.cmp x.1 y.1)

  pub cmp_pair_trans : (x y z : A × B) → cmp_pair x y ≡ lt → cmp_pair y z ≡ lt → cmp_pair x z ≡ lt
  cmp_pair_trans x y z h k = ground (
    arith,
    a.eq_of_cmp x.0 y.0,
    a.eq_of_cmp y.0 z.0,
    a.cmp_self x.0,
    a.cmp_trans x.0 y.0 z.0,
    b.cmp_trans x.1 y.1 z.1,
  )

  pub cmp_pair_self : (x : A × B) → cmp_pair x x ≡ eq
  cmp_pair_self x = rw a.cmp_self (b.cmp_self x.1)

  pub eq_of_cmp_pair : (x y : A × B) → cmp_pair x y ≡ eq → x ≡ y
  eq_of_cmp_pair x y h = ground (arith, a.eq_of_cmp x.0 y.0, b.eq_of_cmp x.1 y.1)

  pub cmp_pair-flip : (x y : A × B) → cmp_pair y x ≡ flip (cmp_pair x y)
  cmp_pair-flip x y = ground (arith, a.cmp_flip x.0 y.0, b.cmp_flip x.1 y.1)

  instance unfoldable pub pair_ord : Ord (A × B)
  pair_ord = record {
    cmp = cmp_pair;
    cmp_self = cmp_pair_self;
    eq_of_cmp = eq_of_cmp_pair;
    cmp_flip = cmp_pair-flip;
    cmp_trans = cmp_pair_trans;
  }

module _ {ℓ} {K : Type ℓ} ⦃o : Ord K⦄ where
  -- `None` comes before `Some`
  abbrev cmp_option : Option K → Option K → Ordering
  cmp_option none none = eq
  cmp_option none (some b) = lt
  cmp_option (some a) none = gt
  cmp_option (some a) (some b) = o.cmp a b

  pub cmp_option_self : (a : Option K) → cmp_option a a ≡ eq
  cmp_option_self none = refl
  cmp_option_self (some a) = o.cmp_self a

  pub eq_of_cmp_option : (a b : Option K) → cmp_option a b ≡ eq → a ≡ b
  eq_of_cmp_option none none h = refl
  eq_of_cmp_option none (some b) h = cc
  eq_of_cmp_option (some a) none h = cc
  eq_of_cmp_option (some a) (some b) h = cc (o.eq_of_cmp a b h)

  pub cmp_option-flip : (a b : Option K) → cmp_option b a ≡ flip (cmp_option a b)
  cmp_option-flip none none = refl
  cmp_option-flip none (some b) = refl
  cmp_option-flip (some a) none = refl
  cmp_option-flip (some a) (some b) = o.cmp_flip a b

  pub cmp_option_trans :
      (a b c : Option K) → cmp_option a b ≡ lt → cmp_option b c ≡ lt → cmp_option a c ≡ lt
  cmp_option_trans none none c h k = cc
  cmp_option_trans none (some b) none h k = cc
  cmp_option_trans none (some b) (some c) h k = refl
  cmp_option_trans (some a) none c h k = cc
  cmp_option_trans (some a) (some b) none h k = cc
  cmp_option_trans (some a) (some b) (some c) h k = o.cmp_trans a b c h k

  instance unfoldable pub option_ord : Ord (Option K)
  option_ord = record {
    cmp = cmp_option;
    cmp_self = cmp_option_self;
    eq_of_cmp = eq_of_cmp_option;
    cmp_flip = cmp_option-flip;
    cmp_trans = cmp_option_trans;
  }

-- A struct compares field by field: by the tuple of its fields.
abbrev pub ord_by {ℓ κ} :
    {A : Type ℓ} {B : Type κ} ⦃b : Ord B⦄ (f : A → B) → ((x y : A) → f x ≡ f y → x ≡ y) → Ord A
ord_by ⦃b⦄ f injective = record {
  cmp = λ x y. b.cmp (f x) (f y);
  cmp_self = λ x. b.cmp_self (f x);
  eq_of_cmp = λ x y h. injective x y (b.eq_of_cmp (f x) (f y) h);
  cmp_flip = λ x y. b.cmp_flip (f x) (f y);
  cmp_trans = λ x y z. b.cmp_trans (f x) (f y) (f z);
}
