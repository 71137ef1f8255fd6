-- ===== src/Wallet/Checkpoint/Slices.antt =====
-- Slices of byte strings, and big-endian numbers read back.
use native.Mathlib.Numerals.{unary_clauses}
use coppice_names.Prelude.{
  ℕ, zero, suc, ◌+◌, ◌-◌, ◌≤◌, ◌<◌, ◌≡◌, refl, ap, [], ◌∷◌, ◌++◌, Each, arith, length, take, drop,
}
use coppice_names.Prelude.Word.{IsU32}
use coppice_names.Protocol.{Bytes}
use coppice_names.Codec.Bytewise.{be32, from_be}
use coppice_names.Codec.Reads.{take_append, drop_append}
use coppice_names.Wallet.Checkpoint.{byte_at}

pub take-append : (n : ℕ) (xs ys : Bytes) → length xs ≡ n → take n (xs ++ ys) ≡ xs
take-append n xs ys h = rw (← h) (take_append xs ys)

pub drop-append : (n : ℕ) (xs ys : Bytes) → length xs ≡ n → drop n (xs ++ ys) ≡ ys
drop-append n xs ys h = rw (← h) (drop_append xs ys)

pub drop_add : (a b : ℕ) (xs : Bytes) → drop (a + b) xs ≡ drop b (drop a xs)
drop_add zero b xs = ap (λ n. drop n xs) (omega arith)
drop_add (suc a) zero [] = simp unary_clauses refl
drop_add (suc a) (suc b) [] = simp unary_clauses refl
drop_add (suc a) b (x ∷ xs) =
    let step : suc a + b ≡ suc (a + b) = omega arith in rw step (drop_add a b xs)

pub take_add : (a b : ℕ) (xs : Bytes) → take (a + b) xs ≡ take a xs ++ take b (drop a xs)
take_add zero b xs = ap (λ n. take n xs) (omega arith)
take_add (suc a) zero [] = simp unary_clauses refl
take_add (suc a) (suc b) [] = simp unary_clauses refl
take_add (suc a) b (x ∷ xs) =
    let step : suc a + b ≡ suc (a + b) = omega arith in rw step (ap (λ t. x ∷ t) (take_add a b xs))

pub take-drop : (n : ℕ) (xs : Bytes) → take n xs ++ drop n xs ≡ xs
take-drop zero xs = refl
take-drop (suc n) [] = refl
take-drop (suc n) (x ∷ xs) = ap (λ t. x ∷ t) (take-drop n xs)

pub length-take : (n : ℕ) (xs : Bytes) → n ≤ length xs → length (take n xs) ≡ n
length-take zero xs h = refl
length-take (suc n) [] h = ground arith
length-take (suc n) (x ∷ xs) h = ground (arith, length-take n xs)

pub take_one : (n : ℕ) (xs : Bytes) → n < length xs → take 1 (drop n xs) ≡ byte_at xs n ∷ []
unfolding byte_at
take_one n [] h = ground arith
take_one zero (x ∷ xs) h = refl
take_one (suc n) (x ∷ xs) h = ground (arith, take_one n xs)

-- every member is a byte
unfoldable pub IsBytes : Bytes → Type 0
IsBytes = Each (λ b. b < 256)

pub from_be-be32 : (n : ℕ) → IsU32 n → from_be (be32 n) 0 ≡ n
unfolding from_be be32
from_be-be32 n h = omega arith

pub be32-from_be : (bs : Bytes) → length bs ≡ 4 → IsBytes bs → be32 (from_be bs 0) ≡ bs
unfolding from_be be32 IsBytes
be32-from_be [] h small = ground arith
be32-from_be (a ∷ []) h small = ground arith
be32-from_be (a ∷ b ∷ []) h small = ground arith
be32-from_be (a ∷ b ∷ c ∷ []) h small = ground arith
be32-from_be (a ∷ b ∷ c ∷ d ∷ []) h (ha, (hb, (hc, (hd, e)))) = ground arith
be32-from_be (a ∷ b ∷ c ∷ d ∷ x ∷ xs) h small = ground arith

pub from_be-IsU32 : (bs : Bytes) → length bs ≡ 4 → IsBytes bs → IsU32 (from_be bs 0)
unfolding from_be IsBytes
from_be-IsU32 [] h small = ground arith
from_be-IsU32 (a ∷ []) h small = ground arith
from_be-IsU32 (a ∷ b ∷ []) h small = ground arith
from_be-IsU32 (a ∷ b ∷ c ∷ []) h small = ground arith
from_be-IsU32 (a ∷ b ∷ c ∷ d ∷ []) h (ha, (hb, (hc, (hd, e)))) = omega arith
from_be-IsU32 (a ∷ b ∷ c ∷ d ∷ x ∷ xs) h small = ground arith

pub take-IsBytes : (n : ℕ) (bs : Bytes) → IsBytes bs → IsBytes (take n bs)
unfolding IsBytes
take-IsBytes zero bs h = tt
take-IsBytes (suc n) [] h = tt
take-IsBytes (suc n) (b ∷ bs) (small, rest) = (small, take-IsBytes n bs rest)

pub drop-IsBytes : (n : ℕ) (bs : Bytes) → IsBytes bs → IsBytes (drop n bs)
unfolding IsBytes
drop-IsBytes zero bs h = h
drop-IsBytes (suc n) [] h = tt
drop-IsBytes (suc n) (b ∷ bs) (small, rest) = drop-IsBytes n bs rest

pub length-drop : (n : ℕ) (xs : Bytes) → length (drop n xs) ≡ length xs - n
length-drop zero xs = omega arith
length-drop (suc n) [] = omega arith
length-drop (suc n) (x ∷ xs) = ground (arith, length-drop n xs)
