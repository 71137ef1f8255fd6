-- ===== src/Codec/Aliases.antt =====
-- Names whose text ends in `.zec` on the wire: `Decoder::name` goes through `Name::parse`.
use coppice_names.Prelude.{
  ℕ, ◌+◌, ◌-◌, ◌≡◌, ◌≢◌, refl, ap, true, false, some, [], ◌∷◌, ◌++◌, ok, arith, length, all, ltb,
  leb, length-append,
}
use coppice_names.Collections.Order.{same_self, nat_ord, list_ord}
use coppice_names.Protocol.{
  Bytes, Name, parse_name, is_bad_name, bare_name, strip_suffix, zec_suffix,
}
use coppice_names.Codec.Bytewise.{is_utf8}
use coppice_names.Codec.Encode.{encode_name}
use coppice_names.Codec.Decode.{read_name}
use coppice_names.Codec.Reads.{
  take_append, drop_append, read_be-byte, read_bytes-append, good_name_is_ascii, ascii_utf8,
}

add-sub : (a b : ℕ) → a + b - b ≡ a
add-sub a b = omega arith

leb-add : (a b : ℕ) → leb b (a + b) ≡ true
leb-add a b = ground arith

strip_suffix-append : (n s : Bytes) → strip_suffix s (n ++ s) ≡ some n
unfolding strip_suffix
strip_suffix-append n s =
    rw
      (
        length-append n s,
        add-sub (length n) (length s),
        leb-add (length n) (length s),
        drop_append n s,
        take_append n s,
        same_self s,
      )
      refl

bare_name-append : (n : Bytes) → bare_name (n ++ zec_suffix) ≡ n
unfolding bare_name
bare_name-append n = rw (bare_name, strip_suffix-append n zec_suffix) refl

parse_name-append : (n : Name) → is_bad_name n ≡ false → parse_name (n ++ zec_suffix) ≡ ok n
unfolding parse_name
parse_name-append n h = rw (bare_name-append n, h) refl

suffixed_is_ascii :
    (n : Bytes) → all (λ c. ltb c 128) n ≡ true → all (λ c. ltb c 128) (n ++ zec_suffix) ≡ true
suffixed_is_ascii [] h = refl
suffixed_is_ascii (c ∷ n) h = ground (arith, suffixed_is_ascii n)

suffixed_is_utf8 : (n : Name) → is_bad_name n ≡ false → is_utf8 (n ++ zec_suffix) ≡ true
unfolding is_utf8
suffixed_is_utf8 n good =
    ascii_utf8 0 0 (n ++ zec_suffix) (suffixed_is_ascii n (good_name_is_ascii n good))

longer : (n : Name) → length (encode_name (n ++ zec_suffix)) ≢ length (encode_name n)
unfolding encode_name
longer n e = grind (arith, length-append n zec_suffix)

-- The decoder reads a name that passes the checks of `Name::parse` also from the bytes of that
-- name with `.zec` behind it, although those bytes are not the ones the encoder writes.
pub read_name-suffixed :
    (n : Name) (rest : Bytes)
    → is_bad_name n ≡ false
    → (read_name (encode_name (n ++ zec_suffix) ++ rest) ≡ ok (n, rest))
      × (encode_name (n ++ zec_suffix) ≢ encode_name n)
unfolding read_name encode_name
read_name-suffixed n rest good = (
  rw
      (
        read_be-byte (length (n ++ zec_suffix)) (n ++ zec_suffix ++ rest),
        read_bytes-append (length (n ++ zec_suffix)) (n ++ zec_suffix) rest refl,
        suffixed_is_utf8 n good,
        parse_name-append n good,
      )
      refl,
  (λ e. longer n (ap (length) e)),
)
