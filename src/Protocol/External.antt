-- ===== src/Protocol/External.antt =====
-- What the program takes from the crates `blake2b_simd`, `pasta_curves` and `zcash_address`.
use coppice_names.Prelude.{ℕ, Bool, Option, List}

abbrev pub Bytes : Type 0
Bytes = List ℕ

pub record Primitives : Type 0 where
  -- `Params::new().hash_length(n).personal(p).hash(input)`
  pub blake2b : ℕ → Bytes → Bytes → Bytes
  -- `pallas::Base::from_uniform_bytes(wide).to_repr()`
  pub from_uniform_bytes : Bytes → Bytes
  -- whether `pallas::Base::from_repr(bytes)` is some element
  pub is_canonical_repr : Bytes → Bool
  -- `unified::Address::decode(value)`, then `encode` for the network that it found
  pub reencode_address : Bytes → Option Bytes
