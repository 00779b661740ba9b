-- ===== src/Crypto/Bsgs.antt =====
-- Baby-step giant-step search of a discrete logarithm (crypto/elgamal/bsgs.go).
pub mod Solves
use vote_sdk.Base.{
  ℕ, zero, suc, ◌+◌, ◌*◌, ◌%◌, ◌^◌, Bool, true, false, Option, none, some, List, [], ◌∷◌, Bytes,
  bytes_eq, Error, Result, ok, err, ltb, leb, ◌==◌, if◌then◌else◌, add64,
}
use vote_sdk.Crypto.{Curve}
use vote_sdk.Crypto.ElGamal.{scalar_from_uint64}

-- The map from compressed points to indices, with the newest entry first.
abbrev pub Steps : Type 0
Steps = List (Bytes × ℕ)

unfoldable pub find_key : Steps → Bytes → Option ℕ
find_key [] key = none
find_key ((k, j) ∷ rest) key = if bytes_eq k key then some j else find_key rest key

pub record BsgsTable (P : Type 0) : Type 0 where
  pub table : Steps
  pub m : ℕ
  pub m_g : P
  pub n : ℕ

-- `float_ceil_sqrt n` is `uint64(math.Ceil(math.Sqrt(float64(n))))`.
unfoldable pub ceil_sqrt : (ℕ → ℕ) → ℕ → ℕ
ceil_sqrt float_ceil_sqrt n =
    if leb n 1 then n else let s = float_ceil_sqrt n in if ltb (s * s) n then add64 s 1 else s

-- A giant step: an index that is found ends the search if the logarithm is below the bound.
abbrev pub looked_up : {P : Type 0} → BsgsTable P → ℕ → Option ℕ → Result ℕ → Result ℕ
looked_up t i none rest = rest
looked_up t i (some j) rest = let x = (i * t.m + j) % 2 ^ 64 in if ltb x t.n then ok x else rest

module _ {P F : Type 0} (c : Curve P F) where
  open c use {add, sub, mul, identity, to_affine_compressed, generator}

  -- The baby steps: `k` of them are left, the next has the index `j`.
  unfoldable pub baby_steps : ℕ → ℕ → P → Steps → Steps
  baby_steps zero j current table = table
  baby_steps (suc k) j current table =
      baby_steps k (add64 j 1) (add current generator) ((to_affine_compressed current, j) ∷ table)

  unfoldable pub new_bsgs_table : (ℕ → ℕ) → ℕ → BsgsTable P
  unfolding baby_steps ceil_sqrt
  new_bsgs_table float_ceil_sqrt n =
      if n == 0
      then record { table = []; m = 0; m_g = identity; n = 0 }
      else let m = ceil_sqrt float_ceil_sqrt n in
        record {
          table = baby_steps m 0 identity [];
          m = m;
          m_g = mul generator (scalar_from_uint64 c m);
          n = n;
        }

  -- The giant steps: `k` of them are left, the next has the index `i`.
  unfoldable pub giant_steps : BsgsTable P → ℕ → ℕ → P → Result ℕ
  unfolding find_key
  giant_steps t zero i candidate = err Error.malformed
  giant_steps t (suc k) i candidate =
      looked_up t i (find_key t.table (to_affine_compressed candidate))
        (giant_steps t k (add64 i 1) (sub candidate t.m_g))

  -- The loop runs for i = 0, …, m.
  unfoldable pub solve : BsgsTable P → P → Result ℕ
  unfolding giant_steps
  solve t h = if t.n == 0 then err Error.malformed else giant_steps t (suc t.m) 0 h
