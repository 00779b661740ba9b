-- ===== src/Crypto/ElGamal.antt =====
-- Exponential ElGamal over the curve, and its 64-byte form (crypto/elgamal/elgamal.go,
-- crypto/elgamal/serialize.go).
pub mod Laws
use vote_sdk.Base.{
  ℕ, Bool, true, false, not, Option, none, some, ◌++◌, Bytes, Error, Result, ok, err, ◌==◌, length,
  all, take, drop, if◌then◌else◌, then_check, reject_if,
}
use vote_sdk.Crypto.{Curve}
use mathlib.Core.Option

pub record Ciphertext (P : Type 0) : Type 0 where
  pub c1 : P
  pub c2 : P

abbrev pub compressed_point_size : ℕ
compressed_point_size = 32

abbrev pub ciphertext_size : ℕ
ciphertext_size = 64

abbrev or_malformed : {A : Type 0} → Option A → Result A
or_malformed none = err Error.malformed
or_malformed (some a) = ok a

abbrev pub and_then : {A B : Type 0} → Result A → (A → Result B) → Result B
and_then (ok a) f = f a
and_then (err e) f = err e

module _ {P F : Type 0} (c : Curve P F) where
  open c use {
    add, sub, mul, identity, is_identity, to_affine_compressed, from_affine_compressed, generator,
    f_mul, set_big_int,
  }

  abbrev pub scalar_from_uint64 : ℕ → F
  scalar_from_uint64 v = set_big_int v

  -- `ValuePoint`, with the scalar of a uint64.
  unfoldable pub value_point : ℕ → P
  value_point v = mul generator (scalar_from_uint64 v)

  -- Enc(v, r) = (r·G, v·G + r·pk)
  unfoldable pub encrypt_core : P → ℕ → F → Ciphertext P
  encrypt_core pk v r = record { c1 = mul generator r; c2 = add (value_point v) (mul pk r) }

  unfoldable pub homomorphic_add : Ciphertext P → Ciphertext P → Ciphertext P
  homomorphic_add a b = record { c1 = add a.c1 b.c1; c2 = add a.c2 b.c2 }

  unfoldable pub decrypt_to_point : F → Ciphertext P → P
  decrypt_to_point sk ct = sub ct.c2 (mul ct.c1 sk)

  -- The zero test reads every byte; `FromAffineCompressed` refuses what is not on the curve.
  unfoldable pub decompress_pallas_point : Bytes → Result P
  decompress_pallas_point bytes =
      if all (λ b. b == 0) bytes then ok identity else or_malformed (from_affine_compressed bytes)

  unfoldable pub unmarshal_point : Bytes → Result P
  unmarshal_point bytes =
      then_check (reject_if (not (length bytes == compressed_point_size)) Error.malformed)
        (decompress_pallas_point bytes)

  unfoldable pub unmarshal_public_key : Bytes → Result P
  unmarshal_public_key bytes =
      then_check (reject_if (not (length bytes == compressed_point_size)) Error.malformed) (
        and_then (decompress_pallas_point bytes)
          (λ p. then_check (reject_if (is_identity p) Error.malformed) (ok p)))

  unfoldable pub marshal_ciphertext : Ciphertext P → Result Bytes
  marshal_ciphertext ct =
      let c1_bytes = to_affine_compressed ct.c1 in
      let c2_bytes = to_affine_compressed ct.c2 in
      then_check (reject_if (not (length c1_bytes == compressed_point_size)) Error.malformed) (
        then_check (reject_if (not (length c2_bytes == compressed_point_size)) Error.malformed)
          (ok (c1_bytes ++ c2_bytes)))

  unfoldable pub unmarshal_ciphertext : Bytes → Result (Ciphertext P)
  unmarshal_ciphertext bytes =
      then_check (reject_if (not (length bytes == ciphertext_size)) Error.malformed) (
        and_then (decompress_pallas_point (take compressed_point_size bytes)) (λ p.
          and_then (decompress_pallas_point (drop compressed_point_size bytes))
            (λ q. ok (record { c1 = p; c2 = q }))))
