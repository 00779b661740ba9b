-- ===== src/Crypto.antt =====
-- The Pallas curve as the source uses it: `curvey`, a library that the source only calls, taken as
-- an interface of points and scalars with the laws of a vector space. Every value of the point type
-- is a point of the curve, so `IsOnCurve` and tests for nil points do not appear.
pub mod ElGamal
pub mod Shamir
pub mod Feldman
pub mod Bsgs
pub mod Proofs
use vote_sdk.Base.{ℕ, ◌+◌, ◌≡◌, ◌↔◌, Bool, true, false, Option, some, Bytes, length, all, ◌==◌}

pub record Curve (P F : Type 0) : Type 0 where
  pub add : P → P → P
  pub sub : P → P → P
  pub mul : P → F → P
  pub identity : P
  pub is_identity : P → Bool
  pub equal : P → P → Bool
  pub to_affine_compressed : P → Bytes
  pub from_affine_compressed : Bytes → Option P
  -- SpendAuthG, decompressed from a constant.
  pub generator : P
  pub f_add : F → F → F
  pub f_sub : F → F → F
  pub f_mul : F → F → F
  pub invert : F → Option F
  -- `SetBigInt` on a number that is not negative.
  pub set_big_int : ℕ → F
  pub one : F
  pub set_big_int_add : (m n : ℕ) → set_big_int (m + n) ≡ f_add (set_big_int m) (set_big_int n)
  pub add_comm : (p q : P) → add p q ≡ add q p
  pub add_assoc : (p q r : P) → add (add p q) r ≡ add p (add q r)
  pub identity_add : (p : P) → add identity p ≡ p
  pub add_sub : (p q : P) → sub (add p q) q ≡ p
  pub mul_mul : (p : P) (a b : F) → mul (mul p a) b ≡ mul p (f_mul a b)
  pub mul_f_add : (p : P) (a b : F) → mul p (f_add a b) ≡ add (mul p a) (mul p b)
  pub mul_add : (p q : P) (a : F) → mul (add p q) a ≡ add (mul p a) (mul q a)
  pub f_mul_comm : (a b : F) → f_mul a b ≡ f_mul b a
  pub is_identity_iff : (p : P) → (is_identity p ≡ true) ↔ (p ≡ identity)
  pub equal_iff : (p q : P) → (equal p q ≡ true) ↔ (p ≡ q)
  pub compressed_length : (p : P) → length (to_affine_compressed p) ≡ 32
  pub decompress_compress :
      (p : P) → is_identity p ≡ false → from_affine_compressed (to_affine_compressed p) ≡ some p
  -- The identity is written as zeros, and no other point is.
  pub compressed_zero : (p : P) → all (λ b. b == 0) (to_affine_compressed p) ≡ is_identity p
