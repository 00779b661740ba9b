-- ===== src/Scenarios/SmallCurve.antt =====
-- A curve of two points over the field of two elements, which satisfies the laws of the interface.
use vote_sdk.Base.{
  ℕ, ◌+◌, ◌↔◌, length, all, ◌%◌, ◌≡◌, refl, Bool, true, false, not, ◌&&◌, Option, none, some, [],
  ◌∷◌, Bytes, replicate, arith, ◌==◌, if◌then◌else◌,
}
use vote_sdk.Crypto.{Curve}

abbrev pub xor : Bool → Bool → Bool
xor true b = not b
xor false b = b

abbrev pub compress : Bool → Bytes
compress true = 1 ∷ replicate 31 0
compress false = replicate 32 0

abbrev pub decompress : Bytes → Option Bool
decompress [] = none
decompress (b ∷ _) = if b == 1 then some true else none

abbrev pub invert_bit : Bool → Option Bool
invert_bit true = some true
invert_bit false = none

pub xor_comm : (p q : Bool) → xor p q ≡ xor q p
xor_comm p q = ground arith

pub xor_assoc : (p q r : Bool) → xor (xor p q) r ≡ xor p (xor q r)
xor_assoc p q r = ground arith

pub xor_cancel : (p q : Bool) → xor (xor p q) q ≡ p
xor_cancel p q = ground arith

pub and_assoc : (p a b : Bool) → ((p && a) && b) ≡ (p && (a && b))
and_assoc p a b = ground arith

pub and_xor : (p a b : Bool) → (p && xor a b) ≡ xor (p && a) (p && b)
and_xor p a b = ground arith

pub xor_and : (p q a : Bool) → (xor p q && a) ≡ xor (p && a) (q && a)
xor_and p q a = ground arith

pub and_comm : (a b : Bool) → (a && b) ≡ (b && a)
and_comm a b = ground arith

pub not_iff : (p : Bool) → (not p ≡ true) ↔ (p ≡ false)
not_iff p = (λ h. ground arith, λ h. ground arith)

pub xor_iff : (p q : Bool) → (not (xor p q) ≡ true) ↔ (p ≡ q)
xor_iff p q = (λ h. ground arith, λ h. ground arith)

pub compress-length : (p : Bool) → length (compress p) ≡ 32
compress-length true = refl
compress-length false = refl

pub decompress-compress : (p : Bool) → not p ≡ false → decompress (compress p) ≡ some p
decompress-compress true h = refl
decompress-compress false h = cc

pub compress-zero : (p : Bool) → all (λ b. b == 0) (compress p) ≡ not p
compress-zero true = refl
compress-zero false = refl

pub parity_add : (m n : ℕ) → ((m + n) % 2 == 1) ≡ xor (m % 2 == 1) (n % 2 == 1)
parity_add m n = ground arith

abbrev pub small_curve : Curve Bool Bool
small_curve = record {
  add = xor;
  sub = xor;
  mul = λ p f. p && f;
  identity = false;
  is_identity = not;
  equal = λ p q. not (xor p q);
  to_affine_compressed = compress;
  from_affine_compressed = decompress;
  generator = true;
  f_add = xor;
  f_sub = xor;
  f_mul = λ a b. a && b;
  invert = invert_bit;
  set_big_int = λ n. n % 2 == 1;
  one = true;
  set_big_int_add = parity_add;
  add_comm = xor_comm;
  add_assoc = xor_assoc;
  identity_add = λ p. refl;
  add_sub = xor_cancel;
  mul_mul = and_assoc;
  mul_f_add = and_xor;
  mul_add = xor_and;
  f_mul_comm = and_comm;
  is_identity_iff = not_iff;
  equal_iff = xor_iff;
  compressed_length = compress-length;
  decompress_compress = decompress-compress;
  compressed_zero = compress-zero;
}
