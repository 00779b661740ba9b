-- ===== src/Keys/Injective.antt =====
-- Reading keys back (x/vote/types/keys.go).
use vote_sdk.Base.{
  ℕ, ◌^◌, ◌<◌, ◌≡◌, refl, ap, sym, ◌∙◌, some, List, [], ◌∷◌, ◌++◌, arith, length, Bytes, ok,
}
use vote_sdk.Keys.{
  NullifierType, type_byte, put_uint64_be, put_uint32_be, get_uint32_be, get_uint64_be,
  validate_round_id, nullifier_key,
}

pub get-put_uint32 : (v : ℕ) → v < 2 ^ 32 → get_uint32_be (put_uint32_be v) ≡ some v
unfolding get_uint32_be put_uint32_be
get-put_uint32 v h = ap some (omega arith)

pub get-put_uint64 : (v : ℕ) → v < 2 ^ 64 → get_uint64_be (put_uint64_be v) ≡ some v
unfolding get_uint64_be put_uint64_be
get-put_uint64 v h = ap some (omega arith)

pub append_inj :
    {A : Type 0} (xs ys us vs : List A)
    → length xs ≡ length ys
    → xs ++ us ≡ ys ++ vs
    → (xs ≡ ys) × (us ≡ vs)
append_inj [] [] us vs n e = (refl, e)
append_inj [] (y ∷ ys) us vs n e = absurd (omega arith)
append_inj (x ∷ xs) [] us vs n e = absurd (omega arith)
append_inj (x ∷ xs) (y ∷ ys) us vs n e =
    let r = append_inj xs ys us vs (omega arith) (cc) in (cc (r.0), r.1)

type_byte_inj : (t u : NullifierType) → type_byte t ≡ type_byte u → t ≡ u
type_byte_inj t u e = ground arith

-- A key function succeeds only on a round id of 32 bytes.
pub validate_round_id-ok : (id : Bytes) → validate_round_id id ≡ ok tt → length id ≡ 32
unfolding validate_round_id
validate_round_id-ok id h = ground arith

nullifier_key-ok :
    (t : NullifierType) (id n key : Bytes)
    → nullifier_key t id n ≡ ok key
    → (length id ≡ 32) × (key ≡ 0x01 ∷ type_byte t ∷ id ++ n)
unfolding nullifier_key
nullifier_key-ok t id n key h = ground arith

-- Two nullifiers share a store key only if they have the same type, round and bytes: a nullifier of
-- one round or type never shadows one of another.
pub nullifier_key-injective :
    (t u : NullifierType) (id jd n m : Bytes) {key : Bytes}
    → nullifier_key t id n ≡ ok key
    → nullifier_key u jd m ≡ ok key
    → (t ≡ u) × (id ≡ jd) × (n ≡ m)
nullifier_key-injective t u id jd n m {key} h k =
    let a = nullifier_key-ok t id n key h in
    let b = nullifier_key-ok u jd m key k in
    let e : ◌≡◌ {A = Bytes} (0x01 ∷ type_byte t ∷ id ++ n) (0x01 ∷ type_byte u ∷ jd ++ m) =
      sym a.1 ∙ b.1 in
    let r = append_inj id jd n m (a.0 ∙ sym b.0) (cc e) in (type_byte_inj t u (cc e), r.0, r.1)
