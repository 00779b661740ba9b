-- ===== src/Keys/Range.antt =====
-- Prefix scans and the order of keys (x/vote/types/keys.go, `PrefixEndBytes`).
use mathlib.Core.List.{reverse, reverse-append}
use mathlib.Core.Option
use vote_sdk.Base.{
  ℕ, ◌+◌, ◌%◌, ◌<◌, ◌≡◌, refl, ap, ◌∙◌, Bool, true, false, not, ◌&&◌, ◌||◌, Option, none, some, [],
  ◌∷◌, ◌++◌, arith, ltb, ◌==◌, if◌then◌else◌, All, Bytes,
}
use vote_sdk.Keys.{bump_from_end, prefix_end_bytes}

-- The order of the store: byte by byte, a prefix first.
abbrev pub lex_lt : Bytes → Bytes → Bool
lex_lt [] [] = false
lex_lt [] (y ∷ ys) = true
lex_lt (x ∷ xs) [] = false
lex_lt (x ∷ xs) (y ∷ ys) = ltb x y || (x == y && lex_lt xs ys)

abbrev pub below_end : Bytes → Option Bytes → Bool
below_end k none = true
below_end k (some e) = lex_lt k e

not-lex_lt-nil : (k : Bytes) → lex_lt k [] ≡ false
not-lex_lt-nil [] = refl
not-lex_lt-nil (x ∷ xs) = refl

-- A key that an iterator over [start, end) visits.
abbrev pub in_range : Bytes → Option Bytes → Bytes → Bool
in_range start end k = not (lex_lt k start) && below_end k end

abbrev pub has_prefix : Bytes → Bytes → Bool
has_prefix [] k = true
has_prefix (x ∷ xs) [] = false
has_prefix (x ∷ xs) (y ∷ ys) = x == y && has_prefix xs ys

abbrev pub IsBytes : Bytes → Type 0
IsBytes b = All (λ x. x < 256) b

-- The end of a prefix, read from the front: given the end of the bytes behind the first.
increment_step : ℕ → Option Bytes → Option Bytes
increment_step x (some ys) = some (x ∷ ys)
increment_step x none = if (x + 1) % 256 == 0 then none else some (((x + 1) % 256) ∷ [])

increment : Bytes → Option Bytes
increment [] = none
increment (x ∷ xs) = increment_step x (increment xs)

append_last : ℕ → Option Bytes → Option Bytes
append_last x (some t) = some (t ++ x ∷ [])
append_last x none = if (x + 1) % 256 == 0 then none else some (((x + 1) % 256) ∷ [])

bump-append : (r : Bytes) (x : ℕ) → bump_from_end (r ++ x ∷ []) ≡ append_last x (bump_from_end r)
unfolding bump_from_end append_last
bump-append [] x = refl
bump-append (b ∷ r) x = ground (arith, bump-append r x)

reverse_last :
    (x : ℕ) (r : Option Bytes)
    → Option.map reverse (append_last x r) ≡ increment_step x (Option.map reverse r)
unfolding append_last increment_step
reverse_last x none = ground arith
reverse_last x (some t) = ap some (reverse-append t (x ∷ []))

prefix_end-eq-increment : (p : Bytes) → prefix_end_bytes p ≡ increment p
unfolding prefix_end_bytes increment
prefix_end-eq-increment [] = refl
prefix_end-eq-increment (x ∷ xs) =
    ap (λ l. Option.map reverse (bump_from_end l)) (reverse-append (x ∷ []) xs)
    ∙ ap (Option.map reverse) (bump-append (reverse xs) x)
    ∙ reverse_last x (bump_from_end (reverse xs))
    ∙ ap (increment_step x) (prefix_end-eq-increment xs)

in_range_step :
    (x y : ℕ) (xs ys : Bytes) (r : Option Bytes)
    → x < 256
    → y < 256
    → in_range xs r ys ≡ has_prefix xs ys
    → in_range (x ∷ xs) (increment_step x r) (y ∷ ys) ≡ has_prefix (x ∷ xs) (y ∷ ys)
unfolding increment_step
in_range_step x y xs ys none hx hy h = ground (arith, not-lex_lt-nil ys)
in_range_step x y xs ys (some e) hx hy h = ground arith

increment-range :
    (p k : Bytes) → IsBytes p → IsBytes k → in_range p (increment p) k ≡ has_prefix p k
unfolding increment
increment-range [] [] hp hk = refl
increment-range [] (y ∷ ys) hp hk = refl
increment-range (x ∷ xs) [] hp hk = refl
increment-range (x ∷ xs) (y ∷ ys) hp hk =
    in_range_step x y xs ys (increment xs) hp.0 hk.0 (increment-range xs ys hp.1 hk.1)

-- A scan from a prefix to its `PrefixEndBytes`, over byte strings, visits the keys that begin with
-- the prefix and no others, also where trailing 0xFF bytes carry and where no end exists.
pub prefix_end_bytes-range :
    (prefix key : Bytes)
    → IsBytes prefix
    → IsBytes key
    → in_range prefix (prefix_end_bytes prefix) key ≡ has_prefix prefix key
prefix_end_bytes-range p k hp hk = rw prefix_end-eq-increment (increment-range p k hp hk)
