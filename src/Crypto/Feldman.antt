-- ===== src/Crypto/Feldman.antt =====
-- Feldman commitments to a sharing polynomial (crypto/shamir/feldman.go).
pub mod Laws
use mathlib.Core.List.{reverse}
use vote_sdk.Base.{
  ℕ, Bool, true, false, not, Option, none, some, List, [], ◌∷◌, map, Error, Result, ok, err, Done,
  ltb, ◌==◌, if◌then◌else◌, length, any, all, then_check, reject_if,
}
use vote_sdk.Crypto.{Curve}
use vote_sdk.Crypto.ElGamal.{and_then}
use vote_sdk.Crypto.Shamir.{int_to_scalar}

module _ {P F : Type 0} (c : Curve P F) where
  open c use {add, mul, equal, is_identity}

  unfoldable pub feldman_commit : P → List F → Result (List P)
  feldman_commit g coeffs =
      then_check (reject_if (is_identity g) Error.malformed)
        (then_check (reject_if (length coeffs == 0) Error.malformed) (ok (map (mul g) coeffs)))

  -- Horner's method in the group, over the commitments that are left.
  unfoldable pub horner_points : F → P → List P → P
  horner_points x acc [] = acc
  horner_points x acc (a ∷ rest) = horner_points x (add (mul acc x) a) rest

  abbrev pub start_points : F → List P → Result P
  start_points x [] = err Error.malformed
  start_points x (a ∷ rest) = ok (horner_points x a rest)

  unfoldable pub eval_commitment_polynomial : List P → ℕ → Result P
  eval_commitment_polynomial commitments index =
      then_check (reject_if (length commitments == 0) Error.malformed) (
        then_check (reject_if (index == 0) Error.malformed)
          (start_points (int_to_scalar c index) (reverse commitments)))

  unfoldable pub verify_feldman_share : P → List P → ℕ → F → Result Bool
  verify_feldman_share g commitments index share =
      then_check (reject_if (is_identity g) Error.malformed) (
        then_check (reject_if (index == 0) Error.malformed) (
          and_then (eval_commitment_polynomial commitments index)
            (λ expected. ok (equal (mul g share) expected))))

  abbrev pub add_rows : List P → List P → List P
  add_rows (p ∷ ps) (q ∷ qs) = add p q ∷ add_rows ps qs
  add_rows _ _ = []

  -- The sums of the columns, gathered row by row from the first contribution.
  unfoldable pub sum_rows : List P → List (List P) → List P
  sum_rows acc [] = acc
  sum_rows acc (row ∷ rows) = sum_rows (add_rows acc row) rows

  unfoldable pub combine_commitments : List (List P) → Result (List P)
  combine_commitments [] = err Error.malformed
  combine_commitments (first ∷ rest) = then_check (reject_if (length first == 0) Error.malformed) (
      then_check
        (reject_if (any (λ vec. not (length vec == length first)) (first ∷ rest)) Error.malformed)
        (ok (sum_rows first rest)))
