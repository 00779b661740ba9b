-- ===== src/Crypto/Shamir.antt =====
-- Shamir secret sharing over the scalars, and the combination of partial decryptions
-- (crypto/shamir/shamir.go, crypto/shamir/partial_decrypt.go). Indices are Go ints from 1; random
-- coefficients are an argument.
use mathlib.Core.List.{reverse}
use vote_sdk.Base.{
  ℕ, zero, suc, ◌+◌, Option, none, some, List, [], ◌∷◌, map, Error, Result, ok, err, Done, ltb,
  ◌==◌, if◌then◌else◌, length, any, then_check, reject_if,
}
use vote_sdk.Crypto.{Curve}
use vote_sdk.Crypto.ElGamal.{and_then}

pub record Share (F : Type 0) : Type 0 where
  pub index : ℕ
  pub value : F

pub record PartialDecryption (P : Type 0) : Type 0 where
  pub index : ℕ
  pub di : P

module _ {P F : Type 0} (c : Curve P F) where
  open c use {add, mul, identity, f_add, f_sub, f_mul, invert, set_big_int, one}

  abbrev pub int_to_scalar : ℕ → F
  int_to_scalar v = set_big_int v

  -- The loop of Horner's method over the coefficients that are left, from the highest down.
  unfoldable pub horner : F → F → List F → F
  horner x acc [] = acc
  horner x acc (a ∷ rest) = horner x (f_add (f_mul acc x) a) rest

  abbrev pub start_horner : F → List F → Option F
  start_horner x [] = none
  start_horner x (a ∷ rest) = some (horner x a rest)

  -- No coefficient at all is an index out of range: `none`.
  unfoldable pub eval_polynomial : List F → ℕ → Option F
  unfolding horner
  eval_polynomial coeffs x = start_horner (int_to_scalar x) (reverse coeffs)

  -- The shares of the indices from `i + 1` on.
  shares_from : List F → ℕ → ℕ → Result (List (Share F))
  unfolding eval_polynomial
  shares_from coeffs i zero = ok []
  shares_from coeffs i (suc n) = elim (eval_polynomial coeffs (i + 1)) [
    | none ↦ err Error.panicked
    | some v ↦
        and_then (shares_from coeffs (i + 1) n)
          (λ rest. ok (record { index = i + 1; value = v } ∷ rest))
  ]

  -- `Split` with its t - 1 random coefficients given.
  unfoldable pub split : F → List F → ℕ → ℕ → Result (List (Share F) × List F)
  unfolding shares_from
  split secret randoms t n = then_check (reject_if (ltb t 1) Error.malformed) (
      then_check (reject_if (ltb n t) Error.malformed)
        (and_then (shares_from (secret ∷ randoms) 0 n) (λ shares. ok (shares, secret ∷ randoms))))

  -- Each index is positive and new.
  unfoldable pub check_indices : List ℕ → List ℕ → Result Done
  check_indices seen [] = ok tt
  check_indices seen (i ∷ rest) = then_check (reject_if (i == 0) Error.malformed) (
      then_check (reject_if (any (λ j. j == i) seen) Error.malformed)
        (check_indices (i ∷ seen) rest))

  -- The numerator and denominator of the basis scalar of position j, over the positions from m on.
  basis : ℕ → ℕ → ℕ → ℕ → List ℕ → F × F → F × F
  basis target j xj m [] acc = acc
  basis target j xj m (xm ∷ rest) (num, den) = basis target j xj (suc m) rest (
      if m == j then (num, den) else (
        f_mul num (f_sub (int_to_scalar target) (int_to_scalar xm)),
        f_mul den (f_sub (int_to_scalar xj) (int_to_scalar xm)),
      ))

  lambdas_from : ℕ → List ℕ → ℕ → List ℕ → Result (List F)
  unfolding basis
  lambdas_from target indices j [] = ok []
  lambdas_from target indices j (xj ∷ rest) =
      let (num, den) = basis target j xj 0 indices (one, one) in
      elim (invert den) [
        | none ↦ err Error.malformed
        | some den_inv ↦
            and_then (lambdas_from target indices (suc j) rest) (λ ls. ok (f_mul num den_inv ∷ ls))
      ]

  unfoldable pub lagrange_coefficients : List ℕ → ℕ → Result (List F)
  unfolding check_indices lambdas_from
  lagrange_coefficients indices target =
      then_check (reject_if (length indices == 0) Error.malformed)
        (then_check (check_indices [] indices) (lambdas_from target indices 0 indices))

  -- The sum of the weighted partial decryptions, from the identity.
  unfoldable pub weighted_sum : P → List (PartialDecryption P) → List F → P
  weighted_sum acc (p ∷ ps) (l ∷ ls) = weighted_sum (add acc (mul p.di l)) ps ls
  weighted_sum acc _ _ = acc

  unfoldable pub combine_partials : List (PartialDecryption P) → ℕ → Result P
  unfolding lagrange_coefficients weighted_sum
  combine_partials partials t = then_check (reject_if (ltb (length partials) t) Error.malformed) (
      and_then (lagrange_coefficients (map (λ p. p.index) partials) 0)
        (λ lambdas. ok (weighted_sum identity partials lambdas)))

  unfoldable pub partial_decrypt : F → P → P
  partial_decrypt share c1 = mul c1 share
