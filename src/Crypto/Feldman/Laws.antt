-- ===== src/Crypto/Feldman/Laws.antt =====
-- Commitments and the shares they commit to (crypto/shamir/feldman.go).
use mathlib.Core.List.{reverse, reverse-append, map-append}
use vote_sdk.Base.{
  ℕ, suc, ◌≡◌, refl, sym, ap, ◌∙◌, false, Option, none, some, List, [], ◌∷◌, ◌++◌, map, Error,
  Result, ok, err, length, suc_eq_zero,
}
use vote_sdk.Crypto.{Curve}
use vote_sdk.Crypto.Shamir.{int_to_scalar}
use vote_sdk.Crypto.ElGamal.{and_then}
use vote_sdk.Crypto.Shamir.{horner, start_horner, eval_polynomial}
use vote_sdk.Crypto.Feldman.{
  feldman_commit, horner_points, start_points, eval_commitment_polynomial, verify_feldman_share,
}

reverse-cons : {A : Type 0} (x : A) (xs : List A) → reverse (x ∷ xs) ≡ reverse xs ++ x ∷ []
reverse-cons x xs = reverse-append (x ∷ []) xs

map-reverse : {A B : Type 0} (f : A → B) (xs : List A) → map f (reverse xs) ≡ reverse (map f xs)
map-reverse f [] = refl
map-reverse f (x ∷ xs) =
    ap (map f) (reverse-cons x xs)
    ∙ map-append f (reverse xs) (x ∷ [])
    ∙ ap (λ r. r ++ f x ∷ []) (map-reverse f xs)
    ∙ sym (reverse-cons (f x) (map f xs))

module _ {P F : Type 0} (c : Curve P F) where
  open c use {add, mul, equal, is_identity, f_add, f_mul}

  -- One step of Horner's method in the exponent.
  horner_step :
      (g : P) (x acc a : F) → add (mul (mul g acc) x) (mul g a) ≡ mul g (f_add (f_mul acc x) a)
  horner_step g x acc a =
      ap (λ t. add t (mul g a)) (c.mul_mul g acc x) ∙ sym (c.mul_f_add g (f_mul acc x) a)

  horner_points-map :
      (g : P) (x acc : F) (ws : List F)
      → horner_points c x (mul g acc) (map (mul g) ws) ≡ mul g (horner c x acc ws)
  unfolding horner_points horner
  horner_points-map g x acc [] = refl
  horner_points-map g x acc (a ∷ ws) =
      ap (λ t. horner_points c x t (map (mul g) ws)) (horner_step g x acc a)
      ∙ horner_points-map g x (f_add (f_mul acc x) a) ws

  -- The result of Horner's method, carried to the group.
  abbrev in_group : P → Option F → Result P
  in_group g none = err Error.malformed
  in_group g (some v) = ok (mul g v)

  start_points-map :
      (g : P) (x : F) (ws : List F)
      → start_points c x (map (mul g) ws) ≡ in_group g (start_horner c x ws)
  start_points-map g x [] = refl
  start_points-map g x (a ∷ ws) = ap ok (horner_points-map g x a ws)

  eval-map :
      (g : P) (coeffs : List F) (index : ℕ)
      → eval_commitment_polynomial c (map (mul g) coeffs) (suc index)
        ≡ in_group g (eval_polynomial c coeffs (suc index))
  unfolding eval_commitment_polynomial eval_polynomial
  eval-map g [] index = refl
  eval-map g (a ∷ coeffs) index =
      rw (suc_eq_zero (length (map (mul g) coeffs)), suc_eq_zero index)
        (ap (start_points c (int_to_scalar c (suc index))) (sym (map-reverse (mul g) (a ∷ coeffs)))
          ∙ start_points-map g (int_to_scalar c (suc index)) (reverse (a ∷ coeffs)))

  -- For a generator that is not the identity and a non-empty polynomial with value v at a positive
  -- index, committing to the coefficients and verifying a share at that index returns, and accepts
  -- exactly the shares s with s·G = v·G.
  pub verify-commit :
      (g : P) (coeffs : List F) (index : ℕ) (share v : F)
      → is_identity g ≡ false
      → eval_polynomial c coeffs (suc index) ≡ some v
      → and_then
          (feldman_commit c g coeffs)
          (λ commitments. verify_feldman_share c g commitments (suc index) share)
        ≡ ok (equal (mul g share) (mul g v))
  unfolding feldman_commit verify_feldman_share eval_polynomial
  verify-commit g [] index share v hg hv = cc
  verify-commit g (a ∷ coeffs) index share v hg hv =
      rw (hg, suc_eq_zero (length coeffs), suc_eq_zero index, eval-map g (a ∷ coeffs) index, hv)
        refl
