-- ===== src/Crypto/Proofs/Complete.antt =====
-- Honest proofs are accepted (crypto/elgamal/dleq.go, crypto/elgamal/dkg_pop.go).
use vote_sdk.Base.{
  ◌≡◌, refl, sym, ap, ◌∙◌, subst, inl, inr, true, false, not, List, ◌++◌, Bytes, Result, ok, err,
  Error, then_check, reject_if, arith, length, length-append, Bool-cases,
}
use vote_sdk.Crypto.{Curve}
use vote_sdk.Crypto.ElGamal.{unmarshal_public_key, and_then}
use vote_sdk.Crypto.ElGamal.Laws.{take_append, drop_append, decompress-compress}
use vote_sdk.Crypto.Proofs.{
  Scalars, check_dleq, generate_partial_decrypt_dleq, verify_partial_decrypt_dleq,
  pd_dleq_challenge, constant_term_point, constant_term_challenge, generate_constant_term_proof,
  verify_constant_term_proof,
}

ok_inj : {A : Type 0} {a b : A} → ◌≡◌ {A = Result A} (ok a) (ok b) → a ≡ b
ok_inj e = cc e

module _ {P F : Type 0} (c : Curve P F) (sc : Scalars F) where
  open c use {add, sub, mul, equal, is_identity, to_affine_compressed, generator, f_add, f_mul}

  -- (e·x + k)·p - e·(x·p) = k·p
  cancel : (p : P) (e x k : F) → sub (mul p (f_add (f_mul e x) k)) (mul (mul p x) e) ≡ mul p k
  cancel p e x k =
      ap (λ q. sub q (mul (mul p x) e))
        (c.mul_f_add p (f_mul e x) k ∙ c.add_comm (mul p (f_mul e x)) (mul p k))
      ∙ ap (λ q. sub (add (mul p k) (mul p (f_mul e x))) q)
          (c.mul_mul p x e ∙ ap (mul p) (c.f_mul_comm x e))
      ∙ c.add_sub (mul p k) (mul p (f_mul e x))

  check_dleq_complete :
      (k share : F) (c1 : P)
      → (e : F)
      → e
        ≡ pd_dleq_challenge c sc
            (mul generator share)
            c1
            (mul c1 share)
            (mul generator k)
            (mul c1 k)
      → check_dleq c sc e (f_add (f_mul e share) k) (mul generator share) c1 (mul c1 share) ≡ ok tt
  unfolding check_dleq
  check_dleq_complete k share c1 e h =
      rw (cancel generator e share k, cancel c1 e share k, ← h, sc.same_refl e) refl

  -- The proof that a validator generates for its share is accepted, for every nonce, where neither
  -- the verification key nor the first component of the ciphertext is the identity.
  pub verify_partial_decrypt_dleq_complete :
      (k share : F) (c1 : P) (proof : Bytes)
      → generate_partial_decrypt_dleq c sc k share c1 ≡ ok proof
      → is_identity (mul generator share) ≡ false
      → is_identity c1 ≡ false
      → verify_partial_decrypt_dleq c sc proof (mul generator share) c1 (mul c1 share) ≡ ok tt
  unfolding generate_partial_decrypt_dleq verify_partial_decrypt_dleq
  verify_partial_decrypt_dleq_complete k share c1 proof h nv nc =
      elim (Bool-cases (sc.is_zero share)) [
        | inl z ↦ absurd (let w = rw z at h in cc w)
        | inr z ↦
            let w = rw z at h in
            let e =
              pd_dleq_challenge c sc (mul generator share) c1 (mul c1 share) (mul generator k)
                (mul c1 k) in
            let zs = f_add (f_mul e share) k in
            let q : sc.to_bytes e ++ sc.to_bytes zs ≡ proof = ok_inj w in
            let n : length (sc.to_bytes e ++ sc.to_bytes zs) ≡ 64 = omega (
              arith,
              length-append (sc.to_bytes e) (sc.to_bytes zs),
              sc.bytes_length e,
              sc.bytes_length zs,
            ) in
            subst
              (λ x.
                verify_partial_decrypt_dleq c sc x (mul generator share) c1 (mul c1 share) ≡ ok tt)
              q
              (rw
                (
                  n,
                  nv,
                  nc,
                  take_append 32 (sc.to_bytes e) (sc.to_bytes zs) (sc.bytes_length e),
                  drop_append 32 (sc.to_bytes e) (sc.to_bytes zs) (sc.bytes_length e),
                  sc.of_to_bytes e,
                  sc.of_to_bytes zs,
                )
                (check_dleq_complete k share c1 e refl))
      ]

  -- z = k + x·s proves G·z = G·k + (G·s)·x.
  response :
      (nonce secret challenge : F)
      → mul generator (f_add nonce (f_mul challenge secret))
        ≡ add (mul generator nonce) (mul (mul generator secret) challenge)
  response nonce secret challenge =
      c.mul_f_add generator nonce (f_mul challenge secret)
      ∙ ap (add (mul generator nonce)) (
          ap (mul generator) (c.f_mul_comm challenge secret)
          ∙ sym (c.mul_mul generator secret challenge))

  read_nonce :
      (p : P) → is_identity p ≡ false → unmarshal_public_key c (to_affine_compressed p) ≡ ok p
  unfolding unmarshal_public_key
  read_nonce p h = rw (c.compressed_length p, decompress-compress c p, h) refl

  -- The equation of the verifier holds for an honest response.
  equation_holds :
      (nonce secret challenge : F) (constant : P)
      → equal (mul generator secret) constant ≡ true
      → equal
          (mul generator (f_add nonce (f_mul challenge secret)))
          (add (mul generator nonce) (mul constant challenge))
        ≡ true
  equation_holds nonce secret challenge constant h =
      let e = (c.equal_iff (mul generator secret) constant).0 h in
      (c.equal_iff _ _).1
        (response nonce secret challenge ∙ ap (λ q. add (mul generator nonce) (mul q challenge)) e)

  -- The proof that a dealer generates for the constant term of its commitments is accepted for the
  -- same chain, round, dealer and commitments, where the nonce's point is not the identity.
  pub verify_constant_term_proof_complete :
      (nonce secret : F) (chain_id round_id dealer : Bytes) (commitments : List Bytes)
      (proof : Bytes)
      → generate_constant_term_proof c sc nonce secret chain_id round_id dealer commitments
        ≡ ok proof
      → is_identity (mul generator nonce) ≡ false
      → verify_constant_term_proof c sc proof chain_id round_id dealer commitments ≡ ok tt
  unfolding generate_constant_term_proof verify_constant_term_proof
  verify_constant_term_proof_complete nonce secret chain_id round_id dealer commitments proof h nr =
      elim (Bool-cases (sc.is_zero secret)) [
        | inl z ↦ absurd (let w = rw z at h in cc w)
        | inr z ↦ let w = rw z at h in with_point (constant_term_point c sc commitments) refl w
      ]
    where
      with_point :
          (r : Result P)
          → constant_term_point c sc commitments ≡ r
          → (and_then r (λ constant.
              then_check (reject_if (not (equal (mul generator secret) constant)) Error.malformed) (
                let r = mul generator nonce in
                let challenge =
                  constant_term_challenge c sc chain_id round_id dealer commitments r in
                ok (to_affine_compressed r ++ sc.to_bytes (f_add nonce (f_mul challenge secret))))))
            ≡ ok proof
          → verify_constant_term_proof c sc proof chain_id round_id dealer commitments ≡ ok tt
      with_point (err x) e w = cc w
      with_point (ok constant) e w = elim (Bool-cases (equal (mul generator secret) constant)) [
        | inr q ↦ absurd (let y = rw q at w in cc y)
        | inl q ↦
            let y = rw q at w in
            let r = mul generator nonce in
            let challenge = constant_term_challenge c sc chain_id round_id dealer commitments r in
            let zs = f_add nonce (f_mul challenge secret) in
            let p : to_affine_compressed r ++ sc.to_bytes zs ≡ proof = ok_inj y in
            let n : length (to_affine_compressed r ++ sc.to_bytes zs) ≡ 64 = omega (
              arith,
              length-append (to_affine_compressed r) (sc.to_bytes zs),
              c.compressed_length r,
              sc.bytes_length zs,
            ) in
            subst
              (λ x. verify_constant_term_proof c sc x chain_id round_id dealer commitments ≡ ok tt)
              p
              (rw
                (
                  n,
                  e,
                  take_append 32 (to_affine_compressed r) (sc.to_bytes zs) (c.compressed_length r),
                  drop_append 32 (to_affine_compressed r) (sc.to_bytes zs) (c.compressed_length r),
                  read_nonce r nr,
                  sc.of_to_bytes zs,
                  equation_holds nonce secret challenge constant q,
                )
                refl)
      ]
