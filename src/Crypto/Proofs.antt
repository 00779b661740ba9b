-- ===== src/Crypto/Proofs.antt =====
-- Proofs about discrete logarithms: of a partial decryption (crypto/elgamal/dleq.go), and of the
-- constant term of a dealer's commitments (crypto/elgamal/dkg_pop.go). The random nonce is an argument.
pub mod Complete
use vote_sdk.Base.{
  ℕ, ◌+◌, ◌*◌, ◌≡◌, Bool, true, false, not, Option, none, some, List, [], ◌∷◌, ◌++◌, Bytes, Error,
  Result, ok, err, Done, ◌==◌, length, take, drop, then_check, reject_if, if◌then◌else◌,
}
use vote_sdk.Keys.{put_uint64_be}
use vote_sdk.Crypto.{Curve}
use vote_sdk.Crypto.ElGamal.{and_then, unmarshal_public_key, compressed_point_size}

-- Scalars as curvey gives them: their bytes, comparison, and hashing of a BLAKE2b-256 digest.
pub record Scalars (F : Type 0) : Type 0 where
  pub to_bytes : F → Bytes
  pub of_bytes : Bytes → Option F
  pub is_zero : F → Bool
  pub same : F → F → Bool
  pub hash_to_scalar : Bytes → F
  pub bytes_length : (f : F) → length (to_bytes f) ≡ 32
  pub of_to_bytes : (f : F) → of_bytes (to_bytes f) ≡ some f
  pub same_refl : (f : F) → same f f ≡ true

abbrev pub dleq_proof_size : ℕ
dleq_proof_size = 2 * compressed_point_size

abbrev pub pd_dleq_domain_tag : Bytes
pd_dleq_domain_tag =
    b's' ∷ b'v' ∷ b'o' ∷ b't' ∷ b'e' ∷ b'-' ∷ b'p' ∷ b'd' ∷ b'-' ∷ b'd' ∷ b'l' ∷ b'e' ∷ b'q' ∷ b'-'
    ∷ b'v' ∷ b'1' ∷ []

abbrev pub constant_term_proof_domain : Bytes
constant_term_proof_domain =
    b's' ∷ b'v' ∷ b'o' ∷ b't' ∷ b'e' ∷ b'-' ∷ b'd' ∷ b'k' ∷ b'g' ∷ b'-' ∷ b'c' ∷ b'o' ∷ b'n' ∷ b's'
    ∷ b't' ∷ b'a' ∷ b'n' ∷ b't' ∷ b'-' ∷ b't' ∷ b'e' ∷ b'r' ∷ b'm' ∷ b'-' ∷ b'p' ∷ b'o' ∷ b'k'
    ∷ b'-' ∷ b'v' ∷ b'1' ∷ []

abbrev or_malformed : {A : Type 0} → Option A → Result A
or_malformed none = err Error.malformed
or_malformed (some a) = ok a

-- `writeProofField`: what it writes to the hash.
unfoldable pub write_proof_field : Bytes → Bytes
write_proof_field field = put_uint64_be (length field) ++ field

unfoldable pub write_proof_fields : List Bytes → Bytes
unfolding write_proof_field
write_proof_fields [] = []
write_proof_fields (f ∷ rest) = write_proof_field f ++ write_proof_fields rest

module _ {P F : Type 0} (c : Curve P F) (sc : Scalars F) where
  open c use {add, sub, mul, equal, is_identity, to_affine_compressed, generator, f_add, f_mul}

  unfoldable pub pd_dleq_challenge : P → P → P → P → P → F
  pd_dleq_challenge vk_i c1 d_i r1 r2 = sc.hash_to_scalar (
      pd_dleq_domain_tag
      ++ to_affine_compressed generator
      ++ to_affine_compressed vk_i
      ++ to_affine_compressed c1
      ++ to_affine_compressed d_i
      ++ to_affine_compressed r1
      ++ to_affine_compressed r2)

  -- The proof, for the nonce `k`.
  unfoldable pub generate_partial_decrypt_dleq : F → F → P → Result Bytes
  generate_partial_decrypt_dleq k share c1 =
      then_check (reject_if (sc.is_zero share) Error.malformed) (
        let e =
          pd_dleq_challenge (mul generator share) c1 (mul c1 share) (mul generator k) (mul c1 k) in
        ok (sc.to_bytes e ++ sc.to_bytes (f_add (f_mul e share) k)))

  -- The equation, once the two scalars are read.
  unfoldable pub check_dleq : F → F → P → P → P → Result Done
  check_dleq e z vk_i c1 d_i =
      let r1 = sub (mul generator z) (mul vk_i e) in
      let r2 = sub (mul c1 z) (mul d_i e) in
      reject_if (not (sc.same e (pd_dleq_challenge vk_i c1 d_i r1 r2))) Error.malformed

  unfoldable pub verify_partial_decrypt_dleq : Bytes → P → P → P → Result Done
  unfolding check_dleq
  verify_partial_decrypt_dleq proof vk_i c1 d_i =
      then_check (reject_if (not (length proof == dleq_proof_size)) Error.malformed) (
        then_check (reject_if (is_identity vk_i) Error.malformed) (
          then_check (reject_if (is_identity c1) Error.malformed) (
            and_then (or_malformed (sc.of_bytes (take compressed_point_size proof))) (λ e.
              and_then (or_malformed (sc.of_bytes (drop compressed_point_size proof)))
                (λ z. check_dleq e z vk_i c1 d_i)))))

  unfoldable pub constant_term_point : List Bytes → Result P
  unfolding unmarshal_public_key
  constant_term_point [] = err Error.malformed
  constant_term_point (first ∷ rest) = unmarshal_public_key c first

  unfoldable pub constant_term_challenge : Bytes → Bytes → Bytes → List Bytes → P → F
  unfolding write_proof_field write_proof_fields
  constant_term_challenge chain_id round_id dealer commitments r = sc.hash_to_scalar (
      write_proof_field constant_term_proof_domain
      ++ write_proof_field chain_id
      ++ write_proof_field round_id
      ++ write_proof_field dealer
      ++ write_proof_field (to_affine_compressed generator)
      ++ put_uint64_be (length commitments)
      ++ write_proof_fields commitments
      ++ write_proof_field (to_affine_compressed r))

  -- The proof, for a nonce that is not zero.
  unfoldable pub generate_constant_term_proof :
      F → F → Bytes → Bytes → Bytes → List Bytes → Result Bytes
  unfolding constant_term_point
  generate_constant_term_proof nonce secret chain_id round_id dealer commitments =
      then_check (reject_if (sc.is_zero secret) Error.malformed) (
        and_then (constant_term_point commitments) (λ constant.
          then_check (reject_if (not (equal (mul generator secret) constant)) Error.malformed) (
            let r = mul generator nonce in
            let challenge = constant_term_challenge chain_id round_id dealer commitments r in
            ok (to_affine_compressed r ++ sc.to_bytes (f_add nonce (f_mul challenge secret))))))

  unfoldable pub verify_constant_term_proof :
      Bytes → Bytes → Bytes → Bytes → List Bytes → Result Done
  unfolding constant_term_point unmarshal_public_key
  verify_constant_term_proof proof chain_id round_id dealer commitments =
      then_check (reject_if (not (length proof == dleq_proof_size)) Error.malformed) (
        and_then (constant_term_point commitments) (λ constant.
          and_then (unmarshal_public_key c (take compressed_point_size proof)) (λ r.
            and_then (or_malformed (sc.of_bytes (drop compressed_point_size proof))) (λ z.
              let challenge = constant_term_challenge chain_id round_id dealer commitments r in
              reject_if (not (equal (mul generator z) (add r (mul constant challenge))))
                Error.malformed))))
