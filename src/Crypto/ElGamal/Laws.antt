-- ===== src/Crypto/ElGamal/Laws.antt =====
-- Encryption, decryption, addition and the byte form (crypto/elgamal).
use vote_sdk.Base.{
  ℕ, ◌+◌, ◌≡◌, refl, sym, ap, ◌∙◌, ◌++◌, Bytes, ok, inl, inr, arith, length, length-append, take,
  drop, take_append_left, drop_append_left, Bool-cases,
}
use vote_sdk.Crypto.{Curve}
use vote_sdk.Crypto.ElGamal.{
  Ciphertext, value_point, encrypt_core, homomorphic_add, decrypt_to_point, decompress_pallas_point,
  marshal_ciphertext, unmarshal_ciphertext, and_then,
}

pub take_append : (n : ℕ) (xs ys : Bytes) → length xs ≡ n → take n (xs ++ ys) ≡ xs
take_append n xs ys e = rw (← e) (take_append_left xs ys)

pub drop_append : (n : ℕ) (xs ys : Bytes) → length xs ≡ n → drop n (xs ++ ys) ≡ ys
drop_append n xs ys e = rw (← e) (drop_append_left xs ys)

module _ {P F : Type 0} (c : Curve P F) where
  open c use {add, sub, mul, identity, is_identity, to_affine_compressed, generator, f_mul}

  -- A ciphertext of v under the key of sk decrypts under sk to the point of v.
  pub decrypt-encrypt :
      (sk r : F) (v : ℕ)
      → decrypt_to_point c sk (encrypt_core c (mul generator sk) v r) ≡ value_point c v
  unfolding decrypt_to_point encrypt_core
  decrypt-encrypt sk r v =
      ap (sub (add (value_point c v) (mul (mul generator sk) r))) (
        c.mul_mul generator r sk
        ∙ ap (mul generator) (c.f_mul_comm r sk)
        ∙ sym (c.mul_mul generator sk r))
      ∙ c.add_sub (value_point c v) (mul (mul generator sk) r)

  -- Four points regroup.
  add_four : (p q r s : P) → add (add p q) (add r s) ≡ add (add p r) (add q s)
  add_four p q r s =
      c.add_assoc p q (add r s)
      ∙ ap (add p)
          (sym (c.add_assoc q r s) ∙ ap (λ t. add t s) (c.add_comm q r) ∙ c.add_assoc r q s)
      ∙ sym (c.add_assoc p r (add q s))

  value_point-add : (v w : ℕ) → value_point c (v + w) ≡ add (value_point c v) (value_point c w)
  unfolding value_point
  value_point-add v w =
      ap (mul generator) (c.set_big_int_add v w)
      ∙ c.mul_f_add generator (c.set_big_int v) (c.set_big_int w)

  -- The sum of two ciphertexts under one key is the encryption of the sum of the values, with the sum
  -- of the randomness.
  pub homomorphic_add-encrypt :
      (pk : P) (r s : F) (v w : ℕ)
      → homomorphic_add c (encrypt_core c pk v r) (encrypt_core c pk w s)
        ≡ encrypt_core c pk (v + w) (c.f_add r s)
  unfolding homomorphic_add encrypt_core
  homomorphic_add-encrypt pk r s v w =
      rw
        (
          c.mul_f_add generator r s,
          c.mul_f_add pk r s,
          value_point-add v w,
          add_four (value_point c v) (mul pk r) (value_point c w) (mul pk s),
        )
        refl

  pub decompress-compress : (p : P) → decompress_pallas_point c (to_affine_compressed p) ≡ ok p
  unfolding decompress_pallas_point
  decompress-compress p = elim (Bool-cases (is_identity p)) [
    | inl e ↦ rw (c.compressed_zero p, e) (ap ok (sym ((c.is_identity_iff p).0 e)))
    | inr e ↦ rw (c.compressed_zero p, e, c.decompress_compress p e) refl
  ]

  -- Every ciphertext, the identity points included, is read back from its 64 bytes.
  pub unmarshal-marshal :
      (ct : Ciphertext P) → and_then (marshal_ciphertext c ct) (unmarshal_ciphertext c) ≡ ok ct
  unfolding marshal_ciphertext unmarshal_ciphertext
  unmarshal-marshal ct =
      let a = to_affine_compressed ct.c1 in
      let b = to_affine_compressed ct.c2 in
      let la : length a ≡ 32 = c.compressed_length ct.c1 in
      let lb : length b ≡ 32 = c.compressed_length ct.c2 in
      let l : length (a ++ b) ≡ 64 = omega (arith, length-append a b) in
      rw
        (
          la,
          lb,
          l,
          take_append 32 a b la,
          drop_append 32 a b la,
          decompress-compress ct.c1,
          decompress-compress ct.c2,
        )
        refl
