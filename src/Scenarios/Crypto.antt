-- ===== src/Scenarios/Crypto.antt =====
-- The theorems on proofs and on the search of logarithms, applied on the small curve.
use vote_sdk.Base.{
  ℕ, ◌+◌, ◌%◌, ◌<◌, ◌≡◌, refl, Bool, true, false, not, Option, none, some, [], ◌∷◌, Bytes, ok,
  arith, ◌==◌, ◌++◌,
}
use vote_sdk.Crypto.ElGamal.{value_point, unmarshal_public_key, decompress_pallas_point}
use vote_sdk.Crypto.Bsgs.{new_bsgs_table, solve}
use vote_sdk.Crypto.Bsgs.Solves.{Counts, solve-value_point}
use vote_sdk.Crypto.Proofs.{
  Scalars, generate_partial_decrypt_dleq, verify_partial_decrypt_dleq, generate_constant_term_proof,
  verify_constant_term_proof, constant_term_point, constant_term_challenge, pd_dleq_challenge,
}
use vote_sdk.Crypto.Proofs.Complete.{
  verify_partial_decrypt_dleq_complete, verify_constant_term_proof_complete,
}
use vote_sdk.Scenarios.SmallCurve.{small_curve, compress, compress-length, xor}

abbrev pub bit_of : Bytes → Option Bool
bit_of [] = none
bit_of (b ∷ _) = some (b == 1)

pub bit_of-compress : (b : Bool) → bit_of (compress b) ≡ some b
bit_of-compress true = refl
bit_of-compress false = refl

pub same_bit : (b : Bool) → not (xor b b) ≡ true
same_bit b = ground arith

abbrev pub bits : Scalars Bool
bits = record {
  to_bytes = compress;
  of_bytes = bit_of;
  is_zero = not;
  same = λ a b. not (xor a b);
  hash_to_scalar = λ b. true;
  bytes_length = compress-length;
  of_to_bytes = bit_of-compress;
  same_refl = same_bit;
}

abbrev pub partial_proof : Bytes
partial_proof = compress true ++ compress false

sum_of_bits : (a b : ℕ) → ((a + b) % 2 == 1) ≡ xor (a % 2 == 1) (b % 2 == 1)
sum_of_bits a b = ground arith

two_bits_apart : (a b : ℕ) → a < 2 → b < 2 → (a % 2 == 1) ≡ (b % 2 == 1) → a ≡ b
two_bits_apart a b ha hb h = ground (arith, h)

two_points-Counts : Counts small_curve 2
unfolding value_point
two_points-Counts = record {
  at_zero = refl;
  at_one = refl;
  at_sum = sum_of_bits;
  apart = two_bits_apart;
}

solve-value_point_example :
    solve small_curve (new_bsgs_table small_curve (λ n. 2) 2) (value_point small_curve 1) ≡ ok 1
solve-value_point_example =
    solve-value_point small_curve (λ n. 2) 2 1 (omega arith) (omega arith) (omega arith)
      two_points-Counts (omega arith)

proof_made : generate_partial_decrypt_dleq small_curve bits true true true ≡ ok partial_proof
unfolding generate_partial_decrypt_dleq pd_dleq_challenge
proof_made = refl

verify_partial_decrypt_dleq_complete_example :
    verify_partial_decrypt_dleq small_curve bits partial_proof true true true ≡ ok tt
verify_partial_decrypt_dleq_complete_example =
    verify_partial_decrypt_dleq_complete small_curve bits true true true partial_proof proof_made
      refl refl

constant_proof_made :
    generate_constant_term_proof small_curve bits true true [] [] [] (compress true ∷ [])
    ≡ ok partial_proof
unfolding generate_constant_term_proof constant_term_point unmarshal_public_key
    decompress_pallas_point constant_term_challenge
constant_proof_made = refl

verify_constant_term_proof_complete_example :
    verify_constant_term_proof small_curve bits partial_proof [] [] [] (compress true ∷ []) ≡ ok tt
verify_constant_term_proof_complete_example =
    verify_constant_term_proof_complete small_curve bits true true [] [] [] (compress true ∷ [])
      partial_proof constant_proof_made refl
