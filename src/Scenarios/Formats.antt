-- ===== src/Scenarios/Formats.antt =====
-- The theorems on keys, thresholds and ciphertexts, applied to concrete ones.
use vote_sdk.Base.{
  ℕ, ◌+◌, ◌*◌, ◌≤◌, ◌<◌, ◌≡◌, refl, true, false, some, [], ◌∷◌, ◌++◌, Bytes, ok, arith,
}
use vote_sdk.Kv.Table.{table}
use vote_sdk.Keys.{NullifierType, nullifier_key, validate_round_id, prefix_end_bytes}
use vote_sdk.Keys.Range.{in_range, has_prefix, prefix_end_bytes-range}
use vote_sdk.Keys.Injective.{nullifier_key-injective}
use vote_sdk.Crypto.ElGamal.{
  value_point, encrypt_core, homomorphic_add, decrypt_to_point, marshal_ciphertext,
  unmarshal_ciphertext, and_then,
}
use vote_sdk.Crypto.ElGamal.Laws.{decrypt-encrypt, homomorphic_add-encrypt, unmarshal-marshal}
use vote_sdk.Crypto.Shamir.{eval_polynomial}
use vote_sdk.Crypto.Feldman.{feldman_commit, verify_feldman_share}
use vote_sdk.Crypto.Feldman.Laws.{verify-commit}
use vote_sdk.Keeper.Ceremony.{threshold_for_n, required_ceremony_quorum_for_n}
use vote_sdk.Keeper.Ceremony.Quorum.{threshold-le-quorum}
use vote_sdk.Scenarios.SmallCurve.{small_curve}
use vote_sdk.Scenarios.Data.{round_id}

-- Prefixes with carries.
prefix_end_bytes-range_example :
    in_range (4 ∷ 255 ∷ []) (prefix_end_bytes (4 ∷ 255 ∷ [])) (4 ∷ 255 ∷ 9 ∷ [])
    ≡ has_prefix (4 ∷ 255 ∷ []) (4 ∷ 255 ∷ 9 ∷ [])
prefix_end_bytes-range_example =
    prefix_end_bytes-range (4 ∷ 255 ∷ []) (4 ∷ 255 ∷ 9 ∷ []) (omega arith, (omega arith, tt))
      (omega arith, (omega arith, (omega arith, tt)))

share_key : nullifier_key NullifierType.share round_id (9 ∷ []) ≡ ok (1 ∷ 2 ∷ round_id ++ 9 ∷ [])
unfolding nullifier_key validate_round_id
share_key = refl

nullifier_key-injective_example :
    (NullifierType.share ≡ NullifierType.share)
    × (round_id ≡ round_id)
    × (◌≡◌ {A = Bytes} (9 ∷ []) (9 ∷ []))
nullifier_key-injective_example =
    nullifier_key-injective NullifierType.share NullifierType.share round_id round_id (9 ∷ [])
      (9 ∷ []) share_key share_key

threshold-le-quorum_example :
    (t : ℕ) × (q : ℕ) × (threshold_for_n 7 ≡ ok t)
    × (required_ceremony_quorum_for_n 7 ≡ ok q)
    × (2 * 7 ≤ 3 * t)
    × (3 * t < 2 * 7 + 3)
    × (t ≤ q)
    × (q ≤ 7)
    × (4 * 7 ≤ 5 * q)
    × (5 * q < 4 * 7 + 5)
threshold-le-quorum_example = threshold-le-quorum 7 (omega arith)

decrypt-encrypt_example :
    decrypt_to_point small_curve true (encrypt_core small_curve true 5 true)
    ≡ value_point small_curve 5
decrypt-encrypt_example = decrypt-encrypt small_curve true true 5

homomorphic_add-encrypt_example :
    homomorphic_add small_curve
      (encrypt_core small_curve true 5 true)
      (encrypt_core small_curve true 4 false)
    ≡ encrypt_core small_curve true 9 true
homomorphic_add-encrypt_example = homomorphic_add-encrypt small_curve true true false 5 4

unmarshal-marshal_example :
    and_then
      (marshal_ciphertext small_curve (record { c1 = true; c2 = false }))
      (unmarshal_ciphertext small_curve)
    ≡ ok (record { c1 = true; c2 = false })
unmarshal-marshal_example = unmarshal-marshal small_curve (record { c1 = true; c2 = false })

polynomial_at_three : eval_polynomial small_curve (true ∷ true ∷ []) 3 ≡ some false
unfolding eval_polynomial
polynomial_at_three = refl

verify-commit_example :
    and_then
      (feldman_commit small_curve true (true ∷ true ∷ []))
      (λ commitments. verify_feldman_share small_curve true commitments 3 false)
    ≡ ok true
verify-commit_example =
    verify-commit small_curve true (true ∷ true ∷ []) 2 false false refl polynomial_at_three
