-- ===== src/Scenarios/Decrypt.antt =====
-- The theorem on submitted partial decryptions, applied to a validator of a tallying round.
use vote_sdk.Keys.Range.{IsBytes}
use vote_sdk.Base.{
  arith, inl, In, true, Option, some, [], ◌∷◌, ◌++◌, Bytes, bytes_eq, ok, ◌≡◌, refl, ◌>>=◌,
  for_each, raise_if,
}
use vote_sdk.Types.{Value, VoteRound, SessionStatus, PartialDecryptionEntry}
use vote_sdk.Kv.{kv_get, kv_set, kv_has, kv_iterator}
use vote_sdk.Kv.Table.{Table, table, lookup, insert, scan, visible}
use vote_sdk.Keys.{
  validate_round_id, tally_key, vote_round_key, append_uint32_be, put_uint32_be, get_uint32_be,
  prefix_end_bytes, tally_prefix_for_proposal, partial_decryption_prefix_for_validator,
  partial_decryption_key,
}
use vote_sdk.Crypto.ElGamal.{
  unmarshal_ciphertext, unmarshal_point, unmarshal_public_key, decompress_pallas_point,
}
use vote_sdk.Crypto.Feldman.{eval_commitment_polynomial, horner_points}
use vote_sdk.Crypto.Proofs.{verify_partial_decrypt_dleq, pd_dleq_challenge}
use vote_sdk.Keeper.Rounds.{get_vote_round}
use vote_sdk.Keeper.Voting.{validate_entry_bounds, validate_vote_choice}
use vote_sdk.Keeper.Tally.{
  get_tally, collect_non_empty_accumulators, collect_from, get_proposal_tally,
  validate_partial_decryption_completeness,
}
use vote_sdk.Keeper.Ceremony.{validate_proposer_is_creator, find_validator_in_round_ceremony}
use vote_sdk.Server.Tally.{set_partial_decryptions, has_partial_decryptions_from_validator}
use vote_sdk.Server.Decrypt.{
  MsgSubmitPartialDecryption, validate_entry, validate_entries,
  validate_and_decode_partial_decryption_entries, deserialize_feldman_commitments,
  deserialize_points, verify_entry_proof, submit_partial_decryption,
}
use vote_sdk.Server.Decrypt.Submitted.{
  Accepted, Written, submit_partial_decryption-Accepted, submit_partial_decryption-covers,
}
use vote_sdk.Scenarios.SmallCurve.{small_curve, compress}
use vote_sdk.Scenarios.Data.{proposal, round_id, round, context}
use vote_sdk.Scenarios.Crypto.{bits, partial_proof}

abbrev tallying_round : VoteRound
tallying_round = record round {
  status = SessionStatus.tallying;
  threshold = 1;
  feldman_commitments = compress true ∷ [];
}

abbrev accumulator_bytes : Bytes
accumulator_bytes = 0x05 ∷ round_id ++ 0 ∷ 0 ∷ 0 ∷ 1 ∷ 0 ∷ 0 ∷ 0 ∷ 0 ∷ []

abbrev tallying_store : Table
tallying_store =
    (0x04 ∷ round_id, Value.vote_round tallying_round)
    ∷ (accumulator_bytes, Value.raw (compress true ++ compress true))
    ∷ []

abbrev decrypted : PartialDecryptionEntry
decrypted = record {
  proposal_id = 1;
  vote_decision = 0;
  partial_decrypt = compress true;
  dleq_proof = partial_proof;
}

abbrev submitted : MsgSubmitPartialDecryption
submitted = record {
  vote_round_id = round_id;
  creator = 1 ∷ [];
  validator_index = 1;
  entries = decrypted ∷ [];
}

abbrev operator_alice : Bytes → Option Bytes
operator_alice a = some (1 ∷ [])

abbrev after : Table
after =
    (submit_partial_decryption small_curve bits operator_alice context submitted tallying_store).1

decryption_accepted :
    submit_partial_decryption small_curve bits operator_alice context submitted tallying_store
    ≡ (ok tt, after)
unfolding submit_partial_decryption validate_proposer_is_creator get_vote_round vote_round_key
    validate_round_id find_validator_in_round_ceremony has_partial_decryptions_from_validator
    prefix_end_bytes validate_and_decode_partial_decryption_entries
    validate_partial_decryption_completeness collect_non_empty_accumulators collect_from
    get_proposal_tally tally_prefix_for_proposal validate_entries validate_entry
    validate_entry_bounds validate_vote_choice get_tally tally_key unmarshal_ciphertext
    unmarshal_point unmarshal_public_key decompress_pallas_point deserialize_feldman_commitments
    deserialize_points eval_commitment_polynomial verify_entry_proof verify_partial_decrypt_dleq
    set_partial_decryptions append_uint32_be put_uint32_be get_uint32_be kv_get kv_set kv_has
    kv_iterator for_each ◌>>=◌ raise_if table lookup insert scan visible bytes_eq
    partial_decryption_prefix_for_validator partial_decryption_key horner_points pd_dleq_challenge
decryption_accepted = refl

submit_partial_decryption-Accepted_example :
    Accepted small_curve bits submitted tallying_store
    × Written small_curve bits submitted decrypted after
submit_partial_decryption-Accepted_example =
    submit_partial_decryption-Accepted small_curve bits operator_alice context submitted decrypted
      tallying_store after decryption_accepted (inl refl)

tallying_round_stored : get_vote_round round_id tallying_store ≡ (ok tallying_round, tallying_store)
unfolding get_vote_round vote_round_key validate_round_id kv_get ◌>>=◌ table lookup bytes_eq
tallying_round_stored = refl

accumulator_key_bytes : tally_key round_id 1 0 ≡ ok accumulator_bytes
unfolding tally_key append_uint32_be put_uint32_be validate_round_id
accumulator_key_bytes = refl

accumulator_stored :
    table.get tallying_store accumulator_bytes ≡ some (Value.raw (compress true ++ compress true))
unfolding table lookup bytes_eq
accumulator_stored = refl

round_id-IsBytes : IsBytes round_id
round_id-IsBytes = ground arith

submit_partial_decryption-covers_example :
    (e : PartialDecryptionEntry) × In e (decrypted ∷ [])
    × (e.proposal_id ≡ 1)
    × (e.vote_decision ≡ 0)
submit_partial_decryption-covers_example =
    submit_partial_decryption-covers small_curve bits operator_alice context submitted
      tallying_round proposal 0 (Value.raw (compress true ++ compress true)) accumulator_bytes
      tallying_store after decryption_accepted tallying_round_stored round_id-IsBytes (omega arith)
      (inl refl) accumulator_key_bytes accumulator_stored
