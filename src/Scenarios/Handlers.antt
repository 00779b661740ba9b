-- ===== src/Scenarios/Handlers.antt =====
-- The theorems on single handlers, applied to the data of the scenarios.
use vote_sdk.Base.{
  is_some, true, Option, none, ℕ, ◌-◌, ◌≤◌, ◌<◌, ◌≡◌, refl, inl, some, List, [], ◌∷◌, ◌++◌, Bytes,
  bytes_eq, replicate, ok, In, length, get_elem?, arith, ◌>>=◌, for_each, raise_if, to_uint64,
}
use vote_sdk.Types.{
  CeremonyStatus, Value, VoteRound, Proposal, TallyEntry, SessionStatus, tally_bsgs_bound,
}
use vote_sdk.Kv.{kv_get, kv_set, kv_has, kv_iterator}
use vote_sdk.Kv.Table.{Table, table, lookup, insert, scan, visible}
use vote_sdk.Keys.{
  nullifier_key, validate_round_id, tally_key, share_count_key, vote_round_key, append_uint32_be,
  put_uint32_be, put_uint64_be, get_uint32_be, get_uint64_be, prefix_end_bytes,
  tally_prefix_for_proposal, tally_result_key, partial_decryption_prefix_for_round,
}
use vote_sdk.Keys.Range.{IsBytes}
use vote_sdk.Crypto.ElGamal.{
  unmarshal_ciphertext, unmarshal_point, decompress_pallas_point, value_point,
}
use vote_sdk.Crypto.Shamir.{combine_partials, lagrange_coefficients, check_indices, weighted_sum}
use vote_sdk.Keeper.Rounds.{get_vote_round, set_vote_round}
use vote_sdk.Keeper.Voting.{
  validate_proposal_id, validate_vote_decision, validate_vote_choice, validate_round_for_voting,
  validate_entry_bounds,
}
use vote_sdk.Keeper.Nullifiers.{check_and_set_nullifier, has_nullifier, set_nullifier}
use vote_sdk.Keeper.Ceremony.{
  validate_proposer_is_creator, get_pending_round_with_ceremony, find_validator_in_round_ceremony,
  find_ack_in_round_ceremony, append_ceremony_log,
}
use vote_sdk.Keeper.Tally.{
  add_to_tally, accumulated, validate_non_identity_ciphertext, increment_share_count, get_tally,
  set_tally_result, validate_tally_completeness, collect_non_empty_accumulators, collect_from,
  get_proposal_tally,
}
use vote_sdk.Msgs.{MsgAckExecutiveAuthorityKey, MsgRevealShare, MsgSubmitTally}
use vote_sdk.Server.Ceremony.{record_ack, confirm_if_complete, ack_executive_authority_key}
use vote_sdk.Server.Ceremony.Ack.{Acked, ack-records}
use vote_sdk.Server.Voting.{reveal_share}
use vote_sdk.Server.Voting.Reveal.{reveal_share-window}
use vote_sdk.Server.Tally.{
  PartialDecryptionWithIndex, partials_of, accumulator_key, verify_entry, submit_entry,
  submit_tally, get_partial_decryptions_for_round,
}
use vote_sdk.Server.Tally.Final.{submit_tally-verified}
use vote_sdk.Scenarios.SmallCurve.{small_curve}
use vote_sdk.Scenarios.Data.{round_id, proposal, round, context}

abbrev share : MsgRevealShare
share = record {
  share_nullifier = replicate 32 8;
  enc_share = (1 ∷ replicate 31 0) ++ (1 ∷ replicate 31 0);
  proposal_id = 1;
  vote_decision = 1;
  proof = 1 ∷ [];
  vote_round_id = round_id;
  vote_comm_tree_anchor_height = 3;
}

abbrev open_store : Table
open_store = (0x04 ∷ round_id, Value.vote_round round) ∷ []

share_counted : (reveal_share small_curve context share open_store).0 ≡ ok tt
unfolding reveal_share validate_round_for_voting validate_proposal_id validate_vote_decision
    validate_vote_choice get_vote_round check_and_set_nullifier has_nullifier set_nullifier
    nullifier_key validate_round_id vote_round_key add_to_tally accumulated
    validate_non_identity_ciphertext unmarshal_ciphertext decompress_pallas_point tally_key
    increment_share_count share_count_key append_uint32_be put_uint32_be put_uint64_be get_uint64_be
    kv_get kv_set kv_has ◌>>=◌ raise_if table lookup insert bytes_eq
share_counted = refl

reveal_share-window_example :
    (r : VoteRound) × (p : Proposal) × (get_vote_round round_id open_store ≡ (ok r, open_store))
    × (r.status ≡ SessionStatus.active)
    × (to_uint64 context.block_time < r.vote_end_time)
    × (1 ≤ 1)
    × (get_elem? r.proposals (1 - 1) ≡ some (some p))
    × (1 < length p.options)
reveal_share-window_example =
    reveal_share-window small_curve context share open_store refl share_counted

abbrev closing_round : VoteRound
closing_round = record round { status = SessionStatus.tallying; threshold = 1 }

abbrev accumulator_bytes : Bytes
accumulator_bytes = 0x05 ∷ round_id ++ 0 ∷ 0 ∷ 0 ∷ 1 ∷ 0 ∷ 0 ∷ 0 ∷ 0 ∷ []

abbrev partial_bytes : Bytes
partial_bytes = 0x12 ∷ round_id ++ 0 ∷ 0 ∷ 0 ∷ 1 ∷ 0 ∷ 0 ∷ 0 ∷ 1 ∷ 0 ∷ 0 ∷ 0 ∷ 0 ∷ []

abbrev closing_store : Table
closing_store =
    (0x04 ∷ round_id, Value.vote_round closing_round)
    ∷ (accumulator_bytes, Value.raw (replicate 64 0))
    ∷ (
      partial_bytes,
      Value.partial_decryption (record {
        proposal_id = 1;
        vote_decision = 0;
        partial_decrypt = replicate 32 0;
        dleq_proof = [];
      }),
    )
    ∷ []

abbrev total : TallyEntry
total = record { proposal_id = 1; vote_decision = 0; total_value = 4 }

abbrev submission : MsgSubmitTally
submission = record { vote_round_id = round_id; creator = []; entries = total ∷ [] }

accepted : (submit_tally small_curve (λ a. some a) context submission closing_store).0 ≡ ok tt
unfolding submit_tally submit_entry verify_entry validate_proposer_is_creator get_vote_round
    set_vote_round vote_round_key validate_round_id get_partial_decryptions_for_round
    partial_decryption_prefix_for_round prefix_end_bytes validate_entry_bounds validate_vote_choice
    get_tally tally_key accumulator_key unmarshal_ciphertext unmarshal_point decompress_pallas_point
    combine_partials lagrange_coefficients check_indices weighted_sum value_point set_tally_result
    tally_result_key validate_tally_completeness collect_non_empty_accumulators collect_from
    get_proposal_tally tally_prefix_for_proposal append_uint32_be put_uint32_be get_uint32_be kv_get
    kv_set kv_iterator for_each ◌>>=◌ raise_if table lookup insert scan visible bytes_eq
accepted = refl

closing_round_stored : get_vote_round round_id closing_store ≡ (ok closing_round, closing_store)
unfolding get_vote_round vote_round_key validate_round_id kv_get ◌>>=◌ table lookup bytes_eq
closing_round_stored = refl

accumulator_stored : table.get closing_store accumulator_bytes ≡ some (Value.raw (replicate 64 0))
unfolding table lookup bytes_eq
accumulator_stored = refl

accumulator_key_bytes : tally_key round_id 1 0 ≡ ok accumulator_bytes
unfolding tally_key append_uint32_be put_uint32_be validate_round_id
accumulator_key_bytes = refl

round_id-IsBytes : IsBytes round_id
round_id-IsBytes = ground arith

submit_tally-verified_example :
    (closing_round.status ≡ SessionStatus.tallying)
    × (pds : List (ℕ × PartialDecryptionWithIndex)) × (e : TallyEntry)
    × (get_partial_decryptions_for_round round_id closing_store ≡ (ok pds, closing_store))
    × In e (total ∷ [])
    × (e.proposal_id ≡ 1)
    × (e.vote_decision ≡ 0)
    × (e.total_value < tally_bsgs_bound)
    × (verify_entry small_curve closing_round
          (partials_of pds (accumulator_key 1 0))
          (some (Value.raw (replicate 64 0)))
          e.total_value
        ≡ ok tt)
submit_tally-verified_example =
    submit_tally-verified small_curve (λ a. some a) context submission closing_round proposal 0
      (Value.raw (replicate 64 0)) accumulator_bytes closing_store closing_round_stored refl
      round_id-IsBytes (omega arith) (inl refl) accumulator_key_bytes accumulator_stored accepted

abbrev dealt_round : VoteRound
dealt_round = record round {
  status = SessionStatus.pending;
  ceremony_status = CeremonyStatus.dealt;
}

abbrev dealt_store : Table
dealt_store = (0x04 ∷ round_id, Value.vote_round dealt_round) ∷ []

abbrev alice_ack : MsgAckExecutiveAuthorityKey
alice_ack = record { creator = 1 ∷ []; vote_round_id = round_id; ack_signature = 7 ∷ [] }

abbrev operator_alice : Bytes → Option Bytes
operator_alice a = some (1 ∷ [])

abbrev seven : Bytes → Bytes → Bytes
seven a b = 7 ∷ []

alice_acked :
    (ack_executive_authority_key operator_alice seven context alice_ack dealt_store).0 ≡ ok tt
unfolding ack_executive_authority_key validate_proposer_is_creator get_pending_round_with_ceremony
    get_vote_round vote_round_key validate_round_id find_validator_in_round_ceremony
    find_ack_in_round_ceremony record_ack confirm_if_complete append_ceremony_log set_vote_round
    kv_get kv_set ◌>>=◌ raise_if table lookup insert bytes_eq
alice_acked = refl

ack-records_example :
    (r : VoteRound) × (r' : VoteRound) × (get_vote_round round_id dealt_store ≡ (ok r, dealt_store))
    × (r.status ≡ SessionStatus.pending)
    × (r.ceremony_status ≡ CeremonyStatus.dealt)
    × (is_some (find_validator_in_round_ceremony r (1 ∷ [])) ≡ true)
    × (find_ack_in_round_ceremony r (1 ∷ []) ≡ none)
    × (get_vote_round r.vote_round_id
          (ack_executive_authority_key operator_alice seven context alice_ack dealt_store).1
        ≡ (
          ok r',
          (ack_executive_authority_key operator_alice seven context alice_ack dealt_store).1,
        ))
    × Acked alice_ack r r'
ack-records_example = ack-records operator_alice seven context alice_ack dealt_store alice_acked
