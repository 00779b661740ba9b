-- ===== src/Scenarios/Contribute.antt =====
-- The theorem on contributions, applied to the first contribution to a round.
use vote_sdk.Base.{true, Option, some, [], ◌∷◌, Bytes, bytes_eq, ok, ◌≡◌, refl, ◌>>=◌, raise_if}
use vote_sdk.Types.{Value, VoteRound, SessionStatus, CeremonyStatus}
use vote_sdk.Kv.{kv_get, kv_set}
use vote_sdk.Kv.Table.{Table, table, lookup, insert}
use vote_sdk.Keys.{validate_round_id, vote_round_key}
use vote_sdk.Crypto.ElGamal.{unmarshal_public_key, decompress_pallas_point}
use vote_sdk.Crypto.Proofs.{
  verify_constant_term_proof, constant_term_point, constant_term_challenge,
}
use vote_sdk.Keeper.Rounds.{get_vote_round, set_vote_round}
use vote_sdk.Keeper.Ceremony.{
  validate_proposer_is_creator, get_pending_round_with_ceremony, find_validator_in_round_ceremony,
  find_contribution_in_round, threshold_for_n, append_ceremony_log,
}
use vote_sdk.Server.Contribute.{
  MsgContributeDkg, check_points, check_payloads, with_contribution, after_contribution,
  check_contribution, contribute_dkg,
}
use vote_sdk.Server.Contribute.Dealing.{Contributed}
use vote_sdk.Server.Contribute.Recorded.{contribute_dkg-Contributed}
use vote_sdk.Scenarios.SmallCurve.{small_curve, compress}
use vote_sdk.Scenarios.Data.{round_id, round, context}
use vote_sdk.Scenarios.Crypto.{bits, partial_proof}

abbrev registering_round : VoteRound
registering_round = record round {
  status = SessionStatus.pending;
  ceremony_status = CeremonyStatus.registering;
  dkg_contributions = [];
}

abbrev registering_store : Table
registering_store = (0x04 ∷ round_id, Value.vote_round registering_round) ∷ []

abbrev alice_part : MsgContributeDkg
alice_part = record {
  creator = 1 ∷ [];
  vote_round_id = round_id;
  feldman_commitments = compress true ∷ compress true ∷ [];
  payloads =
      record { validator_address = 2 ∷ []; ephemeral_pk = compress true; ciphertext = [] } ∷ [];
  constant_term_proof = partial_proof;
}

abbrev operator_alice : Bytes → Option Bytes
operator_alice a = some (1 ∷ [])

abbrev after : Table
after = (contribute_dkg small_curve bits operator_alice [] context alice_part registering_store).1

part_accepted :
    contribute_dkg small_curve bits operator_alice [] context alice_part registering_store
    ≡ (ok tt, after)
unfolding contribute_dkg validate_proposer_is_creator get_pending_round_with_ceremony get_vote_round
    vote_round_key validate_round_id check_contribution find_validator_in_round_ceremony
    find_contribution_in_round threshold_for_n check_points check_payloads unmarshal_public_key
    decompress_pallas_point verify_constant_term_proof constant_term_point constant_term_challenge
    with_contribution after_contribution append_ceremony_log set_vote_round kv_get kv_set ◌>>=◌
    raise_if table lookup insert bytes_eq
part_accepted = refl

contribute_dkg-Contributed_example :
    (r : VoteRound) × (next : VoteRound) × (get_vote_round round_id registering_store
      ≡ (ok r, registering_store))
    × (get_vote_round r.vote_round_id after ≡ (ok next, after))
    × Contributed small_curve bits [] alice_part r next
contribute_dkg-Contributed_example =
    contribute_dkg-Contributed small_curve bits operator_alice [] context alice_part
      registering_store after part_accepted
