-- ===== src/Server/Contribute.antt =====
-- Contributions to the shared key (`ContributeDKG` of x/vote/keeper/msg_server_ceremony.go).
pub mod Dealing
pub mod Payloads
pub mod Recorded
use vote_sdk.Base.{
  ℕ, suc, ◌+◌, ◌-◌, Bool, false, not, Option, List, [], ◌∷◌, ◌++◌, map, Bytes, bytes_eq, Error,
  Result, ok, err, Action, Done, lift, pure, raise_if, ◌>>=◌, ◌>>◌, ◌==◌, length, is_some, any,
  uint32, to_uint64, if◌then◌else◌, then_check, reject_if,
}
use vote_sdk.Types.{
  VoteRound, DealerPayload, DkgContribution, ValidatorPallasKey, CeremonyStatus, LogEvent, Context,
  default_deal_timeout,
}
use vote_sdk.Kv.{KvStore}
use vote_sdk.Crypto.{Curve}
use vote_sdk.Crypto.ElGamal.{and_then, unmarshal_public_key}
use vote_sdk.Crypto.Feldman.{combine_commitments, eval_commitment_polynomial}
use vote_sdk.Crypto.Proofs.{Scalars, verify_constant_term_proof}
use vote_sdk.Keeper.Rounds.{set_vote_round}
use vote_sdk.Keeper.Ceremony.{
  validate_proposer_is_creator, get_pending_round_with_ceremony, find_validator_in_round_ceremony,
  find_contribution_in_round, threshold_for_n, append_ceremony_log,
}

pub record MsgContributeDkg : Type 0 where
  pub creator : Bytes
  pub vote_round_id : Bytes
  pub feldman_commitments : List Bytes
  pub payloads : List DealerPayload
  pub constant_term_proof : Bytes

-- Any failure under the name that the source wraps it in.
abbrev pub as_error : {A : Type 0} → Error → Result A → Result Done
as_error e (ok _) = ok tt
as_error e (err _) = err e

-- Validators with the Shamir indices 1, 2, …, from position `i`, unless a verification key fails.
abbrev put_validator :
    ValidatorPallasKey → Result (List ValidatorPallasKey) → Result (List ValidatorPallasKey)
put_validator v (err e) = err e
put_validator v (ok vs) = ok (v ∷ vs)

module _ {P F : Type 0} (c : Curve P F) (sc : Scalars F) where
  unfoldable pub check_points : List Bytes → Result Done
  check_points [] = ok tt
  check_points (b ∷ rest) =
      then_check (as_error Error.invalid_pallas_point (unmarshal_public_key c b))
        (check_points rest)

  -- The loop over the payloads, with the addresses covered so far.
  unfoldable pub check_payloads : VoteRound → Bytes → List Bytes → List DealerPayload → Result Done
  unfolding find_validator_in_round_ceremony
  check_payloads round creator covered [] = ok tt
  check_payloads round creator covered (p ∷ rest) =
      then_check (reject_if (bytes_eq p.validator_address creator) Error.payload_mismatch) (
        then_check
          (reject_if (not (is_some (find_validator_in_round_ceremony round p.validator_address)))
            Error.not_registered_validator)
          (then_check
            (reject_if (any (bytes_eq p.validator_address) covered) Error.payload_mismatch)
            (then_check
              (as_error Error.invalid_pallas_point (unmarshal_public_key c p.ephemeral_pk))
              (check_payloads round creator (p.validator_address ∷ covered) rest))))

  -- The points of one contribution, and of all.
  decode_row : List Bytes → Result (List P)
  decode_row [] = ok []
  decode_row (raw ∷ rest) =
      and_then (unmarshal_public_key c raw) (λ p. and_then (decode_row rest) (λ ps. ok (p ∷ ps)))

  decode_rows : List DkgContribution → Result (List (List P))
  decode_rows [] = ok []
  decode_rows (d ∷ rest) =
      and_then (decode_row d.feldman_commitments)
        (λ row. and_then (decode_rows rest) (λ rows. ok (row ∷ rows)))

  -- The loop over the validators of the round.
  unfoldable pub index_validators :
      List P → ℕ → List ValidatorPallasKey → Result (List ValidatorPallasKey)
  index_validators combined i [] = ok []
  index_validators combined i (v ∷ rest) = elim (eval_commitment_polynomial c combined (i + 1)) [
    | err _ ↦ err Error.invalid_pallas_point
    | ok vk ↦
        if c.is_identity vk
        then err Error.invalid_pallas_point
        else put_validator (record v { shamir_index = uint32 (i + 1) })
            (index_validators combined (suc i) rest)
  ]

  -- The dealt round, from the combined commitments; an empty vector cannot occur.
  unfoldable pub dealt_round :
      Context → VoteRound → ℕ → ℕ → List P → List ValidatorPallasKey → Result VoteRound
  unfolding append_ceremony_log
  dealt_round ctx round n_validators threshold [] vs = err Error.panicked
  dealt_round ctx round n_validators threshold (first ∷ others) vs = ok (
      append_ceremony_log
        (record round {
          ea_pk = c.to_affine_compressed first;
          feldman_commitments = map c.to_affine_compressed (first ∷ others);
          threshold = uint32 threshold;
          ceremony_validators = vs;
          ceremony_phase_start = to_uint64 ctx.block_time;
          ceremony_phase_timeout = default_deal_timeout;
          ceremony_status = CeremonyStatus.dealt;
        })
        ctx.block_height (LogEvent.dkg_complete n_validators))

  abbrev combined_is_identity : List P → Bool
  combined_is_identity [] = false
  combined_is_identity (first ∷ others) = c.is_identity first

  unfoldable pub finalize_dkg : Context → VoteRound → ℕ → ℕ → Result VoteRound
  unfolding decode_row decode_rows index_validators dealt_round
  finalize_dkg ctx round n_validators threshold =
      and_then (decode_rows round.dkg_contributions) (λ rows.
        and_then (combine_commitments c rows) (λ combined.
          then_check (reject_if (combined_is_identity combined) Error.invalid_pallas_point) (
            and_then (index_validators combined 0 round.ceremony_validators)
              (λ vs. dealt_round ctx round n_validators threshold combined vs))))

  -- The round with one more contribution.
  unfoldable pub with_contribution : MsgContributeDkg → VoteRound → VoteRound
  with_contribution msg round = record round {
    dkg_contributions =
        round.dkg_contributions
        ++ record {
          validator_address = msg.creator;
          feldman_commitments = msg.feldman_commitments;
          payloads = msg.payloads;
        }
          ∷ [];
  }

  -- The last contribution finalizes the key, another is logged.
  unfoldable pub after_contribution : Context → Bytes → VoteRound → ℕ → ℕ → Result VoteRound
  unfolding append_ceremony_log
  after_contribution ctx creator round n_validators threshold =
      if length round.dkg_contributions == n_validators
      then finalize_dkg ctx round n_validators threshold
      else ok (
          append_ceremony_log round ctx.block_height
            (LogEvent.dkg_contribution creator (length round.dkg_contributions) n_validators))

abbrev or_invalid_threshold : Result ℕ → Result ℕ
or_invalid_threshold (ok t) = ok t
or_invalid_threshold (err _) = err Error.invalid_threshold

module _ {S P F : Type 0} ⦃kv : KvStore S⦄ (c : Curve P F) (sc : Scalars F) where
  -- The checks of a message against its round; the result is the expected threshold.
  unfoldable pub check_contribution : Bytes → MsgContributeDkg → VoteRound → Action S ℕ
  unfolding ◌>>=◌ check_points check_payloads find_validator_in_round_ceremony
      find_contribution_in_round
  check_contribution chain_id msg round = do
    raise_if (length round.ceremony_validators == 0) Error.ceremony_wrong_status
    raise_if (not (is_some (find_validator_in_round_ceremony round msg.creator)))
        Error.not_registered_validator
    raise_if (is_some (find_contribution_in_round round msg.creator)) Error.duplicate_contribution
    threshold ← lift (or_invalid_threshold (threshold_for_n (length round.ceremony_validators)))
    raise_if (not (length msg.feldman_commitments == threshold)) Error.invalid_threshold
    lift (check_points c sc msg.feldman_commitments)
    raise_if (not (length msg.payloads == length round.ceremony_validators - 1))
        Error.payload_mismatch
    lift (check_payloads c sc round msg.creator [] msg.payloads)
    lift (
        as_error Error.invalid_field (
          verify_constant_term_proof c sc msg.constant_term_proof chain_id msg.vote_round_id
            msg.creator msg.feldman_commitments))
    pure threshold

  unfoldable pub contribute_dkg :
      (Bytes → Option Bytes) → Bytes → Context → MsgContributeDkg → Action S Done
  unfolding ◌>>=◌ check_contribution
  contribute_dkg operator_of chain_id ctx msg = do
    validate_proposer_is_creator operator_of ctx msg.creator
    round ← get_pending_round_with_ceremony msg.vote_round_id CeremonyStatus.registering
    threshold ← check_contribution chain_id msg round
    next ← lift (
        after_contribution c sc ctx msg.creator (with_contribution c sc msg round)
          (length round.ceremony_validators) threshold)
    set_vote_round next
