-- ===== src/Server/Ceremony.antt =====
-- Acknowledging the election key (x/vote/keeper/msg_server_ceremony.go).
pub mod Ack
use vote_sdk.Base.{
  not, Option, [], ◌∷◌, ◌++◌, Bytes, bytes_eq, Error, Action, Done, raise_if, ◌>>=◌, ◌>>◌, ◌==◌,
  length, if◌then◌else◌, is_some,
}
use vote_sdk.Types.{VoteRound, SessionStatus, CeremonyStatus, LogEvent, Context}
use vote_sdk.Kv.{KvStore}
use vote_sdk.Keeper.Rounds.{set_vote_round}
use vote_sdk.Keeper.Ceremony.{
  validate_proposer_is_creator, get_pending_round_with_ceremony, find_validator_in_round_ceremony,
  find_ack_in_round_ceremony, append_ceremony_log,
}
use vote_sdk.Msgs.{MsgAckExecutiveAuthorityKey}

-- The round with one more ack and its log entry.
unfoldable pub record_ack : Context → MsgAckExecutiveAuthorityKey → VoteRound → VoteRound
unfolding append_ceremony_log
record_ack ctx msg round =
    let acked = record round {
      ceremony_acks =
          round.ceremony_acks
          ++ record {
            validator_address = msg.creator;
            ack_signature = msg.ack_signature;
            ack_height = ctx.block_height;
          }
            ∷ [];
    } in
    append_ceremony_log acked ctx.block_height
      (LogEvent.acked msg.creator (length acked.ceremony_acks) (length acked.ceremony_validators))

-- The fast path: all validators have acked.
unfoldable pub confirm_if_complete : Context → VoteRound → VoteRound
unfolding append_ceremony_log
confirm_if_complete ctx round =
    if length round.ceremony_acks == length round.ceremony_validators
    then append_ceremony_log
        (record round { ceremony_status = CeremonyStatus.confirmed; status = SessionStatus.active })
        ctx.block_height
        (LogEvent.ceremony_confirmed (length round.ceremony_acks)
          (length round.ceremony_validators))
    else round

module _ {S : Type 0} ⦃kv : KvStore S⦄ where
  -- `digest` is `sha256AckDigest`, SHA-256 over a domain, the key and the address.
  unfoldable pub ack_executive_authority_key :
      (Bytes → Option Bytes)
      → (Bytes → Bytes → Bytes)
      → Context
      → MsgAckExecutiveAuthorityKey
      → Action S Done
  unfolding ◌>>=◌
  ack_executive_authority_key operator_of digest ctx msg = do
    validate_proposer_is_creator operator_of ctx msg.creator
    round ← get_pending_round_with_ceremony msg.vote_round_id CeremonyStatus.dealt
    raise_if (not (is_some (find_validator_in_round_ceremony round msg.creator)))
        Error.not_registered_validator
    raise_if (is_some (find_ack_in_round_ceremony round msg.creator)) Error.duplicate_ack
    raise_if (not (bytes_eq msg.ack_signature (digest round.ea_pk msg.creator))) Error.invalid_field
    set_vote_round (confirm_if_complete ctx (record_ack ctx msg round))
