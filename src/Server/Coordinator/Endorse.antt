-- ===== src/Server/Coordinator/Endorse.antt =====
-- Endorsing a round, and clearing an endorsement (x/vote/keeper/msg_server_endorsements.go).
pub mod Sender
use vote_sdk.Base.{
  not, Option, Bytes, bytes_eq, Error, ok, Action, Done, lift, raise_if, or_raise, ◌>>=◌, ◌>>◌,
}
use vote_sdk.Keys.{validate_endorser_id}
use vote_sdk.Kv.{KvStore}
use vote_sdk.Keeper.Rounds.{get_vote_round}
use vote_sdk.Keeper.Endorsers.{get_endorser, add_endorsed_round, delete_endorsed_round}
use vote_sdk.Server.Coordinator.{MsgEndorseRound}

module _ {S : Type 0} ⦃kv : KvStore S⦄ where
  -- The checks that both handlers start with: the sender is the endorser's address, and the round
  -- exists.
  unfoldable pub authorize_endorser : (Bytes → Option Bytes) → MsgEndorseRound → Action S Done
  unfolding ◌>>=◌ validate_endorser_id get_endorser get_vote_round
  authorize_endorser normalize msg = do
    lift (validate_endorser_id msg.endorser_id)
    found ← get_endorser msg.endorser_id
    authorized_address ← or_raise found Error.endorser_not_found
    creator ← or_raise (normalize msg.creator) Error.not_authorized
    raise_if (not (bytes_eq creator authorized_address)) Error.not_authorized
    get_vote_round msg.vote_round_id >> lift (ok tt)

  unfoldable pub endorse_round : (Bytes → Option Bytes) → MsgEndorseRound → Action S Done
  unfolding ◌>>=◌ authorize_endorser add_endorsed_round
  endorse_round normalize msg = do
    authorize_endorser normalize msg
    add_endorsed_round msg.endorser_id msg.vote_round_id

  unfoldable pub clear_round_endorsement : (Bytes → Option Bytes) → MsgEndorseRound → Action S Done
  unfolding ◌>>=◌ authorize_endorser delete_endorsed_round
  clear_round_endorsement normalize msg = do
    authorize_endorser normalize msg
    delete_endorsed_round msg.endorser_id msg.vote_round_id
