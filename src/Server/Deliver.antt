-- ===== src/Server/Deliver.antt =====
-- A sequence of messages, of all but the creation of a validator: one that fails leaves the store as
-- it was, as the SDK's message router does.
pub mod Presence
pub mod Kept
pub mod Executed
pub mod Runs
pub mod Guards
pub mod DoubleSpend
use vote_sdk.Keys.{NullifierType}
use vote_sdk.Base.{
  Option, List, [], ◌∷◌, ◌++◌, map, Bytes, Result, ok, err, Action, Done, pure, ◌>>=◌, ◌>>◌,
}
use vote_sdk.Types.{Context}
use vote_sdk.Kv.{KvStore}
use vote_sdk.Crypto.{Curve}
use vote_sdk.Msgs.{
  MsgDelegateVote, MsgCastVote, MsgCastVoteBatch, MsgDelegateAndCastVoteBatch, MsgRevealShare,
  MsgSubmitTally, MsgAckExecutiveAuthorityKey, batch_round_id,
}
use vote_sdk.Crypto.Proofs.{Scalars}
use vote_sdk.Server.Registry.{
  MsgRegisterPallasKey, MsgRotatePallasKey, register_pallas_key, rotate_pallas_key,
}
use vote_sdk.Server.Contribute.{MsgContributeDkg, contribute_dkg}
use vote_sdk.Server.Decrypt.{MsgSubmitPartialDecryption, submit_partial_decryption}
use vote_sdk.Server.Coordinator.{
  Modules, MsgEndorseRound, MsgProposeCoordinatorAction, MsgApproveCoordinatorAction,
}
use vote_sdk.Server.Coordinator.Approval.{propose_coordinator_action, approve_coordinator_action}
use vote_sdk.Server.Coordinator.Endorse.{endorse_round, clear_round_endorsement}
use vote_sdk.Server.Voting.{
  delegate_vote, cast_vote, cast_vote_batch, delegate_and_cast_vote_batch, reveal_share,
}
use vote_sdk.Server.Tally.{submit_tally}
use vote_sdk.Server.Ceremony.{ack_executive_authority_key}

-- The messages that `registerService` routes, but for `MsgCreateValidatorWithPallasKey`, which is a
-- call of the staking module around a registration.
pub data Msg : Type 0 where
  delegate : MsgDelegateVote → Msg
  cast : MsgCastVote → Msg
  cast_batch : MsgCastVoteBatch → Msg
  delegate_and_cast : MsgDelegateAndCastVoteBatch → Msg
  reveal : MsgRevealShare → Msg
  tally : MsgSubmitTally → Msg
  ack : MsgAckExecutiveAuthorityKey → Msg
  contribute : MsgContributeDkg → Msg
  partial_decryption : MsgSubmitPartialDecryption → Msg
  register : MsgRegisterPallasKey → Msg
  rotate : MsgRotatePallasKey → Msg
  endorse : MsgEndorseRound → Msg
  clear_endorsement : MsgEndorseRound → Msg
  propose : MsgProposeCoordinatorAction → Msg
  approve : MsgApproveCoordinatorAction → Msg

-- The nullifiers that a message spends, with their type and round.
abbrev pub spends : Msg → List (NullifierType × Bytes × Bytes)
spends (Msg.delegate m) = map (λ n. (NullifierType.gov, m.vote_round_id, n)) m.gov_nullifiers
spends (Msg.cast m) = (NullifierType.vote_authority_note, m.vote_round_id, m.van_nullifier) ∷ []
spends (Msg.cast_batch m) =
    map (λ v. (NullifierType.vote_authority_note, batch_round_id m, v.van_nullifier)) m.votes
spends (Msg.delegate_and_cast m) =
    map (λ n. (NullifierType.gov, m.delegation.vote_round_id, n)) m.delegation.gov_nullifiers
    ++ map (λ v. (NullifierType.vote_authority_note, m.delegation.vote_round_id, v.van_nullifier))
        m.batch.votes
spends (Msg.reveal m) = (NullifierType.share, m.vote_round_id, m.share_nullifier) ∷ []
spends (Msg.tally m) = []
spends (Msg.ack m) = []
spends (Msg.contribute m) = []
spends (Msg.partial_decryption m) = []
spends (Msg.register m) = []
spends (Msg.rotate m) = []
spends (Msg.endorse m) = []
spends (Msg.clear_endorsement m) = []
spends (Msg.propose m) = []
spends (Msg.approve m) = []

-- What a handler reads of its surroundings: the curve with its scalars, the staking module's
-- resolution of a proposer, the ack digest, the chain's id, the conversion of addresses, and the modules
-- that coordinator actions call.
pub record Env (S P F : Type 0) : Type 0 where
  pub curve : Curve P F
  pub operator_of : Bytes → Option Bytes
  pub digest : Bytes → Bytes → Bytes
  pub scalars : Scalars F
  pub chain_id : Bytes
  pub val_address_of : Bytes → Option Bytes
  pub modules : Modules S

-- The store after a handler: its own on success, the one before it on an error.
abbrev pub commit : {S : Type 0} → S → Result Done × S → S
commit s (ok _, t) = t
commit s (err _, t) = s

module _ {S P F : Type 0} ⦃kv : KvStore S⦄ (env : Env S P F) where
  unfoldable pub handle : Context → Msg → Action S Done
  handle ctx (Msg.delegate m) = delegate_vote m
  handle ctx (Msg.cast m) = cast_vote m
  handle ctx (Msg.cast_batch m) = cast_vote_batch m
  handle ctx (Msg.delegate_and_cast m) = delegate_and_cast_vote_batch m
  handle ctx (Msg.reveal m) = reveal_share env.curve ctx m
  handle ctx (Msg.tally m) = submit_tally env.curve env.operator_of ctx m
  handle ctx (Msg.ack m) = ack_executive_authority_key env.operator_of env.digest ctx m
  handle ctx (Msg.contribute m) =
      contribute_dkg env.curve env.scalars env.operator_of env.chain_id ctx m
  handle ctx (Msg.partial_decryption m) =
      submit_partial_decryption env.curve env.scalars env.operator_of ctx m
  handle ctx (Msg.register m) = register_pallas_key env.curve env.val_address_of m
  handle ctx (Msg.rotate m) = rotate_pallas_key env.curve env.val_address_of m
  handle ctx (Msg.endorse m) = endorse_round env.modules.normalize m
  handle ctx (Msg.propose m) = propose_coordinator_action env.modules ctx m >> pure tt
  handle ctx (Msg.approve m) = approve_coordinator_action env.modules ctx m >> pure tt
  handle ctx (Msg.clear_endorsement m) = clear_round_endorsement env.modules.normalize m

  unfoldable pub deliver : Context → Msg → S → S
  unfolding handle
  deliver ctx m s = commit s (handle ctx m s)

  unfoldable pub run : List (Context × Msg) → S → S
  unfolding deliver
  run [] s = s
  run ((ctx, m) ∷ rest) s = run rest (deliver ctx m s)
