-- ===== src/Server/Voting.antt =====
-- Delegating, casting and revealing (x/vote/keeper/msg_server.go and
-- x/vote/keeper/msg_server_tally_decrypt.go, `RevealShare`).
pub mod Reveal
use vote_sdk.Base.{
  false, not, Option, none, some, List, [], ◌∷◌, map, Bytes, Error, Action, Done, lift, pure,
  or_raise, raise_if, ◌>>=◌, ◌>>◌, for_each, is_some,
}
use vote_sdk.Keys.{NullifierType}
use vote_sdk.Types.{Context}
use vote_sdk.Kv.{KvStore}
use vote_sdk.Crypto.{Curve}
use vote_sdk.Keeper.Nullifiers.{check_and_set_nullifier, check_nullifiers_unique, set_nullifier}
use vote_sdk.Keeper.Tree.{append_commitment, get_commitment_root_at_height}
use vote_sdk.Keeper.Voting.{validate_proposal_id, validate_vote_decision, validate_round_for_voting}
use vote_sdk.Keeper.Tally.{add_to_tally, increment_share_count}
use vote_sdk.Msgs.{
  MsgDelegateVote, MsgCastVote, MsgCastVoteBatch, MsgDelegateAndCastVoteBatch, MsgRevealShare,
  validate_cast_vote_batch, validate_delegate_and_cast_vote_batch,
}

-- `votes[0]` and `votes[len(votes)-1]`; an empty slice panics.
abbrev first_vote : List MsgCastVote → Option MsgCastVote
first_vote [] = none
first_vote (v ∷ _) = some v

abbrev last_vote : List MsgCastVote → Option MsgCastVote
last_vote [] = none
last_vote (v ∷ []) = some v
last_vote (_ ∷ v ∷ rest) = last_vote (v ∷ rest)

abbrev pub van_nullifiers : List MsgCastVote → List Bytes
van_nullifiers = map (λ v. v.van_nullifier)

module _ {S : Type 0} ⦃kv : KvStore S⦄ where
  unfoldable pub delegate_vote : MsgDelegateVote → Action S Done
  unfolding ◌>>=◌ for_each
  delegate_vote msg = do
    for_each (check_and_set_nullifier NullifierType.gov msg.vote_round_id) msg.gov_nullifiers
    append_commitment msg.vote_round_id msg.van_cmx
    pure tt

  unfoldable pub cast_vote : MsgCastVote → Action S Done
  unfolding ◌>>=◌
  cast_vote msg = do
    validate_proposal_id msg.vote_round_id msg.proposal_id
    root ← get_commitment_root_at_height msg.vote_round_id msg.vote_comm_tree_anchor_height
    raise_if (not (is_some root)) Error.invalid_anchor_height
    check_and_set_nullifier NullifierType.vote_authority_note msg.vote_round_id msg.van_nullifier
    append_commitment msg.vote_round_id msg.vote_authority_note_new
    append_commitment msg.vote_round_id msg.vote_commitment
    pure tt

  -- The writes that both batches share: VAN nullifiers, the last successor VAN, each commitment.
  unfoldable pub apply_votes : Bytes → List MsgCastVote → Action S Done
  unfolding ◌>>=◌ for_each
  apply_votes round_id votes = do
    for_each (λ v. set_nullifier NullifierType.vote_authority_note round_id v.van_nullifier) votes
    final_vote ← or_raise (last_vote votes) Error.panicked
    append_commitment round_id final_vote.vote_authority_note_new
    for_each (λ v. append_commitment round_id v.vote_commitment >> pure tt) votes

  unfoldable pub cast_vote_batch : MsgCastVoteBatch → Action S Done
  unfolding ◌>>=◌ for_each
  cast_vote_batch msg = do
    lift (validate_cast_vote_batch false msg)
    first ← or_raise (first_vote msg.votes) Error.panicked
    root ← get_commitment_root_at_height first.vote_round_id first.vote_comm_tree_anchor_height
    raise_if (not (is_some root)) Error.invalid_anchor_height
    for_each (λ v. validate_proposal_id v.vote_round_id v.proposal_id) msg.votes
    check_nullifiers_unique NullifierType.vote_authority_note first.vote_round_id
        (van_nullifiers msg.votes)
    apply_votes first.vote_round_id msg.votes

  unfoldable pub delegate_and_cast_vote_batch : MsgDelegateAndCastVoteBatch → Action S Done
  unfolding ◌>>=◌ for_each
  delegate_and_cast_vote_batch msg = do
    lift (validate_delegate_and_cast_vote_batch msg)
    for_each (λ v. validate_proposal_id msg.delegation.vote_round_id v.proposal_id) msg.batch.votes
    check_nullifiers_unique NullifierType.gov msg.delegation.vote_round_id
        msg.delegation.gov_nullifiers
    check_nullifiers_unique NullifierType.vote_authority_note msg.delegation.vote_round_id
        (van_nullifiers msg.batch.votes)
    for_each (λ nf. set_nullifier NullifierType.gov msg.delegation.vote_round_id nf)
        msg.delegation.gov_nullifiers
    apply_votes msg.delegation.vote_round_id msg.batch.votes

module _ {S P F : Type 0} ⦃kv : KvStore S⦄ (c : Curve P F) where
  unfoldable pub reveal_share : Context → MsgRevealShare → Action S Done
  unfolding ◌>>=◌
  reveal_share ctx msg = do
    validate_round_for_voting ctx msg.vote_round_id
    validate_proposal_id msg.vote_round_id msg.proposal_id
    validate_vote_decision msg.vote_round_id msg.proposal_id msg.vote_decision
    check_and_set_nullifier NullifierType.share msg.vote_round_id msg.share_nullifier
    add_to_tally c msg.vote_round_id msg.proposal_id msg.vote_decision msg.enc_share
    increment_share_count msg.vote_round_id msg.proposal_id msg.vote_decision
