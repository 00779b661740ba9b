-- ===== src/Msgs.antt =====
-- The messages of voters and their stateless checks (x/vote/types/msgs.go). Decoding yields no nil
-- pointer in a list of votes, so tests for one do not appear.
pub mod Batch
pub mod Sighash
use vote_sdk.Base.{
  ℕ, suc, ◌+◌, Bool, true, false, not, ◌&&◌, ◌||◌, Option, none, some, List, [], ◌∷◌, map, Bytes,
  bytes_eq, Error, Result, ok, err, Done, ltb, leb, ◌==◌, length, replicate, take, drop, any,
  if◌then◌else◌, then_check, reject_if, checks, uint32,
}
use vote_sdk.Keys.{round_id_len}
use vote_sdk.Types.{Proposal, TallyEntry, max_proof_size, min_proposal_id, max_proposals}
use vote_sdk.Keeper.Voting.{validate_proposal_options, validate_vote_choice_upper_bound}

pub record MsgDelegateVote : Type 0 where
  pub rk : Bytes
  pub spend_auth_sig : Bytes
  pub signed_note_nullifier : Bytes
  pub cmx_new : Bytes
  pub van_cmx : Bytes
  pub gov_nullifiers : List Bytes
  pub proof : Bytes
  pub vote_round_id : Bytes
  pub tx1_effects : Bytes

pub record MsgCastVote : Type 0 where
  pub van_nullifier : Bytes
  pub vote_authority_note_new : Bytes
  pub vote_commitment : Bytes
  pub proposal_id : ℕ
  pub proof : Bytes
  pub vote_round_id : Bytes
  pub vote_comm_tree_anchor_height : ℕ
  pub vote_auth_sig : Bytes
  pub r_vpk : Bytes

pub record MsgCastVoteBatch : Type 0 where
  pub votes : List MsgCastVote

pub record MsgDelegateAndCastVoteBatch : Type 0 where
  pub delegation : MsgDelegateVote
  pub batch : MsgCastVoteBatch

pub record MsgRevealShare : Type 0 where
  pub share_nullifier : Bytes
  pub enc_share : Bytes
  pub proposal_id : ℕ
  pub vote_decision : ℕ
  pub proof : Bytes
  pub vote_round_id : Bytes
  pub vote_comm_tree_anchor_height : ℕ

pub record MsgSubmitTally : Type 0 where
  pub vote_round_id : Bytes
  pub creator : Bytes
  pub entries : List TallyEntry

pub record MsgCreateVotingSession : Type 0 where
  pub creator : Bytes
  pub snapshot_height : ℕ
  pub snapshot_blockhash : Bytes
  pub proposals_hash : Bytes
  pub vote_end_time : ℕ
  pub nullifier_imt_root : Bytes
  pub nc_root : Bytes
  pub proposals : List (Option Proposal)
  pub description : Bytes
  pub title : Bytes
  pub discussion_url : Bytes

pub record MsgAckExecutiveAuthorityKey : Type 0 where
  pub creator : Bytes
  pub vote_round_id : Bytes
  pub ack_signature : Bytes

abbrev pub max_cast_vote_batch_size : ℕ
max_cast_vote_batch_size = max_proposals

abbrev zero_point32 : Bytes
zero_point32 = replicate 32 0

-- `if len(b) != n { return err }`
abbrev need_length : ℕ → Bytes → Result Done
need_length n b = reject_if (not (length b == n)) Error.invalid_field

abbrev need_proof : Bytes → Result Done
need_proof proof =
    reject_if (length proof == 0 || ltb max_proof_size (length proof)) Error.invalid_field

abbrev need_proposal_id : ℕ → Result Done
need_proposal_id id = reject_if (ltb id min_proposal_id || ltb max_proposals id) Error.invalid_field

need_lengths : ℕ → List Bytes → Result Done
need_lengths n [] = ok tt
need_lengths n (b ∷ rest) = then_check (need_length n b) (need_lengths n rest)

-- The loop with a set of the strings seen so far.
unfoldable pub need_distinct : List Bytes → List Bytes → Result Done
need_distinct seen [] = ok tt
need_distinct seen (b ∷ rest) =
    then_check (reject_if (any (bytes_eq b) seen) Error.invalid_field)
      (need_distinct (b ∷ seen) rest)

-- The fixed TX1 effects: a version byte, then one action (ffi/tx1/effects.go).
abbrev pub effects_len : ℕ
effects_len = 821

-- `effects[start+offset : start+offset+fieldLen]`, behind the version byte.
abbrev effects_field : ℕ → Bytes → Bytes
effects_field offset effects = take 32 (drop (1 + offset) effects)

unfoldable pub validate_effects_framing : Bytes → Result Done
validate_effects_framing effects =
    then_check (reject_if (not (length effects == effects_len)) Error.malformed)
      (reject_if (not (bytes_eq (take 1 effects) (1 ∷ []))) Error.malformed)

unfoldable pub validate_delegation_binding : Bytes → Bytes → Bytes → Bytes → Result Done
unfolding validate_effects_framing
validate_delegation_binding effects rk signed_note_nullifier cmx_new = checks (
    validate_effects_framing effects
    ∷ reject_if (not (length rk == 32)) Error.malformed
    ∷ reject_if (not (length signed_note_nullifier == 32)) Error.malformed
    ∷ reject_if (not (length cmx_new == 32)) Error.malformed
    ∷ reject_if
        (not (bytes_eq (effects_field 64 effects) rk)
          || not (bytes_eq (effects_field 32 effects) signed_note_nullifier)
          || not (bytes_eq (effects_field 96 effects) cmx_new))
        Error.malformed
    ∷ [])

-- `validateDelegationTX1Effects` reports any refusal as an invalid field.
abbrev effects_ok : MsgDelegateVote → Result Done
effects_ok msg =
    elim (validate_delegation_binding msg.tx1_effects msg.rk msg.signed_note_nullifier
      msg.cmx_new) [ ok _ ↦ ok tt | err _ ↦ err Error.invalid_field ]

unfoldable pub validate_delegate_vote : MsgDelegateVote → Result Done
unfolding need_lengths need_distinct
validate_delegate_vote msg = checks (
    need_length 32 msg.rk
    ∷ reject_if (bytes_eq msg.rk zero_point32) Error.invalid_field
    ∷ need_length 64 msg.spend_auth_sig
    ∷ need_length 32 msg.signed_note_nullifier
    ∷ need_length 32 msg.cmx_new
    ∷ need_length 32 msg.van_cmx
    ∷ reject_if (length msg.gov_nullifiers == 0) Error.invalid_field
    ∷ reject_if (ltb 5 (length msg.gov_nullifiers)) Error.invalid_field
    ∷ need_lengths 32 msg.gov_nullifiers
    ∷ need_distinct [] msg.gov_nullifiers
    ∷ need_proof msg.proof
    ∷ need_length round_id_len msg.vote_round_id
    ∷ effects_ok msg
    ∷ [])

unfoldable pub validate_cast_vote : Bool → MsgCastVote → Result Done
validate_cast_vote allow_synthetic_anchor msg = checks (
    need_length 32 msg.van_nullifier
    ∷ need_length 32 msg.vote_authority_note_new
    ∷ need_length 32 msg.vote_commitment
    ∷ need_proposal_id msg.proposal_id
    ∷ need_proof msg.proof
    ∷ need_length round_id_len msg.vote_round_id
    ∷ reject_if (msg.vote_comm_tree_anchor_height == 0 && not allow_synthetic_anchor)
        Error.invalid_field
    ∷ need_length 64 msg.vote_auth_sig
    ∷ need_length 32 msg.r_vpk
    ∷ reject_if (bytes_eq msg.r_vpk zero_point32) Error.invalid_field
    ∷ [])

-- The loop over the votes, with the proposals and nullifiers seen so far.
unfoldable pub validate_votes :
    Bool → MsgCastVote → List ℕ → List Bytes → List MsgCastVote → Result Done
validate_votes allow first proposals nullifiers [] = ok tt
validate_votes allow first proposals nullifiers (vote ∷ rest) =
    then_check
      (checks (
        validate_cast_vote allow vote
        ∷ reject_if (not (bytes_eq vote.vote_round_id first.vote_round_id)) Error.invalid_field
        ∷ reject_if (not (vote.vote_comm_tree_anchor_height == first.vote_comm_tree_anchor_height))
            Error.invalid_field
        ∷ reject_if (any (λ p. vote.proposal_id == p) proposals) Error.invalid_field
        ∷ reject_if (any (bytes_eq vote.van_nullifier) nullifiers) Error.invalid_field
        ∷ []))
      (validate_votes allow first (vote.proposal_id ∷ proposals) (vote.van_nullifier ∷ nullifiers)
        rest)

-- `first` is read only behind the test of the count.
abbrev validate_from_first : Bool → List MsgCastVote → Result Done
validate_from_first allow [] = ok tt
validate_from_first allow (first ∷ rest) = validate_votes allow first [] [] (first ∷ rest)

unfoldable pub validate_cast_vote_batch : Bool → MsgCastVoteBatch → Result Done
validate_cast_vote_batch allow msg =
    then_check
      (reject_if (length msg.votes == 0 || ltb max_cast_vote_batch_size (length msg.votes))
        Error.invalid_field)
      (validate_from_first allow msg.votes)

abbrev pub batch_round_id : MsgCastVoteBatch → Bytes
batch_round_id msg = elim msg.votes [ [] ↦ [] | v ∷ _ ↦ v.vote_round_id ]

need_synthetic : List MsgCastVote → Result Done
need_synthetic [] = ok tt
need_synthetic (v ∷ rest) =
    then_check (reject_if (not (v.vote_comm_tree_anchor_height == 0)) Error.invalid_field)
      (need_synthetic rest)

unfoldable pub validate_delegate_and_cast_vote_batch : MsgDelegateAndCastVoteBatch → Result Done
unfolding need_synthetic
validate_delegate_and_cast_vote_batch msg = checks (
    validate_delegate_vote msg.delegation
    ∷ validate_cast_vote_batch true msg.batch
    ∷ reject_if (not (bytes_eq msg.delegation.vote_round_id (batch_round_id msg.batch)))
        Error.invalid_field
    ∷ need_synthetic msg.batch.votes
    ∷ [])

unfoldable pub validate_reveal_share : MsgRevealShare → Result Done
validate_reveal_share msg = checks (
    need_length 32 msg.share_nullifier
    ∷ need_length 64 msg.enc_share
    ∷ need_proposal_id msg.proposal_id
    ∷ validate_vote_choice_upper_bound msg.vote_decision
    ∷ need_proof msg.proof
    ∷ need_length round_id_len msg.vote_round_id
    ∷ reject_if (msg.vote_comm_tree_anchor_height == 0) Error.invalid_field
    ∷ [])

-- The loop over the proposals from index `i`.
validate_proposals_from : ℕ → List (Option Proposal) → Result Done
validate_proposals_from i [] = ok tt
validate_proposals_from i (none ∷ rest) = err Error.invalid_field
validate_proposals_from i (some p ∷ rest) =
    then_check
      (checks (
        reject_if (length p.title == 0) Error.invalid_field
        ∷ reject_if (not (p.id == uint32 (i + 1))) Error.invalid_field
        ∷ validate_proposal_options p.options
        ∷ []))
      (validate_proposals_from (suc i) rest)

unfoldable pub validate_create_voting_session : MsgCreateVotingSession → Result Done
unfolding validate_proposals_from
validate_create_voting_session msg = checks (
    reject_if (length msg.creator == 0) Error.invalid_field
    ∷ reject_if (msg.snapshot_height == 0) Error.invalid_field
    ∷ need_length 32 msg.snapshot_blockhash
    ∷ need_length 32 msg.proposals_hash
    ∷ reject_if (msg.vote_end_time == 0) Error.invalid_field
    ∷ need_length 32 msg.nullifier_imt_root
    ∷ need_length 32 msg.nc_root
    ∷ reject_if (length msg.proposals == 0 || ltb max_proposals (length msg.proposals))
        Error.invalid_field
    ∷ validate_proposals_from 0 msg.proposals
    ∷ [])

need_distinct_entries : List (ℕ × ℕ) → List TallyEntry → Result Done
need_distinct_entries seen [] = ok tt
need_distinct_entries seen (e ∷ rest) =
    then_check
      (reject_if (any (λ k. k.0 == e.proposal_id && k.1 == e.vote_decision) seen)
        Error.invalid_field)
      (need_distinct_entries ((e.proposal_id, e.vote_decision) ∷ seen) rest)

unfoldable pub validate_submit_tally : MsgSubmitTally → Result Done
unfolding need_distinct_entries
validate_submit_tally msg = checks (
    need_length round_id_len msg.vote_round_id
    ∷ reject_if (length msg.creator == 0) Error.invalid_field
    ∷ need_distinct_entries [] msg.entries
    ∷ [])
