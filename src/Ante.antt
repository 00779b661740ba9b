-- ===== src/Ante.antt =====
-- The validation of voters' transactions before their handlers (x/vote/ante/validate.go).
pub mod Reads
pub mod Chain
pub mod Checked
pub mod Chained
use vote_sdk.Base.{
  ℕ, Bool, true, false, not, Option, none, some, List, [], ◌∷◌, map, Bytes, Error, Result, ok, err,
  Action, Done, lift, pure, raise_if, or_raise, ◌>>=◌, ◌>>◌, for_each, length, if◌then◌else◌,
  then_check, reject_if,
}
use mathlib.Core.Option
use vote_sdk.Types.{Value, VoteRound, Context, as_raw}
use vote_sdk.Kv.{KvStore}
use vote_sdk.Keys.{NullifierType}
use vote_sdk.Crypto.{Curve}
use vote_sdk.Crypto.ElGamal.{and_then, unmarshal_public_key}
use vote_sdk.Msgs.{
  MsgDelegateVote, MsgCastVote, MsgCastVoteBatch, MsgDelegateAndCastVoteBatch, MsgRevealShare,
  MsgSubmitTally, MsgCreateVotingSession, batch_round_id, validate_delegate_vote,
  validate_cast_vote, validate_cast_vote_batch, validate_delegate_and_cast_vote_batch,
  validate_reveal_share, validate_create_voting_session, validate_submit_tally,
}
use vote_sdk.Msgs.Sighash.{
  compute_cast_vote_sighash, compute_cast_vote_batch_sighash,
  compute_delegate_and_cast_vote_batch_sighash,
}
use vote_sdk.Keeper.Rounds.{get_vote_round}
use vote_sdk.Keeper.Voting.{validate_proposal_id, validate_round_for_voting}
use vote_sdk.Keeper.Nullifiers.{check_nullifiers_unique}
use vote_sdk.Keeper.Tree.{get_commitment_root_at_height}
use vote_sdk.Keeper.Tally.{validate_round_for_tally}
use vote_sdk.Keeper.Ceremony.{validate_proposer_is_creator}
use vote_sdk.Server.Contribute.{as_error}

pub data VoteMessage : Type 0 where
  create : MsgCreateVotingSession → VoteMessage
  delegate : MsgDelegateVote → VoteMessage
  cast : MsgCastVote → VoteMessage
  cast_batch : MsgCastVoteBatch → VoteMessage
  delegate_and_cast : MsgDelegateAndCastVoteBatch → VoteMessage
  reveal : MsgRevealShare → VoteMessage
  tally : MsgSubmitTally → VoteMessage

pub record DelegationInputs : Type 0 where
  pub rk : Bytes
  pub signed_note_nullifier : Bytes
  pub cmx_new : Bytes
  pub van_cmx : Bytes
  pub gov_nullifiers : List Bytes
  pub vote_round_id : Bytes
  pub nc_root : Bytes
  pub nullifier_imt_root : Bytes

pub record VoteCommitmentInputs : Type 0 where
  pub van_nullifier : Bytes
  pub r_vpk : Bytes
  pub vote_authority_note_new : Bytes
  pub vote_commitment : Bytes
  pub proposal_id : ℕ
  pub vote_round_id : Bytes
  pub anchor_height : ℕ
  pub vote_comm_tree_root : Bytes
  pub ea_pk : Bytes

pub record VoteShareInputs : Type 0 where
  pub share_nullifier : Bytes
  pub enc_share : Bytes
  pub proposal_id : ℕ
  pub vote_decision : ℕ
  pub vote_round_id : Bytes
  pub anchor_height : ℕ
  pub vote_comm_tree_root : Bytes

-- What Rust and the SDK compute: the RedPallas and Halo 2 verifiers, the sighash of a delegation's
-- effects, the root of a tree of one leaf, BLAKE2b-256, and the operator of a proposer.
pub record Verifiers : Type 0 where
  pub signature : Bytes → Bytes → Bytes → Bool
  pub delegation : Bytes → DelegationInputs → Bool
  pub vote_commitment : Bytes → VoteCommitmentInputs → Bool
  pub vote_share : Bytes → VoteShareInputs → Bool
  pub delegation_sighash : Bytes → Option Bytes
  pub single_leaf_root : Bytes → Option Bytes
  pub blake2b_256 : Bytes → Bytes
  pub operator_of : Bytes → Option Bytes

abbrev pub validate_basic : VoteMessage → Result Done
validate_basic (VoteMessage.create m) = validate_create_voting_session m
validate_basic (VoteMessage.delegate m) = validate_delegate_vote m
validate_basic (VoteMessage.cast m) = validate_cast_vote false m
validate_basic (VoteMessage.cast_batch m) = validate_cast_vote_batch false m
validate_basic (VoteMessage.delegate_and_cast m) = validate_delegate_and_cast_vote_batch m
validate_basic (VoteMessage.reveal m) = validate_reveal_share m
validate_basic (VoteMessage.tally m) = validate_submit_tally m

-- The votes of a message, whose proposals are checked.
abbrev pub votes_of : VoteMessage → List MsgCastVote
votes_of (VoteMessage.cast m) = m ∷ []
votes_of (VoteMessage.cast_batch m) = m.votes
votes_of (VoteMessage.delegate_and_cast m) = m.batch.votes
votes_of _ = []

abbrev pub commitment_inputs : MsgCastVote → Bytes → Bytes → VoteCommitmentInputs
commitment_inputs msg root ea_pk = record {
  van_nullifier = msg.van_nullifier;
  r_vpk = msg.r_vpk;
  vote_authority_note_new = msg.vote_authority_note_new;
  vote_commitment = msg.vote_commitment;
  proposal_id = msg.proposal_id;
  vote_round_id = msg.vote_round_id;
  anchor_height = msg.vote_comm_tree_anchor_height;
  vote_comm_tree_root = root;
  ea_pk = ea_pk;
}

abbrev pub delegation_inputs : MsgDelegateVote → VoteRound → DelegationInputs
delegation_inputs msg round = record {
  rk = msg.rk;
  signed_note_nullifier = msg.signed_note_nullifier;
  cmx_new = msg.cmx_new;
  van_cmx = msg.van_cmx;
  gov_nullifiers = msg.gov_nullifiers;
  vote_round_id = msg.vote_round_id;
  nc_root = round.nc_root;
  nullifier_imt_root = round.nullifier_imt_root;
}

abbrev pub share_inputs : MsgRevealShare → Bytes → VoteShareInputs
share_inputs msg root = record {
  share_nullifier = msg.share_nullifier;
  enc_share = msg.enc_share;
  proposal_id = msg.proposal_id;
  vote_decision = msg.vote_decision;
  vote_round_id = msg.vote_round_id;
  anchor_height = msg.vote_comm_tree_anchor_height;
  vote_comm_tree_root = root;
}

abbrev or_external : Option Bytes → Result Bytes
or_external none = err Error.external
or_external (some b) = ok b

module _ (v : Verifiers) where
  unfoldable pub verify_vote_commitment_proof : MsgCastVote → Bytes → Bytes → Result Done
  verify_vote_commitment_proof msg root ea_pk =
      reject_if (not (v.vote_commitment msg.proof (commitment_inputs msg root ea_pk)))
        Error.invalid_proof

  -- The loop over the proofs of a batch: the next one has the root `proof_root`.
  unfoldable pub verify_chain : Bytes → Bytes → List MsgCastVote → Result Done
  unfolding verify_vote_commitment_proof
  verify_chain ea_pk proof_root [] = ok tt
  verify_chain ea_pk proof_root (vote ∷ []) = verify_vote_commitment_proof vote proof_root ea_pk
  verify_chain ea_pk proof_root (vote ∷ next ∷ rest) =
      then_check (verify_vote_commitment_proof vote proof_root ea_pk) (
        and_then (or_external (v.single_leaf_root vote.vote_authority_note_new))
          (λ root. verify_chain ea_pk root (next ∷ rest)))

module _ {S P F : Type 0} ⦃kv : KvStore S⦄ (c : Curve P F) (v : Verifiers) where
  -- A key that decodes, and the signature under it.
  unfoldable pub verify_signature : Bytes → Bytes → Bytes → Action S Done
  unfolding ◌>>=◌
  verify_signature key digest sig = do
    lift (as_error Error.invalid_signature (unmarshal_public_key c key))
    raise_if (not (v.signature key digest sig)) Error.invalid_signature

  unfoldable pub verify_signatures : Bytes → List MsgCastVote → Action S Done
  unfolding ◌>>=◌ for_each verify_signature
  verify_signatures digest votes =
      for_each (λ vote. verify_signature vote.r_vpk digest vote.vote_auth_sig) votes

  -- The stored root at an anchor height; the value under such a key is bytes.
  unfoldable pub anchor_root : Bytes → ℕ → Error → Action S Bytes
  unfolding ◌>>=◌
  anchor_root round_id height missing = do
    found ← get_commitment_root_at_height round_id height
    or_raise (Option.bind found as_raw) missing

  unfoldable pub verify_delegation : MsgDelegateVote → Action S Done
  unfolding ◌>>=◌
  verify_delegation msg = do
    lift (as_error Error.invalid_signature (unmarshal_public_key c msg.rk))
    sighash ← or_raise (v.delegation_sighash msg.tx1_effects) Error.invalid_field
    raise_if (not (v.signature msg.rk sighash msg.spend_auth_sig)) Error.invalid_signature
    round ← get_vote_round msg.vote_round_id
    raise_if (not (v.delegation msg.proof (delegation_inputs msg round))) Error.invalid_proof

  unfoldable pub verify_cast_vote : MsgCastVote → Action S Done
  unfolding ◌>>=◌ verify_signature anchor_root
  verify_cast_vote msg = do
    verify_signature msg.r_vpk (compute_cast_vote_sighash v.blake2b_256 msg) msg.vote_auth_sig
    root ←
        anchor_root msg.vote_round_id msg.vote_comm_tree_anchor_height Error.invalid_anchor_height
    round ← get_vote_round msg.vote_round_id
    lift (verify_vote_commitment_proof v msg root round.ea_pk)

  -- The proofs of a batch; `msg.Votes[0]` panics on a batch without votes.
  unfoldable pub verify_batch_proofs : List MsgCastVote → Action S Done
  unfolding ◌>>=◌ anchor_root
  verify_batch_proofs [] = lift (err Error.panicked)
  verify_batch_proofs (first ∷ rest) = do
    root ←
        anchor_root first.vote_round_id first.vote_comm_tree_anchor_height
          Error.invalid_anchor_height
    round ← get_vote_round first.vote_round_id
    lift (verify_chain v round.ea_pk root (first ∷ rest))

  unfoldable pub verify_cast_vote_batch : MsgCastVoteBatch → Action S Done
  unfolding ◌>>=◌ verify_signatures verify_batch_proofs
  verify_cast_vote_batch msg = do
    verify_signatures (compute_cast_vote_batch_sighash v.blake2b_256 msg) msg.votes
    verify_batch_proofs msg.votes

  unfoldable pub verify_delegate_and_cast_vote_batch : MsgDelegateAndCastVoteBatch → Action S Done
  unfolding ◌>>=◌ verify_signatures verify_delegation
  verify_delegate_and_cast_vote_batch msg = do
    verify_signatures (compute_delegate_and_cast_vote_batch_sighash v.blake2b_256 msg)
        msg.batch.votes
    verify_delegation msg.delegation
    round ← get_vote_round msg.delegation.vote_round_id
    proof_root ← or_raise (v.single_leaf_root msg.delegation.van_cmx) Error.external
    lift (verify_chain v round.ea_pk proof_root msg.batch.votes)

  unfoldable pub verify_reveal_share : MsgRevealShare → Action S Done
  unfolding ◌>>=◌ anchor_root
  verify_reveal_share msg = do
    root ← anchor_root msg.vote_round_id msg.vote_comm_tree_anchor_height Error.invalid_proof
    raise_if (not (v.vote_share msg.proof (share_inputs msg root))) Error.invalid_proof

  unfoldable pub verify_proofs : VoteMessage → Action S Done
  unfolding verify_delegation verify_cast_vote verify_cast_vote_batch
      verify_delegate_and_cast_vote_batch verify_reveal_share
  verify_proofs (VoteMessage.create m) = pure tt
  verify_proofs (VoteMessage.delegate m) = verify_delegation m
  verify_proofs (VoteMessage.cast m) = verify_cast_vote m
  verify_proofs (VoteMessage.cast_batch m) = verify_cast_vote_batch m
  verify_proofs (VoteMessage.delegate_and_cast m) = verify_delegate_and_cast_vote_batch m
  verify_proofs (VoteMessage.reveal m) = verify_reveal_share m
  verify_proofs (VoteMessage.tally m) = pure tt

  -- The stateless checks leave only round ids of 32 bytes, so that only a new session has none.
  unfoldable pub validate_round : Context → VoteMessage → Action S Done
  unfolding ◌>>=◌
  validate_round ctx (VoteMessage.create m) = pure tt
  validate_round ctx (VoteMessage.delegate m) = validate_round_for_voting ctx m.vote_round_id
  validate_round ctx (VoteMessage.cast m) = validate_round_for_voting ctx m.vote_round_id
  validate_round ctx (VoteMessage.cast_batch m) = validate_round_for_voting ctx (batch_round_id m)
  validate_round ctx (VoteMessage.delegate_and_cast m) =
      validate_round_for_voting ctx m.delegation.vote_round_id
  validate_round ctx (VoteMessage.reveal m) = validate_round_for_voting ctx m.vote_round_id
  validate_round ctx (VoteMessage.tally m) = do
    validate_round_for_tally m.vote_round_id
    validate_proposer_is_creator v.operator_of ctx m.creator

  unfoldable pub validate_nullifiers : VoteMessage → Action S Done
  unfolding ◌>>=◌
  validate_nullifiers (VoteMessage.create m) = pure tt
  validate_nullifiers (VoteMessage.delegate m) =
      check_nullifiers_unique NullifierType.gov m.vote_round_id m.gov_nullifiers
  validate_nullifiers (VoteMessage.cast m) =
      check_nullifiers_unique NullifierType.vote_authority_note m.vote_round_id
        (m.van_nullifier ∷ [])
  validate_nullifiers (VoteMessage.cast_batch m) =
      check_nullifiers_unique NullifierType.vote_authority_note (batch_round_id m)
        (map (λ vote. vote.van_nullifier) m.votes)
  validate_nullifiers (VoteMessage.delegate_and_cast m) = do
    check_nullifiers_unique NullifierType.gov m.delegation.vote_round_id m.delegation.gov_nullifiers
    check_nullifiers_unique NullifierType.vote_authority_note m.delegation.vote_round_id
        (map (λ vote. vote.van_nullifier) m.batch.votes)
  validate_nullifiers (VoteMessage.reveal m) =
      check_nullifiers_unique NullifierType.share m.vote_round_id (m.share_nullifier ∷ [])
  validate_nullifiers (VoteMessage.tally m) = pure tt

  unfoldable pub validate_vote_tx : Bool → Context → VoteMessage → Action S Done
  unfolding ◌>>=◌ for_each validate_round validate_nullifiers verify_proofs
  validate_vote_tx is_recheck ctx msg = do
    lift (validate_basic msg)
    validate_round ctx msg
    for_each (λ vote. validate_proposal_id vote.vote_round_id vote.proposal_id) (votes_of msg)
    validate_nullifiers msg
    if is_recheck then pure tt else verify_proofs msg
