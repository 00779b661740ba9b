-- ===== src/Server/Deliver/Presence.antt =====
-- The entries that handlers leave in the store (x/vote/keeper/msg_server*.go).
use vote_sdk.Base.{
  ℕ, ◌≡◌, refl, sym, ap, ◌∙◌, inl, inr, Bool, true, false, Option, none, some, List, [], ◌∷◌, Bytes,
  bytes_eq, Error, Result, ok, err, Action, Done, raise_if, or_raise, lift, ◌>>=◌, ◌>>◌, is_some,
  if◌then◌else◌, Preserves, preserves_rules, Preserves-bind, Preserves-pure, Preserves-for_each,
  arith, >>=-eq-ok,
}
use vote_sdk.Types.{Context, Value, VoteRound, Proposal, TallyEntry}
use vote_sdk.Crypto.{Curve}
use vote_sdk.Msgs.{
  MsgDelegateVote, MsgCastVote, MsgCastVoteBatch, MsgDelegateAndCastVoteBatch, MsgRevealShare,
  MsgSubmitTally, MsgAckExecutiveAuthorityKey,
}
use vote_sdk.Keys.{NullifierType}
use vote_sdk.Kv.{KvStore, kv_get, kv_set, kv_has, kv_iterator}
use vote_sdk.Keeper.Rounds.{get_vote_round, set_vote_round}
use vote_sdk.Keeper.Nullifiers.{
  has_nullifier, set_nullifier, check_and_set_nullifier, check_nullifiers_unique,
}
use vote_sdk.Keeper.Tree.{
  append_commitment, get_commitment_tree_state, set_commitment_tree_state,
  get_commitment_root_at_height,
}
use vote_sdk.Keeper.Voting.{validate_proposal_id, validate_vote_decision, validate_round_for_voting}
use vote_sdk.Keeper.Tally.{
  add_to_tally, increment_share_count, get_tally, set_tally_result, validate_tally_completeness,
  collect_non_empty_accumulators, collect_from, get_proposal_tally,
}
use vote_sdk.Keeper.Ceremony.{validate_proposer_is_creator, get_pending_round_with_ceremony}
use vote_sdk.Server.Voting.{
  delegate_vote, cast_vote, cast_vote_batch, delegate_and_cast_vote_batch, reveal_share,
  apply_votes,
}
use vote_sdk.Server.Tally.{
  PartialDecryptionWithIndex, submit_tally, submit_entry, get_partial_decryptions_for_round,
}
use vote_sdk.Server.Ceremony.{ack_executive_authority_key}

module _ {S : Type 0} ⦃kv : KvStore S⦄ where
  -- The store has an entry under a key, which a call has computed.
  unfoldable pub Present : Result Bytes → S → Type 0
  Present (ok k) s = is_some (kv.get s k) ≡ true
  Present (err _) s = ⊥

  keeps-set :
      (key : Result Bytes) (k : Bytes) (v : Value) (s : S)
      → Present key s
      → Present key (kv.set s k v)
  unfolding Present
  keeps-set (ok key) k v s h = ground (arith, kv.get-set s k key v)
  keeps-set (err _) k v s h = h

  module _ (key : Result Bytes) where
    pub keeps-kv_get : (k : Bytes) → Preserves (Present key) (kv_get k)
    unfolding kv_get
    keeps-kv_get k = search preserves_rules

    pub keeps-kv_has : (k : Bytes) → Preserves (Present key) (kv_has k)
    unfolding kv_has
    keeps-kv_has k = search preserves_rules

    pub keeps-kv_iterator :
        (k : Bytes) (e : Option Bytes) → Preserves (Present key) (kv_iterator k e)
    unfolding kv_iterator
    keeps-kv_iterator k e = search preserves_rules

    pub keeps-kv_set : (k : Bytes) (v : Value) → Preserves (Present key) (kv_set k v)
    unfolding kv_set
    keeps-kv_set k v = record { after = λ s h. keeps-set key k v s h }

    pub ruleset kv_rules =
        (preserves_rules, keeps-kv_get, keeps-kv_has, keeps-kv_iterator, keeps-kv_set)

    pub keeps-has_nullifier :
        (t : NullifierType) (id n : Bytes) → Preserves (Present key) (has_nullifier t id n)
    unfolding has_nullifier
    keeps-has_nullifier t id n = search kv_rules depth 20

    pub keeps-set_nullifier :
        (t : NullifierType) (id n : Bytes) → Preserves (Present key) (set_nullifier t id n)
    unfolding set_nullifier
    keeps-set_nullifier t id n = search kv_rules depth 20

    pub keeps-check_and_set_nullifier :
        (t : NullifierType) (id n : Bytes)
        → Preserves (Present key) (check_and_set_nullifier t id n)
    unfolding check_and_set_nullifier has_nullifier set_nullifier
    keeps-check_and_set_nullifier t id n = search kv_rules depth 40

    pub keeps-check_nullifiers_unique :
        (t : NullifierType) (id : Bytes) (ns : List Bytes)
        → Preserves (Present key) (check_nullifiers_unique t id ns)
    unfolding check_nullifiers_unique
    keeps-check_nullifiers_unique t id ns = search (kv_rules, keeps-has_nullifier) depth 20

    pub keeps-append_commitment : (id b : Bytes) → Preserves (Present key) (append_commitment id b)
    unfolding append_commitment get_commitment_tree_state set_commitment_tree_state
    keeps-append_commitment id b = search kv_rules depth 40

    pub keeps-validate_proposal_id :
        (id : Bytes) (p : ℕ) → Preserves (Present key) (validate_proposal_id id p)
    unfolding validate_proposal_id get_vote_round
    keeps-validate_proposal_id id p = search kv_rules depth 40

    pub ruleset call_rules = (
      kv_rules, keeps-has_nullifier, keeps-set_nullifier, keeps-check_and_set_nullifier,
      keeps-append_commitment, keeps-validate_proposal_id,
    )

    pub keeps-delegate_vote : (m : MsgDelegateVote) → Preserves (Present key) (delegate_vote m)
    unfolding delegate_vote
    keeps-delegate_vote m = search call_rules depth 40

    pub keeps-cast_vote : (m : MsgCastVote) → Preserves (Present key) (cast_vote m)
    unfolding cast_vote get_commitment_root_at_height
    keeps-cast_vote m = search call_rules depth 40

    pub keeps-apply_votes :
        (id : Bytes) (vs : List MsgCastVote) → Preserves (Present key) (apply_votes id vs)
    unfolding apply_votes set_nullifier
    keeps-apply_votes id vs = search call_rules depth 40

    pub keeps-cast_vote_batch : (m : MsgCastVoteBatch) → Preserves (Present key) (cast_vote_batch m)
    unfolding cast_vote_batch check_nullifiers_unique has_nullifier get_commitment_root_at_height
    keeps-cast_vote_batch m = search (call_rules, keeps-apply_votes) depth 40

    pub keeps-delegate_and_cast_vote_batch :
        (m : MsgDelegateAndCastVoteBatch) → Preserves (Present key) (delegate_and_cast_vote_batch m)
    unfolding delegate_and_cast_vote_batch check_nullifiers_unique has_nullifier set_nullifier
    keeps-delegate_and_cast_vote_batch m = search (call_rules, keeps-apply_votes) depth 40

    pub keeps-validate_round_for_voting :
        (ctx : Context) (id : Bytes) → Preserves (Present key) (validate_round_for_voting ctx id)
    unfolding validate_round_for_voting get_vote_round
    keeps-validate_round_for_voting ctx id = search call_rules depth 40

    pub keeps-validate_vote_decision :
        (id : Bytes) (p d : ℕ) → Preserves (Present key) (validate_vote_decision id p d)
    unfolding validate_vote_decision get_vote_round
    keeps-validate_vote_decision id p d = search call_rules depth 40

    pub keeps-add_to_tally :
        {P F : Type 0} (c : Curve P F) (id : Bytes) (p d : ℕ) (e : Bytes)
        → Preserves (Present key) (add_to_tally c id p d e)
    unfolding add_to_tally
    keeps-add_to_tally c id p d e = search call_rules depth 40

    pub keeps-increment_share_count :
        (id : Bytes) (p d : ℕ) → Preserves (Present key) (increment_share_count id p d)
    unfolding increment_share_count
    keeps-increment_share_count id p d = search call_rules depth 40

    pub keeps-reveal_share :
        {P F : Type 0} (c : Curve P F) (ctx : Context) (m : MsgRevealShare)
        → Preserves (Present key) (reveal_share c ctx m)
    unfolding reveal_share
    keeps-reveal_share c ctx m =
        search
          (
            call_rules, keeps-validate_round_for_voting, keeps-validate_vote_decision,
            keeps-add_to_tally, keeps-increment_share_count,
          )
          depth 40

    pub keeps-collect_from :
        (id : Bytes) (ps : List (Option Proposal)) → Preserves (Present key) (collect_from id ps)
    unfolding collect_from get_proposal_tally
    keeps-collect_from id [] = search call_rules depth 40
    keeps-collect_from id (p ∷ rest) =
        Preserves-bind (or_raise p Error.panicked) _ (search call_rules) (λ proposal.
          Preserves-bind (get_proposal_tally id proposal.id) _ (search call_rules depth 20)
            (λ tally_map.
              Preserves-bind (collect_from id rest) _ (keeps-collect_from id rest)
                (λ others. Preserves-pure _)))

    pub keeps-submit_entry :
        {P F : Type 0} (c : Curve P F) (r : VoteRound) (id : Bytes)
        (pds : List (ℕ × PartialDecryptionWithIndex)) (e : TallyEntry)
        → Preserves (Present key) (submit_entry c r id pds e)
    unfolding submit_entry get_tally set_tally_result
    keeps-submit_entry c r id pds e = search call_rules depth 40

    pub keeps-submit_tally :
        {P F : Type 0} (c : Curve P F) (op : Bytes → Option Bytes) (ctx : Context)
        (m : MsgSubmitTally)
        → Preserves (Present key) (submit_tally c op ctx m)
    unfolding submit_tally validate_proposer_is_creator get_vote_round
        get_partial_decryptions_for_round validate_tally_completeness collect_non_empty_accumulators
        set_vote_round
    keeps-submit_tally c op ctx m =
        search (call_rules, keeps-submit_entry, keeps-collect_from) depth 40

    pub keeps-ack :
        (op : Bytes → Option Bytes) (d : Bytes → Bytes → Bytes) (ctx : Context)
        (m : MsgAckExecutiveAuthorityKey)
        → Preserves (Present key) (ack_executive_authority_key op d ctx m)
    unfolding ack_executive_authority_key validate_proposer_is_creator
        get_pending_round_with_ceremony get_vote_round set_vote_round
    keeps-ack op d ctx m = search call_rules depth 40
