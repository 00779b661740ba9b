-- ===== src/Ante/Reads.antt =====
-- The validation reads the store only (x/vote/ante/validate.go, `ValidateVoteTx`).
use vote_sdk.Base.{
  ℕ, ◌≡◌, false, List, [], ◌∷◌, map, Bytes, Error, ok, lift, for_each, Preserves, Preserves-lift,
  Preserves-or_raise, Preserves-for_each, Preserves-bind, Preserves-pure, preserves_rules,
  read_step,
}
use vote_sdk.Types.{Context}
use vote_sdk.Kv.{KvStore, kv_get, kv_has}
use vote_sdk.Keys.{NullifierType}
use vote_sdk.Keeper.Ceremony.Reads.{proposer-keeps}
use vote_sdk.Crypto.{Curve}
use vote_sdk.Keeper.Rounds.{get_vote_round}
use vote_sdk.Keeper.Voting.{validate_proposal_id, validate_round_for_voting}
use vote_sdk.Keeper.Nullifiers.{check_nullifiers_unique, has_nullifier}
use vote_sdk.Keeper.Tree.{get_commitment_root_at_height}
use vote_sdk.Keeper.Tally.{validate_round_for_tally}
use vote_sdk.Msgs.{MsgCastVote, MsgDelegateVote, batch_round_id}
use vote_sdk.Ante.{
  verify_proofs, VoteMessage, Verifiers, validate_basic, votes_of, verify_signature,
  verify_signatures, anchor_root, verify_delegation, validate_round, validate_nullifiers,
  validate_vote_tx,
}

module _ {S : Type 0} ⦃kv : KvStore S⦄ {Q : S → Type 0} where
  pub reads-round : (id : Bytes) → Preserves Q (get_vote_round id)
  unfolding get_vote_round kv_get
  reads-round id = search preserves_rules depth 20

  pub reads-voting : (ctx : Context) (id : Bytes) → Preserves Q (validate_round_for_voting ctx id)
  unfolding validate_round_for_voting get_vote_round kv_get
  reads-voting ctx id = search preserves_rules depth 20

  reads-tally : (id : Bytes) → Preserves Q (validate_round_for_tally id)
  unfolding validate_round_for_tally get_vote_round kv_get
  reads-tally id = search preserves_rules depth 20

  reads-proposal : (id : Bytes) (p : ℕ) → Preserves Q (validate_proposal_id id p)
  unfolding validate_proposal_id get_vote_round kv_get
  reads-proposal id p = search preserves_rules depth 20

  pub reads-proposals :
      (votes : List MsgCastVote)
      → Preserves Q
          (for_each (λ vote. validate_proposal_id vote.vote_round_id vote.proposal_id) votes)
  reads-proposals votes =
      Preserves-for_each _ votes (λ vote. reads-proposal vote.vote_round_id vote.proposal_id)

  pub reads_unique :
      (t : NullifierType) (id : Bytes) (nfs : List Bytes)
      → Preserves Q (check_nullifiers_unique t id nfs)
  unfolding check_nullifiers_unique has_nullifier kv_has
  reads_unique t id nfs = search preserves_rules depth 20

  pub reads-root : (id : Bytes) (h : ℕ) → Preserves Q (get_commitment_root_at_height id h)
  unfolding get_commitment_root_at_height kv_get
  reads-root id h = search preserves_rules depth 20

  pub reads-anchor :
      {P F : Type 0} (c : Curve P F) (v : Verifiers) (id : Bytes) (h : ℕ) (e : Error)
      → Preserves Q (anchor_root c v id h e)
  unfolding anchor_root
  reads-anchor c v id h e =
      Preserves-bind (get_commitment_root_at_height id h) _ (reads-root id h)
        (λ f. Preserves-or_raise _ _)

module _ {S P F : Type 0} ⦃kv : KvStore S⦄ {Q : S → Type 0} (c : Curve P F) (v : Verifiers) where
  pub reads-signature :
      (key digest sig : Bytes) → Preserves Q (verify_signature {S = S} c v key digest sig)
  unfolding verify_signature
  reads-signature key digest sig = search preserves_rules depth 20

  pub reads-validate_round :
      (ctx : Context) (m : VoteMessage) → Preserves Q (validate_round c v ctx m)
  unfolding validate_round
  reads-validate_round ctx (VoteMessage.create m) = Preserves-pure tt
  reads-validate_round ctx (VoteMessage.delegate m) = reads-voting ctx m.vote_round_id
  reads-validate_round ctx (VoteMessage.cast m) = reads-voting ctx m.vote_round_id
  reads-validate_round ctx (VoteMessage.cast_batch m) = reads-voting ctx (batch_round_id m)
  reads-validate_round ctx (VoteMessage.delegate_and_cast m) =
      reads-voting ctx m.delegation.vote_round_id
  reads-validate_round ctx (VoteMessage.reveal m) = reads-voting ctx m.vote_round_id
  reads-validate_round ctx (VoteMessage.tally m) =
      Preserves-bind (validate_round_for_tally m.vote_round_id) _ (reads-tally m.vote_round_id)
        (λ _. proposer-keeps v.operator_of ctx m.creator)

  pub reads-nullifiers : (m : VoteMessage) → Preserves Q (validate_nullifiers c v m)
  unfolding validate_nullifiers
  reads-nullifiers (VoteMessage.create m) = Preserves-pure tt
  reads-nullifiers (VoteMessage.delegate m) = reads_unique _ m.vote_round_id m.gov_nullifiers
  reads-nullifiers (VoteMessage.cast m) = reads_unique _ m.vote_round_id (m.van_nullifier ∷ [])
  reads-nullifiers (VoteMessage.cast_batch m) =
      reads_unique _ (batch_round_id m) (map (λ vote. vote.van_nullifier) m.votes)
  reads-nullifiers (VoteMessage.delegate_and_cast m) =
      Preserves-bind
        (check_nullifiers_unique NullifierType.gov m.delegation.vote_round_id
          m.delegation.gov_nullifiers)
        _ (reads_unique _ m.delegation.vote_round_id m.delegation.gov_nullifiers)
        (λ _.
          reads_unique _ m.delegation.vote_round_id
            (map (λ vote. vote.van_nullifier) m.batch.votes))
  reads-nullifiers (VoteMessage.reveal m) = reads_unique _ m.vote_round_id (m.share_nullifier ∷ [])
  reads-nullifiers (VoteMessage.tally m) = Preserves-pure tt

module _ {S P F : Type 0} ⦃kv : KvStore S⦄ {Q : S → Type 0} (c : Curve P F) (v : Verifiers) where
  pub reads-signatures :
      (digest : Bytes) (votes : List MsgCastVote)
      → Preserves Q (verify_signatures {S = S} c v digest votes)
  unfolding verify_signatures
  reads-signatures digest votes =
      Preserves-for_each _ votes (λ vote. reads-signature c v vote.r_vpk digest vote.vote_auth_sig)

  pub reads-delegation : (m : MsgDelegateVote) → Preserves Q (verify_delegation c v m)
  unfolding verify_delegation get_vote_round kv_get
  reads-delegation m = search preserves_rules depth 30

module _ {S P F : Type 0} ⦃kv : KvStore S⦄ (c : Curve P F) (v : Verifiers) where
  -- The steps of an accepted transaction, each on the store before it.
  pub steps :
      (ctx : Context) (msg : VoteMessage) (s t : S)
      → validate_vote_tx c v false ctx msg s ≡ (ok tt, t)
      → (validate_round c v ctx msg s ≡ (ok tt, s))
        × (for_each
              (λ vote. validate_proposal_id vote.vote_round_id vote.proposal_id)
              (votes_of msg)
              s
            ≡ (ok tt, s))
        × (validate_nullifiers c v msg s ≡ (ok tt, s))
        × (verify_proofs c v msg s ≡ (ok tt, t))
  unfolding validate_vote_tx
  steps ctx msg s t h =
      let (_, a1, k1) = read_step (lift (validate_basic msg)) _ s t (Preserves-lift _) h in
      let (_, a2, k2) =
        read_step (validate_round c v ctx msg) _ s t (reads-validate_round c v ctx msg) k1 in
      let (_, a3, k3) =
        read_step
          (for_each (λ vote. validate_proposal_id vote.vote_round_id vote.proposal_id)
            (votes_of msg))
          _ s t (reads-proposals (votes_of msg)) k2 in
      let (_, a4, k4) =
        read_step (validate_nullifiers c v msg) _ s t (reads-nullifiers c v msg) k3 in
      (a2, a3, a4, k4)
