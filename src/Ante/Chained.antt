-- ===== src/Ante/Chained.antt =====
-- Accepted transactions of a delegation with votes (x/vote/ante/validate.go, `ValidateVoteTx`).
use vote_sdk.Base.{
  refl, subst, length, leb, arith, ℕ, ◌≡◌, true, false, some, List, [], ◌∷◌, Bytes, Error, ok,
  or_raise, or_raise-ok, get_elem?, read_step, lift-ok, Preserves-or_raise,
}
use vote_sdk.Types.{VoteRound, Context}
use vote_sdk.Kv.{KvStore}
use vote_sdk.Crypto.{Curve}
use vote_sdk.Keeper.Rounds.{get_vote_round}
use vote_sdk.Msgs.{MsgCastVote, MsgDelegateAndCastVoteBatch}
use vote_sdk.Msgs.Sighash.{delegate_and_cast_payload, compute_delegate_and_cast_vote_batch_sighash}
use vote_sdk.Ante.{
  VoteMessage, Verifiers, commitment_inputs, verify_signatures, verify_chain, verify_delegation,
  verify_delegate_and_cast_vote_batch, verify_proofs, validate_vote_tx,
}
use vote_sdk.Ante.Reads.{reads-round, reads-delegation, reads-signatures}
use vote_sdk.Ante.Chain.{expected_root, verify_chain-expected_root, signatures-hold}
use vote_sdk.Ante.Reads.{steps}

module _ (v : Verifiers) where
  -- What holds for the vote at position `i` of an accepted batch, from the root of the first vote.
  pub record VoteChecked (digest root ea_pk : Bytes) (votes : List MsgCastVote) (i : ℕ)
      (vote : MsgCastVote) : Type 0 where
    pub signed : v.signature vote.r_vpk digest vote.vote_auth_sig ≡ true
    pub proof_root : Bytes
    pub chained : expected_root v root votes i ≡ some proof_root
    pub proven : v.vote_commitment vote.proof (commitment_inputs vote proof_root ea_pk) ≡ true

  sighash-payload :
      (msg : MsgDelegateAndCastVoteBatch) (i : ℕ) (vote : MsgCastVote)
      → get_elem? msg.batch.votes i ≡ some vote
      → compute_delegate_and_cast_vote_batch_sighash v.blake2b_256 msg
        ≡ v.blake2b_256 (delegate_and_cast_payload msg)
  unfolding compute_delegate_and_cast_vote_batch_sighash
  sighash-payload msg i vote e = rw (some_votes msg.batch.votes i e) refl
    where
      some_votes :
          (votes : List MsgCastVote) (i : ℕ)
          → get_elem? votes i ≡ some vote
          → leb (length votes) 0 ≡ false
      some_votes [] i e = cc
      some_votes (x ∷ rest) i e = ground arith

module _ {S P F : Type 0} ⦃kv : KvStore S⦄ (c : Curve P F) (v : Verifiers) where
  checked :
      (digest root ea_pk : Bytes) (votes : List MsgCastVote) (i : ℕ) (vote : MsgCastVote) (s t : S)
      → verify_signatures c v digest votes s ≡ (ok tt, t)
      → verify_chain v ea_pk root votes ≡ ok tt
      → get_elem? votes i ≡ some vote
      → VoteChecked v digest root ea_pk votes i vote
  unfolding verify_signatures
  checked digest root ea_pk votes i vote s t h k e =
      let (r, chained, p) = verify_chain-expected_root v ea_pk root votes i vote k e in
      record {
        signed = signatures-hold c v digest votes s t i vote h e;
        proof_root = r;
        chained = chained;
        proven = p;
      }

  -- In an accepted delegation with a batch of votes, the signature of each vote verifies over the hash
  -- of the message's payload; the first is proved against the root of the delegation's new note, and every later one
  -- against the root of the note that the vote before it makes.
  pub validate_vote_tx-chained :
      (ctx : Context) (msg : MsgDelegateAndCastVoteBatch) (s t : S) (i : ℕ) (vote : MsgCastVote)
      → validate_vote_tx c v false ctx (VoteMessage.delegate_and_cast msg) s ≡ (ok tt, t)
      → get_elem? msg.batch.votes i ≡ some vote
      → (round : VoteRound) × (root : Bytes) × (get_vote_round msg.delegation.vote_round_id s
          ≡ (ok round, s))
        × (v.single_leaf_root msg.delegation.van_cmx ≡ some root)
        × VoteChecked v
            (v.blake2b_256 (delegate_and_cast_payload msg))
            root
            round.ea_pk
            msg.batch.votes
            i
            vote
  unfolding verify_proofs verify_delegate_and_cast_vote_batch
  validate_vote_tx-chained ctx msg s t i vote h e =
      let (_, _, _, p) = steps c v ctx (VoteMessage.delegate_and_cast msg) s t h in
      let digest = compute_delegate_and_cast_vote_batch_sighash v.blake2b_256 msg in
      let (_, b1, k1) =
        read_step (verify_signatures c v digest msg.batch.votes) _ s t
          (reads-signatures c v digest msg.batch.votes) p in
      let (_, b2, k2) =
        read_step (verify_delegation c v msg.delegation) _ s t (reads-delegation c v msg.delegation)
          k1 in
      let (round, b3, k3) =
        read_step (get_vote_round msg.delegation.vote_round_id) _ s t
          (reads-round msg.delegation.vote_round_id) k2 in
      let (root, b4, k4) =
        read_step (or_raise (v.single_leaf_root msg.delegation.van_cmx) Error.external) _ s t
          (Preserves-or_raise _ _) k3 in
      (
        round,
        root,
        b3,
        (or_raise-ok (v.single_leaf_root msg.delegation.van_cmx) Error.external s s root b4).0,
        subst (λ d. VoteChecked v d root round.ea_pk msg.batch.votes i vote)
            (sighash-payload v msg i vote e)
            (checked digest root round.ea_pk msg.batch.votes i vote s s b1
              (lift-ok (verify_chain v round.ea_pk root msg.batch.votes) tt s t k4) e),
      )
