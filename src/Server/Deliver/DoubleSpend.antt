-- ===== src/Server/Deliver/DoubleSpend.antt =====
-- Spending nullifiers across messages (x/vote/keeper/msg_server*.go).
use vote_sdk.Base.{
  pair_eq, ◌≡◌, refl, ap, ◌⊎◌, inl, inr, List, [], ◌∷◌, Bytes, Error, Result, ok, err, Action, Done,
  In, In-map, map-In, In-append,
}
use vote_sdk.Types.{Context}
use vote_sdk.Keys.{NullifierType, nullifier_key}
use vote_sdk.Kv.{KvStore}
use vote_sdk.Keeper.Tree.{get_commitment_root_at_height}
use vote_sdk.Msgs.{MsgDelegateVote, MsgCastVote, MsgDelegateAndCastVoteBatch, MsgRevealShare}
use vote_sdk.Crypto.{Curve}
use vote_sdk.Server.Voting.{
  delegate_vote, cast_vote, cast_vote_batch, delegate_and_cast_vote_batch, reveal_share,
}
use vote_sdk.Server.Deliver.{Env, Msg, commit, spends, handle, deliver, run}
use vote_sdk.Server.Deliver.Guards.{
  Absent-Present, Checks, Writes, Checks-left, Checks-right, Writes-left, Writes-right,
  Checks-or_raise-some, Writes-or_raise-some, Checks-for_each, Writes-for_each,
  Checks-check_and_set, Writes-check_and_set, Checks-check_nullifiers_unique, Writes-apply_votes,
  Writes-set_nullifier,
}
use vote_sdk.Server.Deliver.Presence.{
  Present, call_rules, keeps-validate_round_for_voting, keeps-validate_vote_decision,
  keeps-add_to_tally, keeps-increment_share_count, keeps-apply_votes, keeps-check_nullifiers_unique,
}
use vote_sdk.Server.Deliver.Kept.{key_of}
use vote_sdk.Server.Deliver.Executed.{Separate}
use vote_sdk.Server.Deliver.Runs.{run-Present}

Result-cases : (r : Result Done) → (r ≡ ok tt) ⊎ ((e : Error) × (r ≡ err e))
Result-cases (ok _) = inl refl
Result-cases (err e) = inr (e, refl)

module _ {S : Type 0} ⦃kv : KvStore S⦄ where
  -- What the handlers check and write, one lemma for each kind of nullifier.
  record Guards (key : Result Bytes) (m : Action S Done) : Type 0 where
    pub absent : Checks key m
    pub present : Writes key m

  ruleset spend_rules = (
    call_rules, keeps-check_nullifiers_unique, keeps-validate_round_for_voting,
    keeps-validate_vote_decision, keeps-add_to_tally, keeps-increment_share_count,
    keeps-apply_votes, Checks-left, Checks-right, Writes-left, Writes-right, Checks-or_raise-some,
    Writes-or_raise-some, Checks-for_each, Writes-for_each, Checks-check_and_set,
    Writes-check_and_set, Checks-check_nullifiers_unique, Writes-apply_votes, Writes-set_nullifier,
  )

  Guards-delegate :
      (m : MsgDelegateVote) (n : Bytes)
      → In n m.gov_nullifiers
      → Guards (nullifier_key NullifierType.gov m.vote_round_id n) (delegate_vote m)
  unfolding delegate_vote
  Guards-delegate m n h = record {
    absent = search spend_rules depth 40;
    present = search spend_rules depth 40;
  }

  Guards-cast :
      (m : MsgCastVote)
      → Guards
          (nullifier_key NullifierType.vote_authority_note m.vote_round_id m.van_nullifier)
          (cast_vote m)
  unfolding cast_vote get_commitment_root_at_height
  Guards-cast m = record {
    absent = search spend_rules depth 40;
    present = search spend_rules depth 40;
  }

  Guards-reveal :
      {P F : Type 0} (c : Curve P F) (ctx : Context) (m : MsgRevealShare)
      → Guards
          (nullifier_key NullifierType.share m.vote_round_id m.share_nullifier)
          (reveal_share c ctx m)
  unfolding reveal_share
  Guards-reveal c ctx m = record {
    absent = search spend_rules depth 40;
    present = search spend_rules depth 40;
  }

  Guards-votes :
      (first : MsgCastVote) (rest : List MsgCastVote) (v : MsgCastVote)
      → In v (first ∷ rest)
      → Guards
          (nullifier_key NullifierType.vote_authority_note first.vote_round_id v.van_nullifier)
          (cast_vote_batch (record { votes = first ∷ rest }))
  unfolding cast_vote_batch get_commitment_root_at_height
  Guards-votes first rest v h =
      let k = map-In (λ w. w.van_nullifier) (first ∷ rest) v h in
      record { absent = search spend_rules depth 40; present = search spend_rules depth 40 }

  Guards-batch_delegation :
      (m : MsgDelegateAndCastVoteBatch) (n : Bytes)
      → In n m.delegation.gov_nullifiers
      → Guards
          (nullifier_key NullifierType.gov m.delegation.vote_round_id n)
          (delegate_and_cast_vote_batch m)
  unfolding delegate_and_cast_vote_batch
  Guards-batch_delegation m n h = record {
    absent = search spend_rules depth 40;
    present = search spend_rules depth 40;
  }

  Guards-batch_votes :
      (m : MsgDelegateAndCastVoteBatch) (v : MsgCastVote)
      → In v m.batch.votes
      → Guards
          (nullifier_key NullifierType.vote_authority_note m.delegation.vote_round_id
            v.van_nullifier)
          (delegate_and_cast_vote_batch m)
  unfolding delegate_and_cast_vote_batch
  Guards-batch_votes m v h =
      let k = map-In (λ w. w.van_nullifier) m.batch.votes v h in
      record { absent = search spend_rules depth 40; present = search spend_rules depth 40 }

  Guards-cast_batch :
      (votes : List MsgCastVote) (x : NullifierType × Bytes × Bytes)
      → In x (spends (Msg.cast_batch (record { votes = votes })))
      → Guards (key_of x) (cast_vote_batch (record { votes = votes }))
  Guards-cast_batch [] x h = absurd h
  Guards-cast_batch (first ∷ rest) x h =
      let r = In-map _ (first ∷ rest) x h in rw r.2 (Guards-votes first rest r.0 r.1)

  Guards-both :
      (m : MsgDelegateAndCastVoteBatch) (x : NullifierType × Bytes × Bytes)
      → In x (spends (Msg.delegate_and_cast m))
      → Guards (key_of x) (delegate_and_cast_vote_batch m)
  Guards-both m x h = elim (In-append _ _ x h) [
    | inl l ↦
        let r = In-map _ m.delegation.gov_nullifiers x l in
        rw r.2 (Guards-batch_delegation m r.0 r.1)
    | inr l ↦ let r = In-map _ m.batch.votes x l in rw r.2 (Guards-batch_votes m r.0 r.1)
  ]

  Guards-handle :
      {P F : Type 0} (env : Env S P F) (ctx : Context) (m : Msg) (x : NullifierType × Bytes × Bytes)
      → In x (spends m)
      → Guards (key_of x) (handle env ctx m)
  unfolding handle
  Guards-handle env ctx (Msg.delegate m) x h =
      let r = In-map _ m.gov_nullifiers x h in rw r.2 (Guards-delegate m r.0 r.1)
  Guards-handle env ctx (Msg.cast m) x (inl e) = rw e (Guards-cast m)
  Guards-handle env ctx (Msg.cast m) x (inr h) = absurd h
  Guards-handle env ctx (Msg.cast_batch m) x h = Guards-cast_batch m.votes x h
  Guards-handle env ctx (Msg.delegate_and_cast m) x h = Guards-both m x h
  Guards-handle env ctx (Msg.reveal m) x (inl e) = rw e (Guards-reveal env.curve ctx m)
  Guards-handle env ctx (Msg.reveal m) x (inr h) = absurd h
  Guards-handle env ctx (Msg.tally m) x h = absurd h
  Guards-handle env ctx (Msg.ack m) x h = absurd h
  Guards-handle env ctx (Msg.contribute m) x h = absurd h
  Guards-handle env ctx (Msg.partial_decryption m) x h = absurd h
  Guards-handle env ctx (Msg.register m) x h = absurd h
  Guards-handle env ctx (Msg.rotate m) x h = absurd h
  Guards-handle env ctx (Msg.endorse m) x h = absurd h
  Guards-handle env ctx (Msg.clear_endorsement m) x h = absurd h
  Guards-handle env ctx (Msg.propose m) x h = absurd h
  Guards-handle env ctx (Msg.approve m) x h = absurd h

  deliver-ok :
      {P F : Type 0} (env : Env S P F) (ctx : Context) (m : Msg) (s : S)
      → (handle env ctx m s).0 ≡ ok tt
      → deliver env ctx m s ≡ (handle env ctx m s).1
  unfolding deliver
  deliver-ok env ctx m s e = ap (λ r. commit s (r, (handle env ctx m s).1)) e

  -- Where the account, bank and upgrade modules leave the entry of a nullifier alone: after a message
  -- that spends the nullifier and succeeds, and after any later messages (of all kinds but the
  -- creation of a validator), each message that spends it again (of the same type, in the same round)
  -- fails.
  pub no_double_spend :
      {P F : Type 0} (env : Env S P F) (ctx ctx' : Context) (first second : Msg)
      (x : NullifierType × Bytes × Bytes) (later : List (Context × Msg)) (s : S)
      → Separate x env.modules
      → In x (spends first)
      → In x (spends second)
      → (handle env ctx first s).0 ≡ ok tt
      → (e : Error) × ((handle env ctx' second (run env later (deliver env ctx first s))).0 ≡ err e)
  no_double_spend env ctx ctx' first second x later s apart h k e =
      let used =
        (Guards-handle env ctx first x h).present.after s (handle env ctx first s).1 tt
          (pair_eq (handle env ctx first s) tt e) in
      let start : Present (key_of x) (deliver env ctx first s) =
        rw (deliver-ok env ctx first s e) used in
      let kept = run-Present x env later (deliver env ctx first s) apart start in
      let after = run env later (deliver env ctx first s) in
      elim (Result-cases (handle env ctx' second after).0) [
        | inl q ↦ absurd (
            Absent-Present (key_of x) after
              ((Guards-handle env ctx' second x k).absent.before after
                (handle env ctx' second after).1 tt (pair_eq (handle env ctx' second after) tt q))
              kept)
        | inr r ↦ r
      ]
