-- ===== src/Server/Contribute/Recorded.antt =====
-- Accepted contributions (x/vote/keeper/msg_server_ceremony.go, `ContributeDKG` and `finalizeDKG`).
use vote_sdk.Base.{
  ℕ, ◌-◌, ◌≡◌, sym, ap, ◌∙◌, subst, true, false, not, Option, [], Bytes, Error, Result, ok, err,
  lift, raise_if, ◌==◌, ==_iff, length, is_some, arith, not-false, raise_if-false, read_step,
  lift-ok, pure-ok, Preserves, Preserves-lift, Preserves-raise_if, preserves_rules,
}
use vote_sdk.Types.{VoteRound, SessionStatus, CeremonyStatus, Context, is_pending}
use vote_sdk.Kv.{KvStore}
use vote_sdk.Keeper.Ceremony.Reads.{pending-eq, proposer-keeps, pending-keeps}
use vote_sdk.Crypto.{Curve}
use vote_sdk.Crypto.Proofs.{Scalars, verify_constant_term_proof}
use vote_sdk.Keeper.Rounds.Stored.{get-set_vote_round, round-keeps}
use vote_sdk.Keeper.Rounds.{get_vote_round, same_ceremony}
use vote_sdk.Keeper.Ceremony.{
  validate_proposer_is_creator, get_pending_round_with_ceremony, find_validator_in_round_ceremony,
  find_contribution_in_round, threshold_for_n,
}
use vote_sdk.Server.Decrypt.Proven.{as_error-ok}
use vote_sdk.Server.Contribute.{
  MsgContributeDkg, as_error, or_invalid_threshold, check_points, check_payloads, with_contribution,
  after_contribution, check_contribution, contribute_dkg,
}
use vote_sdk.Server.Contribute.Payloads.{check_payloads-ToOthers}
use vote_sdk.Server.Contribute.Dealing.{Contributed, after_contribution-Followed}

registering-eq :
    (c : CeremonyStatus)
    → not (same_ceremony c CeremonyStatus.registering) ≡ false
    → c ≡ CeremonyStatus.registering
registering-eq c h = ground arith

or_invalid_threshold-ok : (r : Result ℕ) (t : ℕ) → or_invalid_threshold r ≡ ok t → r ≡ ok t
or_invalid_threshold-ok (ok a) t h = h
or_invalid_threshold-ok (err e) t h = cc

module _ {S P F : Type 0} ⦃kv : KvStore S⦄ (c : Curve P F) (sc : Scalars F) where
  reads-contribution :
      {Q : S → Type 0} (chain_id : Bytes) (msg : MsgContributeDkg) (round : VoteRound)
      → Preserves Q (check_contribution {S = S} c sc chain_id msg round)
  unfolding check_contribution
  reads-contribution chain_id msg round = search preserves_rules depth 30

  registering_round :
      (id : Bytes) (round : VoteRound) (s t : S)
      → get_pending_round_with_ceremony id CeremonyStatus.registering s ≡ (ok round, t)
      → (get_vote_round id s ≡ (ok round, s))
        × (round.status ≡ SessionStatus.pending)
        × (round.ceremony_status ≡ CeremonyStatus.registering)
  unfolding get_pending_round_with_ceremony
  registering_round id round s t h =
      let (r, e1, k1) = read_step (get_vote_round id) _ s t (round-keeps id) h in
      let (_, e2, k2) =
        read_step (raise_if (not (is_pending r.status)) Error.ceremony_wrong_status) _ s t
          (Preserves-raise_if _ _) k1 in
      let (_, e3, k3) =
        read_step
          (raise_if (not (same_ceremony r.ceremony_status CeremonyStatus.registering))
            Error.ceremony_wrong_status)
          _ s t (Preserves-raise_if _ _) k2 in
      let q : r ≡ round = sym (pure-ok r round s t k3).0 in
      (
        subst (λ x. get_vote_round id s ≡ (ok x, s)) q e1,
        subst (λ x. x.status ≡ SessionStatus.pending) q
            (pending-eq r.status (raise_if-false (not (is_pending r.status)) _ s s e2).0),
        subst (λ x. x.ceremony_status ≡ CeremonyStatus.registering) q
            (registering-eq r.ceremony_status
              (raise_if-false (not (same_ceremony r.ceremony_status CeremonyStatus.registering)) _ s
                s e3).0),
      )

  checks-hold :
      (chain_id : Bytes) (msg : MsgContributeDkg) (round : VoteRound) (s : S) (threshold : ℕ)
      → check_contribution c sc chain_id msg round s ≡ (ok threshold, s)
      → (is_some (find_validator_in_round_ceremony round msg.creator) ≡ true)
        × (is_some (find_contribution_in_round round msg.creator) ≡ false)
        × (threshold_for_n (length round.ceremony_validators) ≡ ok (length msg.feldman_commitments))
        × (length msg.payloads ≡ length round.ceremony_validators - 1)
        × (check_payloads c sc round msg.creator [] msg.payloads ≡ ok tt)
        × (verify_constant_term_proof c sc msg.constant_term_proof chain_id msg.vote_round_id
              msg.creator msg.feldman_commitments
            ≡ ok tt)
  unfolding check_contribution
  checks-hold chain_id msg round s threshold h =
      let (_, _, k1) =
        read_step (raise_if (length round.ceremony_validators == 0) Error.ceremony_wrong_status) _ s
          s (Preserves-raise_if _ _) h in
      let (_, a2, k2) =
        read_step
          (raise_if (not (is_some (find_validator_in_round_ceremony round msg.creator)))
            Error.not_registered_validator)
          _ s s (Preserves-raise_if _ _) k1 in
      let (_, a3, k3) =
        read_step
          (raise_if (is_some (find_contribution_in_round round msg.creator))
            Error.duplicate_contribution)
          _ s s (Preserves-raise_if _ _) k2 in
      let (n, a4, k4) =
        read_step (lift (or_invalid_threshold (threshold_for_n (length round.ceremony_validators))))
          _ s s (Preserves-lift _) k3 in
      let (_, a5, k5) =
        read_step (raise_if (not (length msg.feldman_commitments == n)) Error.invalid_threshold) _ s
          s (Preserves-raise_if _ _) k4 in
      let (_, _, k6) =
        read_step (lift (check_points c sc msg.feldman_commitments)) _ s s (Preserves-lift _) k5 in
      let (_, a7, k7) =
        read_step
          (raise_if (not (length msg.payloads == length round.ceremony_validators - 1))
            Error.payload_mismatch)
          _ s s (Preserves-raise_if _ _) k6 in
      let (_, a8, k8) =
        read_step (lift (check_payloads c sc round msg.creator [] msg.payloads)) _ s s
          (Preserves-lift _) k7 in
      let proof =
        verify_constant_term_proof c sc msg.constant_term_proof chain_id msg.vote_round_id
          msg.creator msg.feldman_commitments in
      let (_, a9, _) =
        read_step (lift (as_error Error.invalid_field proof)) _ s s (Preserves-lift _) k8 in
      let m =
        (==_iff (length msg.feldman_commitments) n).0
          (not-false _ (raise_if-false (not (length msg.feldman_commitments == n)) _ s s a5).0) in
      (
        not-false _
            (raise_if-false (not (is_some (find_validator_in_round_ceremony round msg.creator))) _ s
              s a2).0,
        (raise_if-false (is_some (find_contribution_in_round round msg.creator)) _ s s a3).0,
        or_invalid_threshold-ok _ n (
              lift-ok (or_invalid_threshold (threshold_for_n (length round.ceremony_validators))) n
                s s a4)
            ∙ ap ok (sym m),
        (==_iff (length msg.payloads) (length round.ceremony_validators - 1)).0 (
            not-false _
              (raise_if-false (not (length msg.payloads == length round.ceremony_validators - 1)) _
                s s a7).0),
        lift-ok (check_payloads c sc round msg.creator [] msg.payloads) tt s s a8,
        as_error-ok Error.invalid_field proof
            (lift-ok (as_error Error.invalid_field proof) tt s s a9),
      )

  pub contribute_dkg-Contributed :
      (op : Bytes → Option Bytes) (chain_id : Bytes) (ctx : Context) (msg : MsgContributeDkg)
      (s t : S)
      → contribute_dkg c sc op chain_id ctx msg s ≡ (ok tt, t)
      → (round : VoteRound) × (next : VoteRound) × (get_vote_round msg.vote_round_id s
          ≡ (ok round, s))
        × (get_vote_round round.vote_round_id t ≡ (ok next, t))
        × Contributed c sc chain_id msg round next
  unfolding contribute_dkg with_contribution
  contribute_dkg-Contributed op chain_id ctx msg s t h =
      let (_, _, k1) =
        read_step (validate_proposer_is_creator op ctx msg.creator) _ s t
          (proposer-keeps op ctx msg.creator) h in
      let (round, a2, k2) =
        read_step (get_pending_round_with_ceremony msg.vote_round_id CeremonyStatus.registering) _ s
          t (pending-keeps msg.vote_round_id CeremonyStatus.registering) k1 in
      let (threshold, a3, k3) =
        read_step (check_contribution c sc chain_id msg round) _ s t
          (reads-contribution chain_id msg round) k2 in
      let step =
        after_contribution c sc ctx msg.creator (with_contribution c sc msg round)
          (length round.ceremony_validators) threshold in
      let (next, a4, k4) = read_step (lift step) _ s t (Preserves-lift _) k3 in
      let (g, p, reg) = registering_round msg.vote_round_id round s s a2 in
      let (member, first, enough, each, payloads, proof) =
        checks-hold chain_id msg round s threshold a3 in
      let to_others = check_payloads-ToOthers c sc round msg.creator [] msg.payloads payloads in
      let (id, d, all) =
        after_contribution-Followed c sc ctx msg.creator (with_contribution c sc msg round) next
          (length round.ceremony_validators) threshold reg (lift-ok step next s s a4) in
      (
        round,
        next,
        g,
        subst (λ i. get_vote_round i t ≡ (ok next, t)) id (get-set_vote_round next s t k4),
        record {
          registering = reg;
          pending = p;
          member = member;
          first_time = first;
          enough_commitments = enough;
          payload_count = each;
          for_others = to_others.others;
          no_repeat = to_others.distinct;
          proven = proof;
          contributed = d;
          dealt_if_all = all;
        },
      )
