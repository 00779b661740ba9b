-- ===== src/Server/Voting/Reveal.antt =====
-- When a share is counted (x/vote/keeper/msg_server_tally_decrypt.go, `RevealShare`).
use vote_sdk.Base.{
  raise_if-false, lift-ok, ℕ, ◌-◌, ◌≤◌, ◌<◌, ◌≡◌, refl, ap, false, not, Option, none, some, Bytes,
  Error, ok, raise_if, >>=-eq-ok, pair_eq, arith, leb, length, get_elem?, is_negative, to_uint64,
  Preserves, preserves_rules,
}
use vote_sdk.Types.{VoteRound, Proposal, SessionStatus, is_active, Context}
use vote_sdk.Kv.{KvStore, kv_get}
use vote_sdk.Crypto.{Curve}
use vote_sdk.Keeper.Rounds.{get_vote_round}
use vote_sdk.Keeper.Voting.{
  validate_proposal_id, validate_vote_decision, validate_round_for_voting, validate_vote_choice,
  check_choice, bad_proposal_id,
}
use vote_sdk.Msgs.{MsgRevealShare}
use vote_sdk.Server.Voting.{reveal_share}

check_choice-ok :
    (p : Option (Option Proposal)) (d : ℕ)
    → check_choice p d ≡ ok tt
    → (proposal : Proposal) × (p ≡ some (some proposal)) × (d < length proposal.options)
unfolding validate_vote_choice
check_choice-ok none d h = cc
check_choice-ok (some none) d h = cc
check_choice-ok (some (some p)) d h = (p, refl, ground arith)

active-eq : (s : SessionStatus) → not (is_active s) ≡ false → s ≡ SessionStatus.active
active-eq s h = ground arith

module _ {S : Type 0} ⦃kv : KvStore S⦄ where
  get_vote_round-state : (u : S) (id : Bytes) → Preserves (λ t. t ≡ u) (get_vote_round id)
  unfolding get_vote_round kv_get
  get_vote_round-state u id = search preserves_rules depth 20

  -- Reading a round leaves the store.
  get_vote_round-eq :
      (id : Bytes) (s t : S) (r : VoteRound) → get_vote_round id s ≡ (ok r, t) → t ≡ s
  get_vote_round-eq id s t r h =
      let e = (get_vote_round-state s id).after s refl in rw (ap (λ x. x.1) h) at e

  pub validate_round_for_voting-ok :
      (ctx : Context) (id : Bytes) (s t : S)
      → is_negative ctx.block_time ≡ false
      → validate_round_for_voting ctx id s ≡ (ok tt, t)
      → (round : VoteRound) × (get_vote_round id s ≡ (ok round, s))
        × (round.status ≡ SessionStatus.active)
        × (to_uint64 ctx.block_time < round.vote_end_time)
        × (t ≡ s)
  unfolding validate_round_for_voting
  validate_round_for_voting-ok ctx id s t n h =
      let (round, u, e1, k1) = >>=-eq-ok (get_vote_round id) _ s t h in
      let (_, v, e2, k2) =
        >>=-eq-ok (raise_if (not (is_active round.status)) Error.round_not_active) _ u t k1 in
      let us = get_vote_round-eq id s u round e1 in
      let (a, vs) = raise_if-false (not (is_active round.status)) Error.round_not_active u v e2 in
      let k3 = rw n at k2 in
      let (b, ts) =
        raise_if-false (leb round.vote_end_time (to_uint64 ctx.block_time)) Error.round_not_active v
          t k3 in
      (round, rw us at e1, active-eq round.status a, ground (arith, b), cc (us, vs, ts))

  validate_proposal_id-state :
      (u : S) (id : Bytes) (p : ℕ) → Preserves (λ t. t ≡ u) (validate_proposal_id id p)
  unfolding validate_proposal_id get_vote_round kv_get
  validate_proposal_id-state u id p = search preserves_rules depth 20

  validate_vote_decision-ok :
      (id : Bytes) (p d : ℕ) (round : VoteRound) (s t : S)
      → get_vote_round id s ≡ (ok round, s)
      → validate_vote_decision id p d s ≡ (ok tt, t)
      → (proposal : Proposal) × (get_elem? round.proposals (p - 1) ≡ some (some proposal))
        × (bad_proposal_id round p ≡ false)
        × (d < length proposal.options)
  unfolding validate_vote_decision
  validate_vote_decision-ok id p d round s t g h =
      let (r, u, e1, k1) = >>=-eq-ok (get_vote_round id) _ s t h in
      let (_, v, e2, k2) =
        >>=-eq-ok (raise_if (bad_proposal_id r p) Error.invalid_proposal_id) _ u t k1 in
      let same : r ≡ round = cc (g, e1) in
      let (a, _) = raise_if-false (bad_proposal_id r p) Error.invalid_proposal_id u v e2 in
      let k3 = rw same at k2 in
      let (proposal, q, l) =
        check_choice-ok (get_elem? round.proposals (p - 1)) d
          (lift-ok (check_choice (get_elem? round.proposals (p - 1)) d) tt v t k3) in
      (proposal, q, rw same at a, l)

module _ {S P F : Type 0} ⦃kv : KvStore S⦄ (c : Curve P F) where
  -- A share is counted, in a block whose time is set, only while its round is stored as active and
  -- before the end of its voting, for a proposal of that round and one of its options.
  pub reveal_share-window :
      (ctx : Context) (msg : MsgRevealShare) (s : S)
      → is_negative ctx.block_time ≡ false
      → (reveal_share c ctx msg s).0 ≡ ok tt
      → (round : VoteRound) × (proposal : Proposal) × (get_vote_round msg.vote_round_id s
          ≡ (ok round, s))
        × (round.status ≡ SessionStatus.active)
        × (to_uint64 ctx.block_time < round.vote_end_time)
        × (1 ≤ msg.proposal_id)
        × (get_elem? round.proposals (msg.proposal_id - 1) ≡ some (some proposal))
        × (msg.vote_decision < length proposal.options)
  unfolding reveal_share
  reveal_share-window ctx msg s n h =
      let id = msg.vote_round_id in
      let (_, u, e1, k1) =
        >>=-eq-ok (validate_round_for_voting ctx id) _ s _
          (pair_eq (reveal_share c ctx msg s) tt h) in
      let (_, v, e2, k2) = >>=-eq-ok (validate_proposal_id id msg.proposal_id) _ u _ k1 in
      let (_, w, e3, k3) =
        >>=-eq-ok (validate_vote_decision id msg.proposal_id msg.vote_decision) _ v _ k2 in
      let (round, g, active, window, us) = validate_round_for_voting-ok ctx id s u n e1 in
      let vs = (validate_proposal_id-state u id msg.proposal_id).after u refl in
      let vu : v ≡ s = cc (us, rw (ap (λ x. x.1) e2) at vs) in
      let (proposal, at, good, inside) =
        validate_vote_decision-ok id msg.proposal_id msg.vote_decision round s w g (rw vu at e3) in
      (round, proposal, g, active, window, ground (arith, good), at, inside)
