-- ===== src/Server/Coordinator/Endorse/Sender.antt =====
-- Who may endorse a round, and what an endorsement leaves in the store
-- (x/vote/keeper/msg_server_endorsements.go).
use vote_sdk.Base.{
  ◌≡◌, refl, sym, ap, ◌∙◌, subst, true, false, not, Option, some, Bytes, bytes_eq, bytes_eq_iff,
  bytes_eq_refl, Result, ok, err, Error, lift, pure, raise_if, or_raise, ◌>>=◌, >>=-eq-ok,
  read_step, raise_if-false, or_raise-ok, Preserves, Preserves-lift, preserves_rules, is_some,
  not-false,
}
use vote_sdk.Types.{Value, VoteRound}
use vote_sdk.Keys.{endorsed_round_key, validate_endorser_id}
use vote_sdk.Kv.{KvStore, kv_get, kv_set, kv_delete}
use vote_sdk.Keeper.Rounds.{get_vote_round}
use vote_sdk.Keeper.Endorsers.{
  get_endorser, add_endorsed_round, delete_endorsed_round, is_round_endorsed,
}
use vote_sdk.Server.Coordinator.{MsgEndorseRound}
use vote_sdk.Server.Coordinator.Endorse.{authorize_endorser, endorse_round, clear_round_endorsement}

module _ {S : Type 0} ⦃kv : KvStore S⦄ where
  -- The sender is the address of the endorser, and the round exists.
  pub record Authorized (normalize : Bytes → Option Bytes) (msg : MsgEndorseRound) (s : S)
      : Type 0 where
    pub address : Bytes
    pub sender : normalize msg.creator ≡ some address
    pub endorser : get_endorser msg.endorser_id s ≡ (ok (some address), s)
    pub round : VoteRound
    pub exists : get_vote_round msg.vote_round_id s ≡ (ok round, s)

  reads-endorser : (id : Bytes) (s : S) → Preserves (λ u. u ≡ s) (get_endorser id)
  unfolding get_endorser kv_get
  reads-endorser id s = search preserves_rules depth 20

  reads-round : (id : Bytes) (s : S) → Preserves (λ u. u ≡ s) (get_vote_round id)
  unfolding get_vote_round kv_get
  reads-round id s = search preserves_rules depth 20

  module _ (normalize : Bytes → Option Bytes) (msg : MsgEndorseRound) where
    reads-authorize : (s : S) → Preserves (λ u. u ≡ s) (authorize_endorser normalize msg)
    unfolding authorize_endorser
    reads-authorize s = search preserves_rules depth 40

    authorize-ok :
        (s : S) → authorize_endorser normalize msg s ≡ (ok tt, s) → Authorized normalize msg s
    unfolding authorize_endorser
    authorize-ok s h =
        let (_, _, k1) =
          read_step (lift (validate_endorser_id msg.endorser_id)) _ s s (Preserves-lift _) h in
        let (found, a, k2) =
          read_step (get_endorser msg.endorser_id) _ s s (reads-endorser msg.endorser_id s) k1 in
        let (addr, u, b, k3) = >>=-eq-ok (or_raise found Error.endorser_not_found) _ s s k2 in
        let (creator, v, c, k4) =
          >>=-eq-ok (or_raise (normalize msg.creator) Error.not_authorized) _ u s k3 in
        let (_, w, d, k5) =
          >>=-eq-ok (raise_if (not (bytes_eq creator addr)) Error.not_authorized) _ v s k4 in
        let (round, x, e, _) = >>=-eq-ok (get_vote_round msg.vote_round_id) _ w s k5 in
        let ub = or_raise-ok found _ s u addr b in
        let vc = or_raise-ok (normalize msg.creator) _ u v creator c in
        let wd = raise_if-false (not (bytes_eq creator addr)) _ v w d in
        let here : w ≡ s = wd.1 ∙ vc.1 ∙ ub.1 in
        let unmoved = (reads-round msg.vote_round_id w).after w refl in
        record {
          address = addr;
          sender =
              vc.0
              ∙ ap some ((bytes_eq_iff creator addr).0 (not-false (bytes_eq creator addr) wd.0));
          endorser = a ∙ ap (λ y. (ok y, s)) ub.0;
          round = round;
          exists = at_start w x round here e ((reads-round msg.vote_round_id w).after w refl);
        }
      where
        at_start :
            (w x : S) (round : VoteRound)
            → w ≡ s
            → get_vote_round msg.vote_round_id w ≡ (ok round, x)
            → (get_vote_round msg.vote_round_id w).1 ≡ w
            → get_vote_round msg.vote_round_id s ≡ (ok round, s)
        at_start w x round here e same =
            subst (λ y. get_vote_round msg.vote_round_id y ≡ (ok round, y)) here
              (e ∙ ap (λ y. (ok round, y)) (sym (ap (λ y. y.1) e) ∙ same))

    added :
        (k : Result Bytes) (s t : S) (v : Value)
        → (lift k >>= λ key. kv_set key v) s ≡ (ok tt, t)
        → (lift k >>= λ key. kv_get key >>= λ bz. pure (is_some bz)) t ≡ (ok true, t)
    unfolding kv_set kv_get ◌>>=◌
    added (ok key) s t v h =
        let g = kv.get-set s key key v in
        let g2 = rw (bytes_eq_refl key) at g in
        ap (λ x. (ok (is_some x), t)) (ap (λ x. kv.get x key) (sym (ap (λ x. x.1) h)) ∙ g2)
    added (err e) s t v h = cc h

    deleted :
        (k : Result Bytes) (s t : S)
        → (lift k >>= λ key. kv_delete key) s ≡ (ok tt, t)
        → (lift k >>= λ key. kv_get key >>= λ bz. pure (is_some bz)) t ≡ (ok false, t)
    unfolding kv_delete kv_get ◌>>=◌
    deleted (ok key) s t h =
        let g = kv.get-delete s key key in
        let g2 = rw (bytes_eq_refl key) at g in
        ap (λ x. (ok (is_some x), t)) (ap (λ x. kv.get x key) (sym (ap (λ x. x.1) h)) ∙ g2)
    deleted (err e) s t h = cc h

    -- Only the address that is mapped to an endorser endorses a round, which exists, and the round is
    -- endorsed afterwards.
    pub endorse_round-Authorized :
        (s t : S)
        → endorse_round normalize msg s ≡ (ok tt, t)
        → Authorized normalize msg s
          × (is_round_endorsed msg.endorser_id msg.vote_round_id t ≡ (ok true, t))
    unfolding endorse_round add_endorsed_round is_round_endorsed
    endorse_round-Authorized s t h =
        let (_, a, k) = read_step (authorize_endorser normalize msg) _ s t (reads-authorize s) h in
        (authorize-ok s a, added (endorsed_round_key msg.endorser_id msg.vote_round_id) s t _ k)

    -- Only the address that is mapped to an endorser clears an endorsement, of a round that exists, and
    -- the round is not endorsed afterwards.
    pub clear_round_endorsement-Authorized :
        (s t : S)
        → clear_round_endorsement normalize msg s ≡ (ok tt, t)
        → Authorized normalize msg s
          × (is_round_endorsed msg.endorser_id msg.vote_round_id t ≡ (ok false, t))
    unfolding clear_round_endorsement delete_endorsed_round is_round_endorsed
    clear_round_endorsement-Authorized s t h =
        let (_, a, k) = read_step (authorize_endorser normalize msg) _ s t (reads-authorize s) h in
        (authorize-ok s a, deleted (endorsed_round_key msg.endorser_id msg.vote_round_id) s t k)
