-- ===== src/Server/Coordinator/Executed.antt =====
-- Approvals and proposals that execute an action.
use vote_sdk.Base.{
  not-false, ℕ, ◌≡◌, refl, sym, ap, ◌∙◌, subst, inl, inr, Bool, true, false, not, some, List, [],
  ◌∷◌, ◌++◌, Bytes, bytes_eq, ok, Error, lift, raise_if, or_raise, ◌>>=◌, any, In, Bool-cases,
  listed-In, ◌==◌, >>=-eq-ok, read_step, raise_if-false, pure-ok, or_raise-ok, Preserves,
  Preserves-raise_if, Preserves-lift, preserves_rules, bytes_eq_refl, if◌then◌else◌,
}
use vote_sdk.Types.{Context, Value, VoteManagerSet, CoordinatorAction, ActionStatus}
use vote_sdk.Keys.{coordinator_action_key}
use vote_sdk.Kv.{KvStore, kv_get, kv_set}
use vote_sdk.Keeper.Managers.{get_vote_managers, validate_vote_manager_approver, installed}
use vote_sdk.Keeper.Actions.{get_coordinator_action, set_coordinator_action, is_pending_action}
use vote_sdk.Server.Coordinator.{
  Modules, MsgApproveCoordinatorAction, validate_approve_coordinator_action,
}
use vote_sdk.Server.Coordinator.Approval.{
  maybe_execute_coordinator_action, approve_coordinator_action, approve_again, approve_new,
  expire_action, coordinator_action_expired, address_in_list,
}
use vote_sdk.Server.Coordinator.Threshold.{
  Approved, executes, executed_action, reads-managers, installed-some,
}

-- The approvals of an action once `approver` is among them.
abbrev pub with_approver : Bytes → List Bytes → List Bytes
with_approver approver approvals =
    if address_in_list approver approvals then approvals else approvals ++ approver ∷ []

is_pending-status :
    (x : ActionStatus) → not (is_pending_action x) ≡ false → x ≡ ActionStatus.pending
is_pending-status ActionStatus.pending h = refl
is_pending-status ActionStatus.unspecified h = cc h
is_pending-status ActionStatus.executed h = cc h
is_pending-status ActionStatus.expired h = cc h

module _ {S : Type 0} ⦃kv : KvStore S⦄ where
  stored_action :
      (action : CoordinatorAction) (s t : S)
      → set_coordinator_action action s ≡ (ok tt, t)
      → kv.get t (coordinator_action_key action.action_id) ≡ some (Value.coordinator_action action)
  unfolding set_coordinator_action kv_set ◌>>=◌ raise_if
  stored_action action s t h = elim (Bool-cases (action.action_id == 0)) [
    | inl e ↦ absurd (let z = rw e at h in cc z)
    | inr e ↦
        let z = rw e at h in
        let key = coordinator_action_key action.action_id in
        let g = kv.get-set s key key (Value.coordinator_action action) in
        let g2 = rw (bytes_eq_refl key) at g in ap (λ x. kv.get x key) (sym (ap (λ x. x.1) z)) ∙ g2
  ]

module _ {S : Type 0} ⦃kv : KvStore S⦄ (m : Modules S) where
  -- What an execution shows: the action was not late and had the approvals, and it is stored as
  -- executed.
  pub record Ran (ctx : Context) (action : CoordinatorAction) (s t : S) : Type 0 where
    pub in_time : coordinator_action_expired ctx action ≡ false
    pub approved : Approved m.normalize s action.approvals
    pub stored :
        kv.get t (coordinator_action_key action.action_id)
        ≡ some (Value.coordinator_action (executed_action m ctx action))

  ran :
      (ctx : Context) (action done : CoordinatorAction) (b : Bool) (s u v w t : S)
      → maybe_execute_coordinator_action m ctx action s ≡ (ok (done, b), u)
      → b ≡ true
      → set_coordinator_action done v ≡ (ok tt, w)
      → t ≡ w
      → Ran ctx action s t
  ran ctx action done b s u v w t h e k q =
      let (late, approved, d) =
        executes m ctx action done s u
          (subst (λ x. maybe_execute_coordinator_action m ctx action s ≡ (ok (done, x), u)) e h) in
      let f = stored_action done v w k in
      record {
        in_time = late;
        approved = approved;
        stored =
            subst
              (λ x.
                kv.get t (coordinator_action_key x.action_id) ≡ some (Value.coordinator_action x))
              d
              (subst
                (λ x.
                  kv.get x (coordinator_action_key done.action_id)
                  ≡ some (Value.coordinator_action done))
                (sym q) f);
      }

  approve_again-Ran :
      (ctx : Context) (action : CoordinatorAction) (s t : S)
      → approve_again m ctx action s ≡ (ok true, t)
      → Ran ctx action s t
  unfolding approve_again
  approve_again-Ran ctx action s t h =
      let ((done, b), u, a, k) =
        >>=-eq-ok (maybe_execute_coordinator_action m ctx action) _ s t h in
      let (_, v, c, j) = >>=-eq-ok (raise_if (not b) Error.coordinator_already_approved) _ u t k in
      let (d, w, e, l) = >>=-eq-ok (set_coordinator_action done) _ v t j in
      ran ctx action done b s u v w t a (not-false b (raise_if-false (not b) _ u v c).0) e
        (pure-ok true true w t l).1

  approve_new-Ran :
      (ctx : Context) (action : CoordinatorAction) (approver : Bytes) (s t : S)
      → approve_new m ctx action approver s ≡ (ok true, t)
      → Ran ctx (record action { approvals = action.approvals ++ approver ∷ [] }) s t
  unfolding approve_new
  approve_new-Ran ctx action approver s t h =
      let next : CoordinatorAction = record action {
        approvals = action.approvals ++ approver ∷ [];
      } in
      let ((done, b), u, a, k) = >>=-eq-ok (maybe_execute_coordinator_action m ctx next) _ s t h in
      let (d, w, e, l) = >>=-eq-ok (set_coordinator_action done) _ u t k in
      let (p, q) = pure-ok b true w t l in ran ctx next done b s u u w t a (sym p) e q

  never-expires :
      (action : CoordinatorAction) (s t : S) → expire_action m action s ≡ (ok true, t) → ⊥
  unfolding expire_action
  never-expires action s t h =
      let (_, u, _, k) =
        >>=-eq-ok (set_coordinator_action (record action { status = ActionStatus.expired })) _ s t
          h in
      cc k

  approve_branch-Ran :
      (ctx : Context) (action : CoordinatorAction) (approver : Bytes) (s t : S)
      → (if coordinator_action_expired ctx action
            then expire_action m action
            else if address_in_list approver action.approvals
            then approve_again m ctx action
            else approve_new m ctx action approver)
          s
        ≡ (ok true, t)
      → Ran ctx (record action { approvals = with_approver approver action.approvals }) s t
  approve_branch-Ran ctx action approver s t h =
      elim (Bool-cases (coordinator_action_expired ctx action)) [
        | inl e ↦ absurd (never-expires action s t (rw e at h))
        | inr e ↦ elim (Bool-cases (address_in_list approver action.approvals)) [
          | inl q ↦ rw q (approve_again-Ran ctx action s t (rw (e, q) at h))
          | inr q ↦ rw q (approve_new-Ran ctx action approver s t (rw (e, q) at h))
        ]
      ]

  reads-approver :
      (creator : Bytes) (s : S)
      → Preserves (λ u. u ≡ s) (validate_vote_manager_approver m.normalize creator)
  unfolding validate_vote_manager_approver get_vote_managers kv_get
  reads-approver creator s = search preserves_rules depth 30

  reads-action : (id : ℕ) (s : S) → Preserves (λ u. u ≡ s) (get_coordinator_action id)
  unfolding get_coordinator_action kv_get
  reads-action id s = search preserves_rules depth 30

  approver-ok :
      (creator approver : Bytes) (s : S)
      → validate_vote_manager_approver m.normalize creator s ≡ (ok approver, s)
      → (set : VoteManagerSet) × (get_vote_managers s ≡ (ok (some set), s))
        × (m.normalize creator ≡ some approver)
        × In approver set.addresses
  unfolding validate_vote_manager_approver
  approver-ok creator approver s h =
      let (found, e, k) = read_step get_vote_managers _ s s (reads-managers m s) h in
      let (set, u, f, j) = >>=-eq-ok (or_raise (installed found) Error.no_vote_managers) _ s s k in
      let (a, v, g, i) = >>=-eq-ok (or_raise (m.normalize creator) Error.not_authorized) _ u s j in
      let (_, w, d, l) =
        >>=-eq-ok (raise_if (not (any (bytes_eq a) set.addresses)) Error.not_authorized) _ v s i in
      let p = (pure-ok a approver w s l).0 in
      (
        set,
        e
            ∙ ap (λ x. (ok x, s))
                (installed-some found set (or_raise-ok (installed found) _ s u set f).0),
        (or_raise-ok (m.normalize creator) _ u v a g).0 ∙ ap some (sym p),
        subst (λ x. In x set.addresses) (sym p)
            (listed-In a set.addresses (
              not-false (any (bytes_eq a) set.addresses)
                (raise_if-false (not (any (bytes_eq a) set.addresses)) _ v w d).0)),
      )

  -- An approval that executes an action was given by a current vote manager, for a stored action that
  -- was pending and not expired; with this approval at least as many different current managers as
  -- the threshold had approved it, and the action is stored as executed.
  pub approve_coordinator_action-threshold :
      (ctx : Context) (msg : MsgApproveCoordinatorAction) (s t : S)
      → approve_coordinator_action m ctx msg s ≡ (ok true, t)
      → (action : CoordinatorAction) × (approver : Bytes) × (set : VoteManagerSet)
        × (get_coordinator_action msg.action_id s ≡ (ok action, s))
        × (action.status ≡ ActionStatus.pending)
        × (get_vote_managers s ≡ (ok (some set), s))
        × (m.normalize msg.creator ≡ some approver)
        × In approver set.addresses
        × Ran ctx (record action { approvals = with_approver approver action.approvals }) s t
  unfolding approve_coordinator_action
  approve_coordinator_action-threshold ctx msg s t h =
      let (_, _, k1) =
        read_step (lift (validate_approve_coordinator_action m msg)) _ s t (Preserves-lift _) h in
      let (approver, a, k2) =
        read_step (validate_vote_manager_approver m.normalize msg.creator) _ s t
          (reads-approver msg.creator s) k1 in
      let (action, b, k3) =
        read_step (get_coordinator_action msg.action_id) _ s t (reads-action msg.action_id s) k2 in
      let (_, c, k4) =
        read_step
          (raise_if (not (is_pending_action action.status)) Error.invalid_coordinator_action) _ s t
          (Preserves-raise_if _ _) k3 in
      let (set, g, n, i) = approver-ok msg.creator approver s a in
      (
        action,
        approver,
        set,
        b,
        is_pending-status action.status
            (raise_if-false (not (is_pending_action action.status)) _ s s c).0,
        g,
        n,
        i,
        approve_branch-Ran ctx action approver s t k4,
      )
