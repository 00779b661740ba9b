-- ===== src/Server/Coordinator/Threshold.antt =====
-- What stands behind an executed coordinator action
-- (x/vote/keeper/msg_server_coordinator_actions.go).
use vote_sdk.Base.{
  ℕ, ◌≤◌, ◌≡◌, refl, sym, ap, ◌∙◌, subst, inl, inr, Bool, true, false, Option, none, some, List, [],
  ◌∷◌, Bytes, bytes_eq, ok, Error, pure, raise_if, or_raise, ◌>>◌, length, any, In, Distinct,
  Bool-cases, Option-cases, arith, listed-In, unlisted, uint32, ltb, ◌==◌, >>=-eq-ok, read_step,
  raise_if-false, pure-ok, or_raise-ok, Preserves, Preserves-raise_if, preserves_rules, to_uint64,
  if◌then◌else◌,
}
use vote_sdk.Types.{Context, VoteManagerSet, CoordinatorAction, ActionStatus}
use vote_sdk.Kv.{KvStore, kv_get}
use vote_sdk.Keeper.Managers.{get_vote_managers, installed}
use vote_sdk.Server.Coordinator.{Modules}
use vote_sdk.Server.Coordinator.Execute.{execute_coordinator_payload}
use vote_sdk.Server.Coordinator.Approval.{
  current_approvals, current_coordinator_approval_count, maybe_execute_coordinator_action,
  coordinator_action_expired,
}

-- The counted approvals: current managers, pairwise different, each behind a stored approval.
record Counted (normalize : Bytes → Option Bytes) (managers seen approvals voters : List Bytes)
    : Type 0 where
  members : (v : Bytes) → In v voters → In v managers
  backed : (v : Bytes) → In v voters → (a : Bytes) × In a approvals × (normalize a ≡ some v)
  distinct : Distinct voters
  fresh : (v : Bytes) → In v voters → In v seen → ⊥

module _ (normalize : Bytes → Option Bytes) (managers : List Bytes) where
  skip :
      (seen more rest vs : List Bytes) (a : Bytes)
      → ((v : Bytes) → In v seen → In v more)
      → Counted normalize managers more rest vs
      → Counted normalize managers seen (a ∷ rest) vs
  skip seen more rest vs a sub c = record {
    members = c.members;
    backed = λ v m. let (b, i, e) = c.backed v m in (b, inr i, e);
    distinct = c.distinct;
    fresh = λ v m s. c.fresh v m (sub v s);
  }

  count :
      (seen rest vs : List Bytes) (a v : Bytes)
      → normalize a ≡ some v
      → In v managers
      → (In v seen → ⊥)
      → Counted normalize managers (v ∷ seen) rest vs
      → Counted normalize managers seen (a ∷ rest) (v ∷ vs)
  count seen rest vs a v e i n c = record {
    members =
        λ w m. elim m [ inl q ↦ subst (λ x. In x managers) (sym q) i | inr j ↦ c.members w j ];
    backed = λ w m. elim m [
      | inl q ↦ (a, inl refl, e ∙ ap some (sym q))
      | inr j ↦ let (b, k, f) = c.backed w j in (b, inr k, f)
    ];
    distinct = (λ m. c.fresh v m (inl refl), c.distinct);
    fresh =
        λ w m s. elim m [ inl q ↦ n (subst (λ x. In x seen) q s) | inr j ↦ c.fresh w j (inr s) ];
  }

  current_approvals-Counted :
      (seen approvals : List Bytes)
      → Counted normalize managers seen approvals
          (current_approvals normalize managers seen approvals)
  unfolding current_approvals
  current_approvals-Counted seen [] = record {
    members = λ v m. absurd m;
    backed = λ v m. absurd m;
    distinct = tt;
    fresh = λ v m s. m;
  }
  current_approvals-Counted seen (a ∷ rest) = elim (Option-cases (normalize a)) [
    | inl e ↦
        rw (e, current_approvals)
          (skip seen seen rest _ a (λ v s. s) (current_approvals-Counted seen rest))
    | inr (c, e) ↦ elim (Bool-cases (any (bytes_eq c) seen)) [
      | inl q ↦
          rw (e, q, current_approvals)
            (skip seen seen rest _ a (λ v s. s) (current_approvals-Counted seen rest))
      | inr q ↦ elim (Bool-cases (any (bytes_eq c) managers)) [
        | inl p ↦
            rw (e, q, p, current_approvals)
              (count seen rest _ a c e (listed-In c managers p) (unlisted c seen q)
                (current_approvals-Counted (c ∷ seen) rest))
        | inr p ↦
            rw (e, q, p, current_approvals)
              (skip seen (c ∷ seen) rest _ a (λ v s. inr s)
                (current_approvals-Counted (c ∷ seen) rest))
      ]
    ]
  ]

pub installed-some :
    (o : Option VoteManagerSet) (set : VoteManagerSet) → installed o ≡ some set → o ≡ some set
installed-some none set e = cc e
installed-some (some x) set e = elim (Bool-cases (length x.addresses == 0)) [
  | inl q ↦ absurd (let z = rw q at e in cc z)
  | inr q ↦ rw q at e
]

-- The approvals behind an execution: at least as many different current managers as the threshold.
pub record Approved {S : Type 0} ⦃kv : KvStore S⦄ (normalize : Bytes → Option Bytes) (s : S)
    (approvals : List Bytes) : Type 0 where
  pub set : VoteManagerSet
  pub current : get_vote_managers s ≡ (ok (some set), s)
  pub voters : List Bytes
  pub members : (v : Bytes) → In v voters → In v set.addresses
  pub backed : (v : Bytes) → In v voters → (a : Bytes) × In a approvals × (normalize a ≡ some v)
  pub distinct : Distinct voters
  pub enough : set.threshold ≤ length voters

module _ {S : Type 0} ⦃kv : KvStore S⦄ (m : Modules S) where
  pub reads-managers : (s : S) → Preserves (λ u. u ≡ s) get_vote_managers
  unfolding get_vote_managers kv_get
  reads-managers s = search preserves_rules depth 20

  counted-ok :
      (approvals : List Bytes) (s : S) (c : ℕ × ℕ × List Bytes)
      → current_coordinator_approval_count m approvals s ≡ (ok c, s)
      → (set : VoteManagerSet) × (get_vote_managers s ≡ (ok (some set), s))
        × (c ≡ (
          uint32 (length (current_approvals m.normalize set.addresses [] approvals)),
          set.threshold,
          current_approvals m.normalize set.addresses [] approvals,
        ))
  unfolding current_coordinator_approval_count
  counted-ok approvals s c h =
      let (found, e, k) = read_step get_vote_managers _ s s (reads-managers s) h in
      let (set, u, f, j) = >>=-eq-ok (or_raise (installed found) Error.no_vote_managers) _ s s k in
      let (p, q) = or_raise-ok (installed found) _ s u set f in
      (set, e ∙ ap (λ x. (ok x, s)) (installed-some found set p), (pure-ok _ c u s j).0)

  count-reads :
      (approvals : List Bytes) (s : S)
      → Preserves (λ u. u ≡ s) (current_coordinator_approval_count m approvals)
  unfolding current_coordinator_approval_count get_vote_managers kv_get
  count-reads approvals s = search preserves_rules depth 20

  -- The action as an execution leaves it.
  abbrev pub executed_action : Context → CoordinatorAction → CoordinatorAction
  executed_action ctx action = record action {
    status = ActionStatus.executed;
    executed_at = to_uint64 ctx.block_time;
  }

  -- The branch behind the count.
  branch-executed :
      (ctx : Context) (action done : CoordinatorAction) (n threshold : ℕ) (s t : S)
      → (if ltb n threshold
            then pure {A = CoordinatorAction × Bool} (action, false)
            else (execute_coordinator_payload m ctx (some action.payload)
                >> pure {A = CoordinatorAction × Bool} (executed_action ctx action, true)))
          s
        ≡ (ok (done, true), t)
      → (threshold ≤ n) × (done ≡ executed_action ctx action)
  branch-executed ctx action done n threshold s t h = elim (Bool-cases (ltb n threshold)) [
    | inl e ↦
        absurd (let z = rw e at h in let w = (pure-ok (action, false) (done, true) s t z).0 in cc w)
    | inr e ↦
        let z = rw e at h in
        let (_, u, _, k) =
          >>=-eq-ok (execute_coordinator_payload m ctx (some action.payload)) _ s t z in
        (
          ground arith,
          ap (λ x. x.0) (pure-ok (executed_action ctx action, true) (done, true) u t k).0,
        )
  ]

  -- An execution was not late, and had the approvals.
  pub executes :
      (ctx : Context) (action done : CoordinatorAction) (s t : S)
      → maybe_execute_coordinator_action m ctx action s ≡ (ok (done, true), t)
      → (coordinator_action_expired ctx action ≡ false)
        × Approved m.normalize s action.approvals
        × (done ≡ executed_action ctx action)
  unfolding maybe_execute_coordinator_action
  executes ctx action done s t h =
      let (_, a, k) =
        read_step
          (raise_if (coordinator_action_expired ctx action) Error.coordinator_action_expired) _ s t
          (Preserves-raise_if _ _) h in
      let late = (raise_if-false (coordinator_action_expired ctx action) _ s s a).0 in
      let (c, e, j) =
        read_step (current_coordinator_approval_count m action.approvals) _ s t
          (count-reads action.approvals s) k in
      let (set, f, q) = counted-ok action.approvals s c e in
      let (le, d) = branch-executed ctx action done c.0 c.1 s t j in
      let counted = current_approvals-Counted m.normalize set.addresses [] action.approvals in
      (
        late,
        record {
          set = set;
          current = f;
          voters = current_approvals m.normalize set.addresses [] action.approvals;
          members = counted.members;
          backed = counted.backed;
          distinct = counted.distinct;
          enough =
              at_least (length (current_approvals m.normalize set.addresses [] action.approvals))
                c.0 c.1 set.threshold (ap (λ x. x.0) q) (ap (λ x. x.1) q) le;
        },
        d,
      )
    where
      at_least : (n a b threshold : ℕ) → a ≡ uint32 n → b ≡ threshold → b ≤ a → threshold ≤ n
      at_least n a b threshold p q h = omega (arith, p, q, h)
