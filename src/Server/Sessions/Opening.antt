-- ===== src/Server/Sessions/Opening.antt =====
-- What opening a session requires and leaves (x/vote/keeper/msg_server.go).
use vote_sdk.Base.{
  some_inj, ℕ, suc, zero, ◌+◌, ◌%◌, ◌^◌, ◌≤◌, ◌≡◌, ◌≢◌, refl, sym, ap, ◌∙◌, subst, false, Option,
  some, List, [], ◌∷◌, Bytes, Result, ok, err, Error, Action, lift, raise_if, length, arith, uint32,
  ltb, >>=-eq-ok, read_step, raise_if-false, lift-ok, pure-ok, Preserves, Preserves-raise_if,
  Preserves-lift, Preserves-bind, preserves_rules, get_elem?,
}
use vote_sdk.Types.{Context, VoteRound, ValidatorPallasKey, is_pending}
use vote_sdk.Keys.Range.{IsBytes}
use vote_sdk.Kv.{KvStore, kv_get, kv_iterator}
use vote_sdk.Keeper.Rounds.{
  get_vote_round, set_vote_round, has_pending_round, iterate_pending_rounds, iterate_rounds,
}
use vote_sdk.Keeper.Rounds.Stored.{get-set_vote_round, round-keeps, none_pending, read_before}
use vote_sdk.Keeper.Ceremony.{append_ceremony_log}
use vote_sdk.Keeper.Registry.{StakingValidator, get_eligible_validators, iterate_all_pallas_keys}
use vote_sdk.Keeper.Managers.{get_min_ceremony_validators}
use vote_sdk.Msgs.{MsgCreateVotingSession}
use vote_sdk.Server.Sessions.{
  observe, check_new, must_be_new, assign_shamir_indices, opened_round, open_session,
  execute_create_voting_session,
}

-- The i-th validator has the Shamir index i + 1.
assign_shamir_indices-index :
    (vs : List ValidatorPallasKey) (i j : ℕ) (v : ValidatorPallasKey)
    → get_elem? (assign_shamir_indices i vs) j ≡ some v
    → v.shamir_index ≡ (i + j + 1) % 2 ^ 32
unfolding assign_shamir_indices
assign_shamir_indices-index [] i j v h = cc h
assign_shamir_indices-index (w ∷ rest) i zero v h =
    ap (λ (x : ValidatorPallasKey). x.shamir_index) (sym (some_inj h))
    ∙ ap (λ n. (n + 1) % 2 ^ 32) (omega arith)
assign_shamir_indices-index (w ∷ rest) i (suc j) v h =
    assign_shamir_indices-index rest (suc i) j v h ∙ ap (λ n. (n + 1) % 2 ^ 32) (omega arith)

must_be_new-ok : (r : Result VoteRound) → must_be_new r ≡ ok tt → r ≡ err Error.round_not_found
must_be_new-ok r h = ground arith

opened-id :
    (ctx : Context) (msg : MsgCreateVotingSession) (id : Bytes) (vs : List ValidatorPallasKey)
    → (opened_round ctx msg id vs).vote_round_id ≡ id
unfolding opened_round append_ceremony_log
opened-id ctx msg id vs = refl

opened-indices :
    (ctx : Context) (msg : MsgCreateVotingSession) (id : Bytes) (vs : List ValidatorPallasKey)
    (i : ℕ) (v : ValidatorPallasKey)
    → get_elem? (opened_round ctx msg id vs).ceremony_validators i ≡ some v
    → v.shamir_index ≡ (i + 1) % 2 ^ 32
unfolding opened_round append_ceremony_log
opened-indices ctx msg id vs i v h =
    assign_shamir_indices-index vs 0 i v h ∙ ap (λ n. n % 2 ^ 32) (omega arith)

pub ok_inj : {A : Type 0} {a b : A} → ◌≡◌ {A = Result A} (ok a) (ok b) → a ≡ b
ok_inj e = cc e

module _ {S : Type 0} ⦃kv : KvStore S⦄ where
  reads-eligible :
      (g : Bytes → Option StakingValidator) (s : S)
      → Preserves (λ u. u ≡ s) (get_eligible_validators g)
  unfolding get_eligible_validators iterate_all_pallas_keys kv_iterator
  reads-eligible g s = search preserves_rules depth 20

  reads-min : (s : S) → Preserves (λ u. u ≡ s) get_min_ceremony_validators
  unfolding get_min_ceremony_validators kv_get
  reads-min s = search preserves_rules depth 20

  reads-pending : (s : S) → Preserves (λ u. u ≡ s) has_pending_round
  unfolding has_pending_round iterate_pending_rounds iterate_rounds kv_iterator
  reads-pending s = search preserves_rules depth 20

  observe-keeps :
      {A : Type 0} (a : Action S A) (s : S)
      → Preserves (λ u. u ≡ s) a
      → Preserves (λ u. u ≡ s) (observe a)
  unfolding observe
  observe-keeps a s h = record { after = λ u e. h.after u e }

  -- What holds before and after an opening.
  pub record Opened (get_validator : Bytes → Option StakingValidator) (ctx : Context)
      (msg : MsgCreateVotingSession) (id : Bytes) (s t : S) : Type 0 where
    pub eligible : List ValidatorPallasKey
    pub min_val : ℕ
    pub was_eligible : get_eligible_validators get_validator s ≡ (ok eligible, s)
    pub minimum : get_min_ceremony_validators s ≡ (ok min_val, s)
    pub enough : min_val ≤ length eligible
    pub was_new : get_vote_round id s ≡ (err Error.round_not_found, s)
    pub none_before : has_pending_round s ≡ (ok false, s)
    pub written : set_vote_round (opened_round ctx msg id eligible) s ≡ (ok tt, t)
    pub stored : get_vote_round id t ≡ (ok (opened_round ctx msg id eligible), t)

  reads-new : (id : Bytes) (s : S) → Preserves (λ u. u ≡ s) (check_new id)
  unfolding check_new observe get_vote_round kv_get
  reads-new id s =
      Preserves-bind (observe (get_vote_round id)) (λ existing. lift (must_be_new existing))
        (observe-keeps (get_vote_round id) s (round-keeps id)) (λ _. Preserves-lift _)

  observe-result :
      {A : Type 0} (a : Action S A) (r : Result A) (s : S) → observe a s ≡ (ok r, s) → a s ≡ (r, s)
  unfolding observe
  observe-result a r s h = ap (λ x. (result_of x.0 r, x.1)) h
    where
      result_of : {B : Type 0} → Result (Result B) → Result B → Result B
      result_of (ok x) d = x
      result_of (err e) d = d

  check_new-ok :
      (id : Bytes) (s : S)
      → check_new id s ≡ (ok tt, s)
      → get_vote_round id s ≡ (err Error.round_not_found, s)
  unfolding check_new
  check_new-ok id s h =
      let (existing, a, k) =
        read_step (observe (get_vote_round id)) (λ existing. lift (must_be_new existing)) s s
          (observe-keeps (get_vote_round id) s (round-keeps id)) h in
      observe-result (get_vote_round id) existing s a
      ∙ ap (λ x. (x, s)) (must_be_new-ok existing (lift-ok (must_be_new existing) tt s s k))

  open_session-opens :
      (get_validator : Bytes → Option StakingValidator) (ctx : Context)
      (msg : MsgCreateVotingSession) (rid id : Bytes) (s t : S)
      → open_session get_validator ctx msg rid s ≡ (ok id, t)
      → (id ≡ rid) × Opened get_validator ctx msg id s t
  unfolding open_session
  open_session-opens g ctx msg rid id s t h =
      let (_, a2, k3) = read_step (check_new rid) _ s t (reads-new rid s) h in
      let (pending, a4, k4) = read_step has_pending_round _ s t (reads-pending s) k3 in
      let (_, a5, k5) =
        read_step (raise_if pending Error.ceremony_session_active) _ s t (Preserves-raise_if _ _)
          k4 in
      let (eligible, a6, k6) =
        read_step (get_eligible_validators g) _ s t (reads-eligible g s) k5 in
      let (min_val, a7, k7) = read_step get_min_ceremony_validators _ s t (reads-min s) k6 in
      let (_, a8, k8) =
        read_step (raise_if (ltb (uint32 (length eligible)) min_val) Error.insufficient_validators)
          _ s t (Preserves-raise_if _ _) k7 in
      let (_, u, a9, k9) =
        >>=-eq-ok (set_vote_round (opened_round ctx msg rid eligible)) _ s t k8 in
      let (p, q) = pure-ok rid id u t k9 in
      let same =
        subst (λ x. set_vote_round (opened_round ctx msg x eligible) s ≡ (ok tt, u)) (sym p) a9 in
      (
        p,
        record {
          eligible = eligible;
          min_val = min_val;
          was_eligible = a6;
          minimum = a7;
          enough =
              at_least (length eligible) min_val
                (raise_if-false (ltb (uint32 (length eligible)) min_val) _ s s a8).0;
          was_new =
              subst (λ x. get_vote_round x s ≡ (err Error.round_not_found, s)) (sym p)
                (check_new-ok rid s a2);
          none_before = a4 ∙ ap (λ x. (ok x, s)) (raise_if-false pending _ s s a5).0;
          written = same ∙ ap (λ x. (ok tt, x)) (sym q);
          stored =
              subst (λ x. get_vote_round id x ≡ (ok (opened_round ctx msg id eligible), x)) (sym q)
                (subst (λ x. get_vote_round x u ≡ (ok (opened_round ctx msg id eligible), u))
                  (opened-id ctx msg id eligible)
                  (get-set_vote_round (opened_round ctx msg id eligible) s u same));
        },
      )
    where
      at_least : (n min_val : ℕ) → ltb (uint32 n) min_val ≡ false → min_val ≤ n
      at_least n min_val h = ground arith

  -- A session opens under the derived id, which is new, with at least the minimum number of eligible
  -- validators and no other pending round; the round is stored as the handler builds it.
  pub execute_create_voting_session-opens :
      (derive : MsgCreateVotingSession → ℕ → Result Bytes)
      (get_validator : Bytes → Option StakingValidator) (ctx : Context)
      (msg : MsgCreateVotingSession) (id : Bytes) (s t : S)
      → execute_create_voting_session derive get_validator ctx msg s ≡ (ok id, t)
      → (derive msg ctx.block_height ≡ ok id) × Opened get_validator ctx msg id s t
  unfolding execute_create_voting_session
  execute_create_voting_session-opens derive g ctx msg id s t h =
      let (rid, a, k) = read_step (lift (derive msg ctx.block_height)) _ s t (Preserves-lift _) h in
      let (p, o) = open_session-opens g ctx msg rid id s t k in
      (lift-ok (derive msg ctx.block_height) rid s s a ∙ ap ok (sym p), o)

  -- After a session has opened, no other stored round whose id is a byte string is pending.
  pub execute_create_voting_session-only_pending :
      (derive : MsgCreateVotingSession → ℕ → Result Bytes)
      (get_validator : Bytes → Option StakingValidator) (ctx : Context)
      (msg : MsgCreateVotingSession) (id : Bytes) (s t : S)
      → execute_create_voting_session derive get_validator ctx msg s ≡ (ok id, t)
      → (other : Bytes) (r : VoteRound) → IsBytes other
      → other ≢ id
      → get_vote_round other t ≡ (ok r, t)
      → is_pending r.status ≡ false
  execute_create_voting_session-only_pending derive g ctx msg id s t h other r b ne e =
      let o = (execute_create_voting_session-opens derive g ctx msg id s t h).1 in
      none_pending s s s other r o.none_before b (
        read_before (opened_round ctx msg id o.eligible) other s t r
          (λ q. ne (q ∙ opened-id ctx msg id o.eligible)) o.written e)

  -- The i-th validator of a session that has opened has the Shamir index i + 1, as a uint32.
  pub execute_create_voting_session-indices :
      (derive : MsgCreateVotingSession → ℕ → Result Bytes)
      (get_validator : Bytes → Option StakingValidator) (ctx : Context)
      (msg : MsgCreateVotingSession) (id : Bytes) (s t : S)
      → execute_create_voting_session derive get_validator ctx msg s ≡ (ok id, t)
      → (r : VoteRound) (i : ℕ) (v : ValidatorPallasKey) → get_vote_round id t ≡ (ok r, t)
      → get_elem? r.ceremony_validators i ≡ some v
      → v.shamir_index ≡ (i + 1) % 2 ^ 32
  execute_create_voting_session-indices derive g ctx msg id s t h r i v e f =
      let o = (execute_create_voting_session-opens derive g ctx msg id s t h).1 in
      let same : r ≡ opened_round ctx msg id o.eligible =
        ok_inj (sym (ap (λ x. x.0) e) ∙ ap (λ x. x.0) o.stored) in
      opened-indices ctx msg id o.eligible i v
        (subst (λ (x : VoteRound). get_elem? x.ceremony_validators i ≡ some v) same f)
