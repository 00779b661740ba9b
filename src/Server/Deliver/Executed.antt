-- ===== src/Server/Deliver/Executed.antt =====
-- The entries that proposing, approving and executing a coordinator action leave
-- (x/vote/keeper/msg_server_coordinator_actions.go).
use vote_sdk.Base.{
  ◌≡◌, refl, false, bytes_eq, ◌++◌, some, ◌∷◌, Bytes, ℤ, Result, ok, err, Action, lift, ◌>>=◌,
  Preserves, Preserves-bind, Preserves-if, Preserves-lift, Preserves-raise_if,
  Preserves-or_raise_then, Preserves-pure, pure,
}
use vote_sdk.Types.{Context, CoordinatorAction}
use vote_sdk.Keys.{
  NullifierType, nullifier_key, endorser_address_key, validate_endorser_id, validate_round_id,
  type_byte,
}
use vote_sdk.Kv.{KvStore, kv_delete}
use vote_sdk.Keeper.Rounds.{
  get_vote_round, set_vote_round, has_pending_round, iterate_pending_rounds, iterate_rounds,
}
use vote_sdk.Keeper.Registry.{get_eligible_validators, iterate_all_pallas_keys}
use vote_sdk.Keeper.Managers.{
  get_vote_managers, set_vote_managers, validate_vote_manager_approver, get_min_ceremony_validators,
  set_min_ceremony_validators,
}
use vote_sdk.Keeper.Endorsers.{set_endorser, delete_endorser}
use vote_sdk.Keeper.Actions.{
  get_coordinator_action, set_coordinator_action, allocate_coordinator_action_id,
  get_next_coordinator_action_id, set_next_coordinator_action_id,
}
use vote_sdk.Msgs.{MsgCreateVotingSession}
use vote_sdk.Server.Sessions.{observe, check_new, open_session, execute_create_voting_session}
use vote_sdk.Server.Coordinator.{
  Modules, UpgradeKeeper, Plan, CoordinatorMsg, MsgUpdateVoteManagers, MsgScheduleUpgrade,
  MsgCancelUpgrade, MsgSetEndorser, MsgAuthorizedSend, MsgProposeCoordinatorAction,
  MsgApproveCoordinatorAction,
}
use vote_sdk.Server.Coordinator.Execute.{
  ensure_account_exists, execute_update_vote_managers, execute_schedule_upgrade,
  execute_cancel_upgrade, execute_set_endorser, execute_authorized_send, execute_msg,
  execute_coordinator_payload,
}
use vote_sdk.Server.Coordinator.Approval.{
  current_coordinator_approval_count, maybe_execute_coordinator_action, propose_coordinator_action,
  approve_again, approve_new, expire_action, approve_coordinator_action,
}
use vote_sdk.Server.Deliver.Presence.{Present, call_rules}
use vote_sdk.Server.Deliver.Kept.{key_of, keeps-delete, checked_key-eq}

-- The addresses of endorsers have keys of another kind than nullifiers.
endorser_entry :
    (x : NullifierType × Bytes × Bytes) (id k n : Bytes)
    → endorser_address_key id ≡ ok k
    → key_of x ≡ ok n
    → bytes_eq k n ≡ false
unfolding nullifier_key endorser_address_key bytes_eq
endorser_entry (t, rd, nf) id k n h e =
    rw
      (
        ← checked_key-eq (validate_round_id rd) (0x01 ∷ type_byte t ∷ rd ++ nf) n e,
        ← checked_key-eq (validate_endorser_id id) (0x16 ∷ id) k h,
      )
      refl

module _ {S : Type 0} ⦃kv : KvStore S⦄ where
  -- The account, bank and upgrade modules write to stores of their own: an entry of a nullifier stays.
  pub record Separate (x : NullifierType × Bytes × Bytes) (m : Modules S) : Type 0 where
    pub has_account : (a : Bytes) → Preserves {S = S} (Present (key_of x)) (m.has_account a)
    pub new_account : (a : Bytes) → Preserves {S = S} (Present (key_of x)) (m.new_account a)
    pub send_coins : (a : Bytes) (n : ℤ) → Preserves {S = S} (Present (key_of x)) (m.send_coins a n)
    pub get_plan :
        (k : UpgradeKeeper S)
        → m.upgrade_keeper ≡ some k
        → Preserves {S = S} (Present (key_of x)) k.get_upgrade_plan
    pub schedule :
        (k : UpgradeKeeper S)
        → m.upgrade_keeper ≡ some k
        → (p : Plan) → Preserves {S = S} (Present (key_of x)) (k.schedule_upgrade p)
    pub clear :
        (k : UpgradeKeeper S)
        → m.upgrade_keeper ≡ some k
        → Preserves {S = S} (Present (key_of x)) k.clear_upgrade_plan

  module _ (x : NullifierType × Bytes × Bytes) (m : Modules S) (apart : Separate x m) where
    keeps-delete_endorser :
        (id : Bytes) → Preserves {S = S} (Present (key_of x)) (delete_endorser id)
    unfolding delete_endorser
    keeps-delete_endorser id = with_key (endorser_address_key id) refl
      where
        with_key :
            (r : Result Bytes)
            → endorser_address_key id ≡ r
            → Preserves {S = S} (Present (key_of x)) (lift r >>= λ k. kv_delete k)
        with_key (ok k) e = record {
          after = let d = keeps-delete (key_of x) k (λ n q. endorser_entry x id k n e q) in d.after;
        }
        with_key (err z) e = record { after = λ s p. p }

    keeps-ensure : (a : Bytes) → Preserves {S = S} (Present (key_of x)) (ensure_account_exists m a)
    unfolding ensure_account_exists
    keeps-ensure a = Preserves-bind (m.has_account a) _ (apart.has_account a) (λ has.
        Preserves-if has (pure tt) (m.new_account a) (Preserves-pure tt) (apart.new_account a))

    keeps-managers :
        (u : MsgUpdateVoteManagers)
        → Preserves {S = S} (Present (key_of x)) (execute_update_vote_managers m u)
    unfolding execute_update_vote_managers set_vote_managers set_min_ceremony_validators
    keeps-managers u = search (call_rules, keeps-ensure) depth 40

    keeps-schedule :
        (u : MsgScheduleUpgrade)
        → Preserves {S = S} (Present (key_of x)) (execute_schedule_upgrade m u)
    unfolding execute_schedule_upgrade
    keeps-schedule u = Preserves-bind (lift _) _ (Preserves-lift _) (λ _.
        Preserves-or_raise_then m.upgrade_keeper _ _ (λ k e.
          Preserves-bind _ _
            (Preserves-if u.replace_existing (pure tt) _ (Preserves-pure tt) (
              Preserves-bind k.get_upgrade_plan _ (apart.get_plan k e)
                (λ plan. Preserves-raise_if _ _)))
            (λ _. apart.schedule k e _)))

    keeps-cancel :
        (u : MsgCancelUpgrade) → Preserves {S = S} (Present (key_of x)) (execute_cancel_upgrade m u)
    unfolding execute_cancel_upgrade
    keeps-cancel u =
        Preserves-bind (lift _) _ (Preserves-lift _)
          (λ _. Preserves-or_raise_then m.upgrade_keeper _ _ (λ k e. apart.clear k e))

    keeps-set_endorser :
        (u : MsgSetEndorser) → Preserves {S = S} (Present (key_of x)) (execute_set_endorser m u)
    unfolding execute_set_endorser set_endorser
    keeps-set_endorser u = search (call_rules, keeps-ensure, keeps-delete_endorser) depth 40

    keeps-send :
        (u : MsgAuthorizedSend)
        → Preserves {S = S} (Present (key_of x)) (execute_authorized_send m u)
    unfolding execute_authorized_send
    keeps-send u = let sent = apart.send_coins in search (call_rules, sent) depth 40

    keeps-observe :
        {A : Type 0} (a : Action S A)
        → Preserves {S = S} (Present (key_of x)) a
        → Preserves {S = S} (Present (key_of x)) (observe a)
    unfolding observe
    keeps-observe a h = record { after = λ s p. h.after s p }

    keeps-session :
        (ctx : Context) (u : MsgCreateVotingSession)
        → Preserves {S = S}
            (Present (key_of x))
            (execute_create_voting_session m.derive_round_id m.get_validator ctx u)
    unfolding execute_create_voting_session open_session check_new get_vote_round has_pending_round
        iterate_pending_rounds iterate_rounds get_eligible_validators iterate_all_pallas_keys
        get_min_ceremony_validators set_vote_round
    keeps-session ctx u = search (call_rules, keeps-observe) depth 60

    keeps-execute_msg :
        (ctx : Context) (u : CoordinatorMsg)
        → Preserves {S = S} (Present (key_of x)) (execute_msg m ctx u)
    unfolding execute_msg
    keeps-execute_msg ctx (CoordinatorMsg.create_voting_session u) =
        Preserves-bind _ _ (keeps-session ctx u) (λ _. Preserves-pure tt)
    keeps-execute_msg ctx (CoordinatorMsg.update_vote_managers u) = keeps-managers u
    keeps-execute_msg ctx (CoordinatorMsg.schedule_upgrade u) = keeps-schedule u
    keeps-execute_msg ctx (CoordinatorMsg.cancel_upgrade u) = keeps-cancel u
    keeps-execute_msg ctx (CoordinatorMsg.set_endorser u) = keeps-set_endorser u
    keeps-execute_msg ctx (CoordinatorMsg.authorized_send u) = keeps-send u

    keeps-maybe_execute :
        (ctx : Context) (a : CoordinatorAction)
        → Preserves {S = S} (Present (key_of x)) (maybe_execute_coordinator_action m ctx a)
    unfolding maybe_execute_coordinator_action current_coordinator_approval_count get_vote_managers
        execute_coordinator_payload
    keeps-maybe_execute ctx a = search (call_rules, keeps-execute_msg) depth 40

    pub keeps-propose :
        (ctx : Context) (u : MsgProposeCoordinatorAction)
        → Preserves {S = S} (Present (key_of x)) (propose_coordinator_action m ctx u)
    unfolding propose_coordinator_action validate_vote_manager_approver get_vote_managers
        allocate_coordinator_action_id get_next_coordinator_action_id set_next_coordinator_action_id
        set_coordinator_action
    keeps-propose ctx u = search (call_rules, keeps-maybe_execute) depth 40

    pub keeps-approve :
        (ctx : Context) (u : MsgApproveCoordinatorAction)
        → Preserves {S = S} (Present (key_of x)) (approve_coordinator_action m ctx u)
    unfolding approve_coordinator_action validate_vote_manager_approver get_vote_managers
        get_coordinator_action set_coordinator_action expire_action approve_again approve_new
    keeps-approve ctx u = search (call_rules, keeps-maybe_execute) depth 40
