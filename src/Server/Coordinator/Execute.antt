-- ===== src/Server/Coordinator/Execute.antt =====
-- Executing an approved payload (x/vote/keeper/msg_server_coordinator_actions.go and the handlers it
-- calls, in msg_server.go, msg_server_upgrade.go, msg_server_endorsements.go, msg_server_send.go and
-- accounts.go).
use vote_sdk.Base.{
  not, Option, none, some, Bytes, bytes_eq, Error, Result, ok, err, Action, Done, lift, pure,
  raise_if, or_raise, ◌>>=◌, ◌>>◌, for_each, length, is_some, ◌==◌, if◌then◌else◌, then_check,
  reject_if,
}
use vote_sdk.Types.{Context, Payload}
use vote_sdk.Keys.{validate_endorser_id}
use vote_sdk.Kv.{KvStore}
use vote_sdk.Keeper.Managers.{
  validate_and_normalize_vote_manager_policy, normalize_min_ceremony_validators, set_vote_managers,
  set_min_ceremony_validators,
}
use vote_sdk.Keeper.Endorsers.{set_endorser, delete_endorser}
use vote_sdk.Msgs.{validate_create_voting_session}
use vote_sdk.Server.Sessions.{execute_create_voting_session}
use vote_sdk.Server.Coordinator.{
  Modules, CoordinatorMsg, MsgUpdateVoteManagers, MsgScheduleUpgrade, MsgCancelUpgrade,
  MsgSetEndorser, MsgAuthorizedSend, decode_payload, validate_update_vote_managers,
  validate_schedule_upgrade, validate_cancel_upgrade, validate_set_endorser,
  validate_authorized_send,
}

module _ {S : Type 0} ⦃kv : KvStore S⦄ (m : Modules S) where
  -- `validatePayloadCreator`
  unfoldable pub validate_payload_creator : Bytes → Bytes → Result Done
  validate_payload_creator raw_creator proposer = elim (m.normalize raw_creator) [
    | none ↦ err Error.invalid_coordinator_action
    | some creator ↦ reject_if (not (bytes_eq creator proposer)) Error.invalid_coordinator_action
  ]

  abbrev checked_msg : CoordinatorMsg → Bytes → Result Done
  checked_msg (CoordinatorMsg.create_voting_session msg) proposer =
      then_check (validate_create_voting_session msg)
        (validate_payload_creator msg.creator proposer)
  checked_msg (CoordinatorMsg.update_vote_managers msg) proposer =
      then_check (validate_update_vote_managers m msg)
        (validate_payload_creator msg.creator proposer)
  checked_msg (CoordinatorMsg.schedule_upgrade msg) proposer =
      then_check (validate_schedule_upgrade m msg) (validate_payload_creator msg.creator proposer)
  checked_msg (CoordinatorMsg.cancel_upgrade msg) proposer =
      then_check (validate_cancel_upgrade m msg) (validate_payload_creator msg.creator proposer)
  checked_msg (CoordinatorMsg.set_endorser msg) proposer =
      then_check (validate_set_endorser m msg) (validate_payload_creator msg.creator proposer)
  checked_msg (CoordinatorMsg.authorized_send msg) proposer =
      then_check (validate_authorized_send m msg) (validate_payload_creator msg.creator proposer)

  unfoldable pub validate_coordinator_payload : Option Payload → Bytes → Result Done
  unfolding decode_payload
  validate_coordinator_payload payload proposer = elim (decode_payload m.codec payload) [
    | err e ↦ err e
    | ok msg ↦ checked_msg msg proposer
  ]

  unfoldable pub ensure_account_exists : Bytes → Action S Done
  unfolding ◌>>=◌
  ensure_account_exists addr = do
    has ← m.has_account addr
    (if has then pure tt else m.new_account addr)

  unfoldable pub execute_update_vote_managers : MsgUpdateVoteManagers → Action S Done
  unfolding ◌>>=◌ for_each
  execute_update_vote_managers msg = do
    policy ← lift (
        validate_and_normalize_vote_manager_policy m.normalize msg.new_vote_managers
          msg.new_threshold)
    for_each
        (λ addr. or_raise (m.normalize addr) Error.external >>= λ acc. ensure_account_exists acc)
        policy.0
    set_vote_managers m.normalize (record { addresses = policy.0; threshold = policy.1 })
    set_min_ceremony_validators (normalize_min_ceremony_validators msg.new_min_ceremony_validators)

  unfoldable pub execute_schedule_upgrade : MsgScheduleUpgrade → Action S Done
  unfolding ◌>>=◌
  execute_schedule_upgrade msg = do
    lift (validate_schedule_upgrade m msg)
    keeper ← or_raise m.upgrade_keeper Error.upgrade_unavailable
    (if msg.replace_existing
        then pure tt
        else (keeper.get_upgrade_plan >>= λ plan.
            raise_if (is_some plan) Error.upgrade_plan_exists))
    keeper.schedule_upgrade
        (record { name = m.trim_space msg.name; height = msg.height; info = msg.info })

  unfoldable pub execute_cancel_upgrade : MsgCancelUpgrade → Action S Done
  unfolding ◌>>=◌
  execute_cancel_upgrade msg = do
    lift (validate_cancel_upgrade m msg)
    keeper ← or_raise m.upgrade_keeper Error.upgrade_unavailable
    keeper.clear_upgrade_plan

  abbrev install_endorser : MsgSetEndorser → Action S Done
  install_endorser msg = do
    normalized ← or_raise (m.normalize msg.address) Error.invalid_field
    acc ← or_raise (m.normalize normalized) Error.invalid_field
    ensure_account_exists acc
    set_endorser msg.endorser_id normalized

  unfoldable pub execute_set_endorser : MsgSetEndorser → Action S Done
  unfolding ◌>>=◌ validate_endorser_id
  execute_set_endorser msg = do
    lift (validate_set_endorser m msg)
    lift (validate_endorser_id msg.endorser_id)
    (if length msg.address == 0 then delete_endorser msg.endorser_id else install_endorser msg)

  unfoldable pub execute_authorized_send : MsgAuthorizedSend → Action S Done
  unfolding ◌>>=◌
  execute_authorized_send msg = do
    lift (validate_authorized_send m msg)
    to_addr ← or_raise (m.normalize msg.to_address) Error.invalid_field
    amt ← or_raise (m.int_from_string msg.amount) Error.invalid_field
    m.send_coins to_addr amt

  -- The cases of `executeCoordinatorPayload`.
  unfoldable pub execute_msg : Context → CoordinatorMsg → Action S Done
  unfolding ◌>>=◌
  execute_msg ctx (CoordinatorMsg.create_voting_session msg) =
      execute_create_voting_session m.derive_round_id m.get_validator ctx msg >> pure tt
  execute_msg ctx (CoordinatorMsg.update_vote_managers msg) = execute_update_vote_managers msg
  execute_msg ctx (CoordinatorMsg.schedule_upgrade msg) = execute_schedule_upgrade msg
  execute_msg ctx (CoordinatorMsg.cancel_upgrade msg) = execute_cancel_upgrade msg
  execute_msg ctx (CoordinatorMsg.set_endorser msg) = execute_set_endorser msg
  execute_msg ctx (CoordinatorMsg.authorized_send msg) = execute_authorized_send msg

  unfoldable pub execute_coordinator_payload : Context → Option Payload → Action S Done
  unfolding ◌>>=◌ execute_msg decode_payload
  execute_coordinator_payload ctx payload = do
    msg ← lift (decode_payload m.codec payload)
    execute_msg ctx msg
