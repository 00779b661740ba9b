-- ===== src/Scenarios/Coordinator.antt =====
-- Coordinator policies, actions, endorsements and sessions on concrete stores.
use vote_sdk.Base.{
  get_elem?, arith, ◌+◌, ◌%◌, ◌^◌, ℕ, ◌≤◌, ◌≡◌, refl, none, Option, some, true, false, List, [],
  ◌∷◌, Bytes, bytes_eq, replicate, ok, err, Error, map, In, Distinct, length, raise_if, ◌>>=◌, pure,
}
use vote_sdk.Types.{
  Value, VoteManagerSet, CoordinatorAction, ActionStatus, VoteRound, ValidatorPallasKey,
  SessionStatus, is_pending,
}
use vote_sdk.Keys.{
  coordinator_action_key, put_uint64_be, get_uint32_be, prefix_end_bytes, vote_round_key,
  validate_round_id, endorser_address_key, endorsed_round_key, validate_endorser_id,
}
use vote_sdk.Kv.{kv_get, kv_set, kv_delete, kv_iterator}
use vote_sdk.Kv.Table.{Table, table, lookup, insert, remove, scan, visible}
use vote_sdk.Keeper.Rounds.{
  get_vote_round, set_vote_round, has_pending_round, iterate_pending_rounds, iterate_rounds,
  scan_rounds,
}
use vote_sdk.Keeper.Ceremony.{append_ceremony_log}
use vote_sdk.Keeper.Registry.{
  get_eligible_validators, iterate_all_pallas_keys, scan_pallas_keys, is_active_ceremony_validator,
  get_active_ceremony_validator,
}
use vote_sdk.Keeper.Managers.{
  normalize_managers, validate_and_normalize_vote_manager_policy, normalize_vote_manager_threshold,
  get_vote_managers, validate_vote_manager_approver, get_min_ceremony_validators,
}
use vote_sdk.Keeper.Managers.Policy.{validate_and_normalize_vote_manager_policy-bounds}
use vote_sdk.Keeper.Actions.{get_coordinator_action, set_coordinator_action}
use vote_sdk.Keeper.Endorsers.{
  get_endorser, add_endorsed_round, delete_endorsed_round, is_round_endorsed,
}
use vote_sdk.Msgs.{MsgCreateVotingSession}
use vote_sdk.Server.Sessions.{
  observe, check_new, open_session, execute_create_voting_session, opened_round,
  assign_shamir_indices,
}
use vote_sdk.Server.Sessions.Opening.{
  execute_create_voting_session-only_pending, execute_create_voting_session-indices,
}
use vote_sdk.Server.Sessions.Session.{Starts, execute_create_voting_session-Starts}
use vote_sdk.Server.Coordinator.{
  Modules, UpgradeKeeper, Codec, MsgApproveCoordinatorAction, MsgEndorseRound, cancel_upgrade_type,
  validate_approve_coordinator_action, validate_cancel_upgrade, decode_payload,
  coordinator_payload_type, after_last_slash,
}
use vote_sdk.Server.Coordinator.Execute.{
  execute_coordinator_payload, execute_msg, execute_cancel_upgrade,
}
use vote_sdk.Server.Coordinator.Approval.{
  coordinator_action_expired, address_in_list, current_approvals,
  current_coordinator_approval_count, maybe_execute_coordinator_action, approve_coordinator_action,
  approve_again, approve_new,
}
use vote_sdk.Server.Coordinator.Executed.{Ran, with_approver, approve_coordinator_action-threshold}
use vote_sdk.Server.Coordinator.Endorse.{authorize_endorser, endorse_round, clear_round_endorsement}
use vote_sdk.Server.Coordinator.Endorse.Sender.{
  Authorized, endorse_round-Authorized, clear_round_endorsement-Authorized,
}
use vote_sdk.Scenarios.Data.{round_id, round, context}

abbrev two_managers : List Bytes
two_managers = (1 ∷ []) ∷ (2 ∷ []) ∷ []

accepted_policy :
    validate_and_normalize_vote_manager_policy some two_managers 2 ≡ ok (two_managers, 2)
unfolding validate_and_normalize_vote_manager_policy normalize_managers
    normalize_vote_manager_threshold bytes_eq
accepted_policy = refl

validate_and_normalize_vote_manager_policy-bounds_example :
    (map some two_managers ≡ map some two_managers)
    × Distinct two_managers
    × (1 ≤ 2)
    × (2 ≤ length two_managers)
validate_and_normalize_vote_manager_policy-bounds_example =
    validate_and_normalize_vote_manager_policy-bounds some two_managers two_managers 2 2
      accepted_policy

abbrev codec : Codec
codec = record {
  create_voting_session = λ b. none;
  update_vote_managers = λ b. none;
  schedule_upgrade = λ b. none;
  cancel_upgrade = λ b. some (record { creator = b });
  set_endorser = λ b. none;
  authorized_send = λ b. none;
}

abbrev upgrades : UpgradeKeeper Table
upgrades = record {
  get_upgrade_plan = pure none;
  schedule_upgrade = λ p. pure tt;
  clear_upgrade_plan = pure tt;
}

abbrev pub modules : Modules Table
modules = record {
  codec = codec;
  normalize = some;
  trim_space = λ b. b;
  int_from_string = λ b. none;
  derive_round_id = λ m h. ok round_id;
  get_validator = λ a. some (record { bonded = true; jailed = false });
  has_account = λ a. pure true;
  new_account = λ a. pure tt;
  upgrade_keeper = some upgrades;
  send_coins = λ a n. pure tt;
}

abbrev managers : VoteManagerSet
managers = record { addresses = two_managers; threshold = 2 }

abbrev proposed : CoordinatorAction
proposed = record {
  action_id = 1;
  payload = record { type_url = cancel_upgrade_type; value = 1 ∷ [] };
  proposer = 1 ∷ [];
  approvals = (1 ∷ []) ∷ [];
  status = ActionStatus.pending;
  created_at = 5;
  expires_at = 604805;
  executed_at = 0;
}

abbrev action_key : Bytes
action_key = 0x18 ∷ 0 ∷ 0 ∷ 0 ∷ 0 ∷ 0 ∷ 0 ∷ 0 ∷ 1 ∷ []

abbrev before_approval : Table
before_approval =
    (0x0A ∷ [], Value.vote_manager_set managers)
    ∷ (action_key, Value.coordinator_action proposed)
    ∷ []

abbrev approval : MsgApproveCoordinatorAction
approval = record { creator = 2 ∷ []; action_id = 1 }

abbrev after_approval : Table
after_approval = (approve_coordinator_action modules context approval before_approval).1

approved :
    approve_coordinator_action modules context approval before_approval ≡ (ok true, after_approval)
unfolding approve_coordinator_action validate_approve_coordinator_action
    validate_vote_manager_approver get_vote_managers normalize_vote_manager_threshold
    get_coordinator_action coordinator_action_key put_uint64_be coordinator_action_expired
    address_in_list approve_new approve_again maybe_execute_coordinator_action
    current_coordinator_approval_count current_approvals execute_coordinator_payload execute_msg
    execute_cancel_upgrade validate_cancel_upgrade decode_payload coordinator_payload_type
    after_last_slash set_coordinator_action kv_get kv_set table lookup insert bytes_eq ◌>>=◌
    raise_if pure
approved = refl

approve_coordinator_action-threshold_example :
    (action : CoordinatorAction) × (approver : Bytes) × (set : VoteManagerSet)
    × (get_coordinator_action 1 before_approval ≡ (ok action, before_approval))
    × (action.status ≡ ActionStatus.pending)
    × (get_vote_managers before_approval ≡ (ok (some set), before_approval))
    × (◌≡◌ {A = Option Bytes} (some (2 ∷ [])) (some approver))
    × In approver set.addresses
    × Ran modules context
        (record action { approvals = with_approver approver action.approvals })
        before_approval
        after_approval
approve_coordinator_action-threshold_example =
    approve_coordinator_action-threshold modules context approval before_approval after_approval
      approved

abbrev endorser_id : Bytes
endorser_id = b'a' ∷ []

abbrev endorser_store : Table
endorser_store =
    (0x04 ∷ round_id, Value.vote_round round) ∷ (0x16 ∷ endorser_id, Value.raw (2 ∷ [])) ∷ []

abbrev endorsement : MsgEndorseRound
endorsement = record { creator = 2 ∷ []; endorser_id = endorser_id; vote_round_id = round_id }

abbrev endorsed_store : Table
endorsed_store = (endorse_round some endorsement endorser_store).1

endorsed : endorse_round some endorsement endorser_store ≡ (ok tt, endorsed_store)
unfolding endorse_round authorize_endorser get_endorser endorser_address_key endorsed_round_key
    validate_endorser_id validate_round_id get_vote_round vote_round_key add_endorsed_round kv_get
    kv_set table lookup insert bytes_eq ◌>>=◌ raise_if
endorsed = refl

endorse_round-Authorized_example :
    Authorized some endorsement endorser_store
    × (is_round_endorsed endorser_id round_id endorsed_store ≡ (ok true, endorsed_store))
endorse_round-Authorized_example =
    endorse_round-Authorized some endorsement endorser_store endorsed_store endorsed

abbrev cleared_store : Table
cleared_store = (clear_round_endorsement some endorsement endorsed_store).1

cleared : clear_round_endorsement some endorsement endorsed_store ≡ (ok tt, cleared_store)
unfolding clear_round_endorsement endorse_round authorize_endorser get_endorser endorser_address_key
    endorsed_round_key validate_endorser_id validate_round_id get_vote_round vote_round_key
    add_endorsed_round delete_endorsed_round kv_get kv_set kv_delete table lookup insert remove
    bytes_eq ◌>>=◌ raise_if
cleared = refl

clear_round_endorsement-Authorized_example :
    Authorized some endorsement endorsed_store
    × (is_round_endorsed endorser_id round_id cleared_store ≡ (ok false, cleared_store))
clear_round_endorsement-Authorized_example =
    clear_round_endorsement-Authorized some endorsement endorsed_store cleared_store cleared

abbrev session : MsgCreateVotingSession
session = record {
  creator = 1 ∷ [];
  snapshot_height = 1;
  snapshot_blockhash = [];
  proposals_hash = [];
  vote_end_time = 1000;
  nullifier_imt_root = [];
  nc_root = [];
  proposals = round.proposals;
  description = [];
  title = [];
  discussion_url = [];
}

abbrev registry_store : Table
registry_store =
    (
      0x0C ∷ 9 ∷ [],
      Value.pallas_key
          (record { validator_address = 9 ∷ []; pallas_pk = 5 ∷ []; shamir_index = 0 }),
    )
    ∷ []

abbrev session_store : Table
session_store =
    (execute_create_voting_session modules.derive_round_id modules.get_validator context session
      registry_store).1

opened :
    execute_create_voting_session modules.derive_round_id modules.get_validator context session
      registry_store
    ≡ (ok round_id, session_store)
unfolding execute_create_voting_session open_session check_new observe get_vote_round vote_round_key
    validate_round_id has_pending_round iterate_pending_rounds iterate_rounds scan_rounds
    get_eligible_validators iterate_all_pallas_keys scan_pallas_keys is_active_ceremony_validator
    get_active_ceremony_validator get_min_ceremony_validators set_vote_round opened_round
    assign_shamir_indices append_ceremony_log prefix_end_bytes get_uint32_be kv_get kv_set
    kv_iterator table lookup insert scan visible bytes_eq ◌>>=◌ raise_if pure
opened = refl

execute_create_voting_session-Starts_example :
    (◌≡◌ {A = _} (ok round_id) (ok round_id))
    × (get_vote_round round_id registry_store ≡ (err Error.round_not_found, registry_store))
    × (r : VoteRound) × (min_val : ℕ) × (get_vote_round round_id session_store
        ≡ (ok r, session_store))
    × (get_min_ceremony_validators registry_store ≡ (ok min_val, registry_store))
    × Starts modules.get_validator context session min_val r
execute_create_voting_session-Starts_example =
    execute_create_voting_session-Starts modules.derive_round_id modules.get_validator context
      session round_id registry_store session_store opened

-- An active round that stood in the store beside the new session.
abbrev older_id : Bytes
older_id = replicate 32 6

abbrev older_store : Table
older_store =
    (0x04 ∷ older_id, Value.vote_round (record round { vote_round_id = older_id })) ∷ registry_store

abbrev busy_store : Table
busy_store =
    (execute_create_voting_session modules.derive_round_id modules.get_validator context session
      older_store).1

opened_beside :
    execute_create_voting_session modules.derive_round_id modules.get_validator context session
      older_store
    ≡ (ok round_id, busy_store)
unfolding execute_create_voting_session open_session check_new observe get_vote_round vote_round_key
    validate_round_id has_pending_round iterate_pending_rounds iterate_rounds scan_rounds
    get_eligible_validators iterate_all_pallas_keys scan_pallas_keys is_active_ceremony_validator
    get_active_ceremony_validator get_min_ceremony_validators set_vote_round opened_round
    assign_shamir_indices append_ceremony_log prefix_end_bytes get_uint32_be kv_get kv_set
    kv_iterator table lookup insert scan visible bytes_eq ◌>>=◌ raise_if pure
opened_beside = refl

older_read :
    get_vote_round older_id busy_store
    ≡ (ok (record round { vote_round_id = older_id }), busy_store)
unfolding execute_create_voting_session open_session check_new observe get_vote_round vote_round_key
    validate_round_id has_pending_round iterate_pending_rounds iterate_rounds scan_rounds
    get_eligible_validators iterate_all_pallas_keys scan_pallas_keys is_active_ceremony_validator
    get_active_ceremony_validator get_min_ceremony_validators set_vote_round opened_round
    assign_shamir_indices append_ceremony_log prefix_end_bytes get_uint32_be kv_get kv_set
    kv_iterator table lookup insert scan visible bytes_eq ◌>>=◌ raise_if pure
older_read = refl

execute_create_voting_session-only_pending_example : is_pending SessionStatus.active ≡ false
execute_create_voting_session-only_pending_example =
    execute_create_voting_session-only_pending modules.derive_round_id modules.get_validator context
      session round_id older_store busy_store opened_beside older_id
      (record round { vote_round_id = older_id }) (omega arith) (λ e. cc e) older_read

abbrev new_round : VoteRound
new_round =
    opened_round context session round_id
      (record { validator_address = 9 ∷ []; pallas_pk = 5 ∷ []; shamir_index = 0 } ∷ [])

opened_read : get_vote_round round_id session_store ≡ (ok new_round, session_store)
unfolding execute_create_voting_session open_session check_new observe get_vote_round vote_round_key
    validate_round_id has_pending_round iterate_pending_rounds iterate_rounds scan_rounds
    get_eligible_validators iterate_all_pallas_keys scan_pallas_keys is_active_ceremony_validator
    get_active_ceremony_validator get_min_ceremony_validators set_vote_round opened_round
    assign_shamir_indices append_ceremony_log prefix_end_bytes get_uint32_be kv_get kv_set
    kv_iterator table lookup insert scan visible bytes_eq ◌>>=◌ raise_if pure
opened_read = refl

abbrev validator : ValidatorPallasKey
validator = record { validator_address = 9 ∷ []; pallas_pk = 5 ∷ []; shamir_index = 1 }

first_validator : get_elem? new_round.ceremony_validators 0 ≡ some validator
unfolding opened_round append_ceremony_log assign_shamir_indices
first_validator = refl

execute_create_voting_session-indices_example : ◌≡◌ {A = ℕ} 1 ((0 + 1) % 2 ^ 32)
execute_create_voting_session-indices_example =
    execute_create_voting_session-indices modules.derive_round_id modules.get_validator context
      session round_id registry_store session_store opened new_round 0 validator opened_read
      first_validator
