-- ===== src/Server/Coordinator/Approval.antt =====
-- Proposing and approving a coordinator action
-- (x/vote/keeper/msg_server_coordinator_actions.go).
use vote_sdk.Base.{
  ℕ, Bool, true, false, not, ◌&&◌, Option, none, some, List, [], ◌∷◌, ◌++◌, Bytes, bytes_eq, Error,
  Action, lift, pure, raise, raise_if, or_raise, ◌>>=◌, ◌>>◌, length, any, ltb, ◌==◌, uint32,
  to_uint64, add64, if◌then◌else◌,
}
use vote_sdk.Types.{Context, CoordinatorAction, ActionStatus}
use vote_sdk.Kv.{KvStore}
use vote_sdk.Keeper.Managers.{get_vote_managers, validate_vote_manager_approver, installed}
use vote_sdk.Keeper.Actions.{
  allocate_coordinator_action_id, get_coordinator_action, set_coordinator_action, is_pending_action,
}
use vote_sdk.Server.Coordinator.{
  Modules, MsgProposeCoordinatorAction, MsgApproveCoordinatorAction,
  validate_propose_coordinator_action, validate_approve_coordinator_action,
}
use vote_sdk.Server.Coordinator.Execute.{validate_coordinator_payload, execute_coordinator_payload}

abbrev pub coordinator_action_ttl_seconds : ℕ
coordinator_action_ttl_seconds = 604800

unfoldable pub coordinator_action_expired : Context → CoordinatorAction → Bool
coordinator_action_expired ctx action =
    not (action.expires_at == 0) && ltb action.expires_at (to_uint64 ctx.block_time)

unfoldable pub address_in_list : Bytes → List Bytes → Bool
address_in_list addr addrs = any (λ candidate. bytes_eq candidate addr) addrs

-- The loop over the stored approvals: the canonical forms that are current managers, each once.
unfoldable pub current_approvals :
    (Bytes → Option Bytes) → List Bytes → List Bytes → List Bytes → List Bytes
current_approvals normalize managers seen [] = []
current_approvals normalize managers seen (approval ∷ rest) = elim (normalize approval) [
  | none ↦ current_approvals normalize managers seen rest
  | some canonical ↦ elim (any (bytes_eq canonical) seen) [
    | true ↦ current_approvals normalize managers seen rest
    | false ↦ elim (any (bytes_eq canonical) managers) [
      | true ↦ canonical ∷ current_approvals normalize managers (canonical ∷ seen) rest
      | false ↦ current_approvals normalize managers (canonical ∷ seen) rest
    ]
  ]
]

module _ {S : Type 0} ⦃kv : KvStore S⦄ (m : Modules S) where
  -- The approvals themselves are the third result; their count is the first.
  unfoldable pub current_coordinator_approval_count : List Bytes → Action S (ℕ × ℕ × List Bytes)
  unfolding ◌>>=◌ current_approvals
  current_coordinator_approval_count approvals = do
    found ← get_vote_managers
    set ← or_raise (installed found) Error.no_vote_managers
    pure (
      uint32 (length (current_approvals m.normalize set.addresses [] approvals)),
      set.threshold,
      current_approvals m.normalize set.addresses [] approvals,
    )

  -- The action as it is left, and whether this call executed it.
  unfoldable pub maybe_execute_coordinator_action :
      Context → CoordinatorAction → Action S (CoordinatorAction × Bool)
  unfolding ◌>>=◌
  maybe_execute_coordinator_action ctx action = do
    raise_if (coordinator_action_expired ctx action) Error.coordinator_action_expired
    counted ← current_coordinator_approval_count action.approvals
    (if ltb counted.0 counted.1
        then pure (action, false)
        else (execute_coordinator_payload m ctx (some action.payload)
            >> pure (
              record action {
                status = ActionStatus.executed;
                executed_at = to_uint64 ctx.block_time;
              },
              true,
            )))

  -- The response: the id of the action, and whether it was executed.
  unfoldable pub propose_coordinator_action :
      Context → MsgProposeCoordinatorAction → Action S (ℕ × Bool)
  unfolding ◌>>=◌
  propose_coordinator_action ctx msg = do
    lift (validate_propose_coordinator_action m msg)
    proposer ← validate_vote_manager_approver m.normalize msg.creator
    lift (validate_coordinator_payload m msg.payload proposer)
    payload ← or_raise msg.payload Error.invalid_coordinator_action
    action_id ← allocate_coordinator_action_id
    done ← maybe_execute_coordinator_action ctx (record {
      action_id = action_id;
      payload = payload;
      proposer = proposer;
      approvals = proposer ∷ [];
      status = ActionStatus.pending;
      created_at = to_uint64 ctx.block_time;
      expires_at = add64 (to_uint64 ctx.block_time) coordinator_action_ttl_seconds;
      executed_at = 0;
    })
    set_coordinator_action done.0
    pure (action_id, done.1)

  -- An approver who has approved before may still set off an action that has become ready.
  unfoldable pub approve_again : Context → CoordinatorAction → Action S Bool
  unfolding ◌>>=◌
  approve_again ctx action = do
    done ← maybe_execute_coordinator_action ctx action
    raise_if (not done.1) Error.coordinator_already_approved
    set_coordinator_action done.0
    pure true

  unfoldable pub approve_new : Context → CoordinatorAction → Bytes → Action S Bool
  unfolding ◌>>=◌
  approve_new ctx action approver = do
    done ←
        maybe_execute_coordinator_action ctx
          (record action { approvals = action.approvals ++ approver ∷ [] })
    set_coordinator_action done.0
    pure done.1

  -- An expired action: its status is written before the error.
  unfoldable pub expire_action : CoordinatorAction → Action S Bool
  unfolding ◌>>=◌
  expire_action action = do
    set_coordinator_action (record action { status = ActionStatus.expired })
    raise Error.coordinator_action_expired

  unfoldable pub approve_coordinator_action : Context → MsgApproveCoordinatorAction → Action S Bool
  unfolding ◌>>=◌
  approve_coordinator_action ctx msg = do
    lift (validate_approve_coordinator_action m msg)
    approver ← validate_vote_manager_approver m.normalize msg.creator
    action ← get_coordinator_action msg.action_id
    raise_if (not (is_pending_action action.status)) Error.invalid_coordinator_action
    (if coordinator_action_expired ctx action
        then expire_action action
        else if address_in_list approver action.approvals
        then approve_again ctx action
        else approve_new ctx action approver)
