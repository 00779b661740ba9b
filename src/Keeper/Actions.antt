-- ===== src/Keeper/Actions.antt =====
-- Coordinator actions in the store (x/vote/keeper/keeper_coordinator_actions.go).
use vote_sdk.Base.{
  ℕ, Bool, true, false, Option, none, some, List, [], ◌∷◌, Bytes, Error, Result, ok, err, Action,
  Done, lift, pure, raise_if, or_raise, ◌>>=◌, ◌>>◌, length, ◌==◌, add64, if◌then◌else◌,
}
use vote_sdk.Keys.{coordinator_action_key, put_uint64_be, get_uint64_be, prefix_end_bytes}
use vote_sdk.Types.{Value, CoordinatorAction, ActionStatus, as_coordinator_action, as_raw}
use vote_sdk.Kv.{KvStore, kv_get, kv_set, kv_iterator}

abbrev pub next_coordinator_action_id_key : Bytes
next_coordinator_action_id_key = 0x19 ∷ []

abbrev pub is_pending_action : ActionStatus → Bool
is_pending_action ActionStatus.pending = true
is_pending_action _ = false

-- The counter under its key: 1 on a fresh chain, else eight big-endian bytes.
abbrev pub read_next_action_id : Option Value → Result ℕ
read_next_action_id none = ok 1
read_next_action_id (some v) = elim (as_raw v) [
  | none ↦ err Error.malformed
  | some bz ↦
      if length bz == 8
      then elim (get_uint64_be bz) [ none ↦ err Error.malformed | some id ↦ ok id ]
      else err Error.invalid_coordinator_action
]

-- The loop of the iterator over the entries that are left.
unfoldable pub scan_actions :
    {A : Type 0} → (A → CoordinatorAction → A × Bool) → A → List (Bytes × Value) → Result A
scan_actions cb acc [] = ok acc
scan_actions cb acc ((_, v) ∷ rest) = elim (as_coordinator_action v) [
  | none ↦ err Error.malformed
  | some action ↦ elim (cb acc action).1 [
    | true ↦ ok (cb acc action).0
    | false ↦ scan_actions cb (cb acc action).0 rest
  ]
]

module _ {S : Type 0} ⦃kv : KvStore S⦄ where
  unfoldable pub get_next_coordinator_action_id : Action S ℕ
  unfolding ◌>>=◌ kv_get get_uint64_be
  get_next_coordinator_action_id = do
    bz ← kv_get next_coordinator_action_id_key
    lift (read_next_action_id bz)

  unfoldable pub set_next_coordinator_action_id : ℕ → Action S Done
  unfolding ◌>>=◌ kv_set
  set_next_coordinator_action_id action_id = do
    raise_if (action_id == 0) Error.invalid_coordinator_action
    kv_set next_coordinator_action_id_key (Value.raw (put_uint64_be action_id))

  unfoldable pub allocate_coordinator_action_id : Action S ℕ
  unfolding ◌>>=◌ get_next_coordinator_action_id set_next_coordinator_action_id
  allocate_coordinator_action_id = do
    action_id ← get_next_coordinator_action_id
    set_next_coordinator_action_id (add64 action_id 1)
    pure action_id

  unfoldable pub get_coordinator_action : ℕ → Action S CoordinatorAction
  unfolding ◌>>=◌ kv_get
  get_coordinator_action action_id = do
    raise_if (action_id == 0) Error.invalid_coordinator_action
    bz ← kv_get (coordinator_action_key action_id)
    v ← or_raise bz Error.coordinator_action_not_found
    or_raise (as_coordinator_action v) Error.malformed

  unfoldable pub set_coordinator_action : CoordinatorAction → Action S Done
  unfolding ◌>>=◌ kv_set
  set_coordinator_action action = do
    raise_if (action.action_id == 0) Error.invalid_coordinator_action
    kv_set (coordinator_action_key action.action_id) (Value.coordinator_action action)

  unfoldable pub iterate_coordinator_actions :
      {A : Type 0} → (A → CoordinatorAction → A × Bool) → A → Action S A
  unfolding ◌>>=◌ kv_iterator scan_actions prefix_end_bytes
  iterate_coordinator_actions cb acc = do
    entries ← kv_iterator (0x18 ∷ []) (prefix_end_bytes (0x18 ∷ []))
    lift (scan_actions cb acc entries)

  unfoldable pub iterate_pending_coordinator_actions :
      {A : Type 0} → (A → CoordinatorAction → A × Bool) → A → Action S A
  unfolding iterate_coordinator_actions
  iterate_pending_coordinator_actions cb acc =
      iterate_coordinator_actions
        (λ a action. if is_pending_action action.status then cb a action else (a, false)) acc
