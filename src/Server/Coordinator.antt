-- ===== src/Server/Coordinator.antt =====
-- Coordinator actions: their payloads, and the stateless checks of their messages
-- (x/vote/keeper/msg_server_coordinator_actions.go, x/vote/types/msgs.go).
pub mod Execute
pub mod Endorse
pub mod Approval
pub mod Threshold
pub mod Executed
use vote_sdk.Base.{
  ℕ, ◌*◌, Bool, true, false, not, ◌&&◌, ◌||◌, Option, none, some, List, [], ◌∷◌, ◌++◌, Bytes,
  bytes_eq, Error, Result, ok, err, Action, Done, ◌==◌, length, ltb, if◌then◌else◌, then_check,
  reject_if, checks, is_some, ℤ, pos, negsuc,
}
use vote_sdk.Types.{Payload}
use vote_sdk.Msgs.{MsgCreateVotingSession, validate_create_voting_session}
use vote_sdk.Keys.{round_id_len, validate_endorser_id}
use vote_sdk.Keeper.Registry.{StakingValidator}
use vote_sdk.Keeper.Managers.{
  validate_and_normalize_vote_manager_policy, normalize_min_ceremony_validators,
}

pub record MsgUpdateVoteManagers : Type 0 where
  pub creator : Bytes
  pub new_vote_managers : List Bytes
  pub new_threshold : ℕ
  pub new_min_ceremony_validators : ℕ

pub record MsgScheduleUpgrade : Type 0 where
  pub creator : Bytes
  pub name : Bytes
  pub height : ℤ
  pub info : Bytes
  pub replace_existing : Bool

pub record MsgCancelUpgrade : Type 0 where
  pub creator : Bytes

pub record MsgSetEndorser : Type 0 where
  pub creator : Bytes
  pub endorser_id : Bytes
  pub address : Bytes

pub record MsgAuthorizedSend : Type 0 where
  pub creator : Bytes
  pub to_address : Bytes
  pub amount : Bytes

pub record MsgProposeCoordinatorAction : Type 0 where
  pub creator : Bytes
  pub payload : Option Payload

pub record MsgApproveCoordinatorAction : Type 0 where
  pub creator : Bytes
  pub action_id : ℕ

pub record MsgEndorseRound : Type 0 where
  pub creator : Bytes
  pub endorser_id : Bytes
  pub vote_round_id : Bytes

-- A plan of the SDK's upgrade module.
pub record Plan : Type 0 where
  pub name : Bytes
  pub height : ℤ
  pub info : Bytes

-- The message in a payload.
pub data CoordinatorMsg : Type 0 where
  create_voting_session : MsgCreateVotingSession → CoordinatorMsg
  update_vote_managers : MsgUpdateVoteManagers → CoordinatorMsg
  schedule_upgrade : MsgScheduleUpgrade → CoordinatorMsg
  cancel_upgrade : MsgCancelUpgrade → CoordinatorMsg
  set_endorser : MsgSetEndorser → CoordinatorMsg
  authorized_send : MsgAuthorizedSend → CoordinatorMsg

-- The SDK's upgrade keeper. `get_upgrade_plan` gives `none` for `ErrNoUpgradePlanFound`.
pub record UpgradeKeeper (S : Type 0) : Type 0 where
  pub get_upgrade_plan : Action S (Option Plan)
  pub schedule_upgrade : Plan → Action S Done
  pub clear_upgrade_plan : Action S Done

-- `proto.Unmarshal` of a payload's bytes, for each type.
pub record Codec : Type 0 where
  pub create_voting_session : Bytes → Option MsgCreateVotingSession
  pub update_vote_managers : Bytes → Option MsgUpdateVoteManagers
  pub schedule_upgrade : Bytes → Option MsgScheduleUpgrade
  pub cancel_upgrade : Bytes → Option MsgCancelUpgrade
  pub set_endorser : Bytes → Option MsgSetEndorser
  pub authorized_send : Bytes → Option MsgAuthorizedSend

-- What the handlers call of the SDK, of the standard library and of Rust: `normalize` is
-- `sdk.AccAddressFromBech32` then `String()`, `has_account` and `new_account` are the account
-- module's, and the keeper of upgrades may be missing.
pub record Modules (S : Type 0) : Type 0 where
  pub codec : Codec
  pub normalize : Bytes → Option Bytes
  pub trim_space : Bytes → Bytes
  pub int_from_string : Bytes → Option ℤ
  pub derive_round_id : MsgCreateVotingSession → ℕ → Result Bytes
  pub get_validator : Bytes → Option StakingValidator
  pub has_account : Bytes → Action S Bool
  pub new_account : Bytes → Action S Done
  pub upgrade_keeper : Option (UpgradeKeeper S)
  pub send_coins : Bytes → ℤ → Action S Done

abbrev pub max_upgrade_info_bytes : ℕ
max_upgrade_info_bytes = 4096

abbrev svote_v1 : Bytes
svote_v1 = b's' ∷ b'v' ∷ b'o' ∷ b't' ∷ b'e' ∷ b'.' ∷ b'v' ∷ b'1' ∷ b'.' ∷ []

abbrev pub create_voting_session_type : Bytes
create_voting_session_type =
    svote_v1
    ++ b'M' ∷ b's' ∷ b'g' ∷ b'C' ∷ b'r' ∷ b'e' ∷ b'a' ∷ b't' ∷ b'e' ∷ b'V' ∷ b'o' ∷ b't' ∷ b'i'
      ∷ b'n' ∷ b'g' ∷ b'S' ∷ b'e' ∷ b's' ∷ b's' ∷ b'i' ∷ b'o' ∷ b'n' ∷ []

abbrev pub update_vote_managers_type : Bytes
update_vote_managers_type =
    svote_v1
    ++ b'M' ∷ b's' ∷ b'g' ∷ b'U' ∷ b'p' ∷ b'd' ∷ b'a' ∷ b't' ∷ b'e' ∷ b'V' ∷ b'o' ∷ b't' ∷ b'e'
      ∷ b'M' ∷ b'a' ∷ b'n' ∷ b'a' ∷ b'g' ∷ b'e' ∷ b'r' ∷ b's' ∷ []

abbrev pub schedule_upgrade_type : Bytes
schedule_upgrade_type =
    svote_v1
    ++ b'M' ∷ b's' ∷ b'g' ∷ b'S' ∷ b'c' ∷ b'h' ∷ b'e' ∷ b'd' ∷ b'u' ∷ b'l' ∷ b'e' ∷ b'U' ∷ b'p'
      ∷ b'g' ∷ b'r' ∷ b'a' ∷ b'd' ∷ b'e' ∷ []

abbrev pub cancel_upgrade_type : Bytes
cancel_upgrade_type =
    svote_v1
    ++ b'M' ∷ b's' ∷ b'g' ∷ b'C' ∷ b'a' ∷ b'n' ∷ b'c' ∷ b'e' ∷ b'l' ∷ b'U' ∷ b'p' ∷ b'g' ∷ b'r'
      ∷ b'a' ∷ b'd' ∷ b'e' ∷ []

abbrev pub set_endorser_type : Bytes
set_endorser_type =
    svote_v1
    ++ b'M' ∷ b's' ∷ b'g' ∷ b'S' ∷ b'e' ∷ b't' ∷ b'E' ∷ b'n' ∷ b'd' ∷ b'o' ∷ b'r' ∷ b's' ∷ b'e'
      ∷ b'r' ∷ []

abbrev pub authorized_send_type : Bytes
authorized_send_type =
    svote_v1
    ++ b'M' ∷ b's' ∷ b'g' ∷ b'A' ∷ b'u' ∷ b't' ∷ b'h' ∷ b'o' ∷ b'r' ∷ b'i' ∷ b'z' ∷ b'e' ∷ b'd'
      ∷ b'S' ∷ b'e' ∷ b'n' ∷ b'd' ∷ []

-- `strings.TrimPrefix(s, "/")`
abbrev trim_slash : Bytes → Bytes
trim_slash [] = []
trim_slash (c ∷ rest) = if c == b'/' then rest else c ∷ rest

-- What stands behind the last "/", if there is one.
unfoldable pub after_last_slash : Bytes → Option Bytes
after_last_slash [] = none
after_last_slash (c ∷ rest) = elim (after_last_slash rest) [
  | some tail ↦ some tail
  | none ↦ if c == b'/' then some rest else none
]

abbrev or_whole : Bytes → Option Bytes → Bytes
or_whole whole none = whole
or_whole whole (some tail) = tail

unfoldable pub coordinator_payload_type : Option Payload → Bytes
unfolding after_last_slash
coordinator_payload_type none = []
coordinator_payload_type (some any) =
    let type_url = trim_slash any.type_url in or_whole type_url (after_last_slash type_url)

abbrev decoded : {A : Type 0} → (A → CoordinatorMsg) → Option A → Result CoordinatorMsg
decoded wrap none = err Error.invalid_coordinator_action
decoded wrap (some msg) = ok (wrap msg)

-- The dispatch that checking and executing a payload share, with `unmarshalAnyPayload`. No payload
-- has the type "", which no case matches.
unfoldable pub decode_payload : Codec → Option Payload → Result CoordinatorMsg
unfolding coordinator_payload_type
decode_payload codec none = err Error.unsupported_coordinator_action
decode_payload codec (some any) =
    let t = coordinator_payload_type (some any) in
    if bytes_eq t create_voting_session_type
    then decoded CoordinatorMsg.create_voting_session (codec.create_voting_session any.value)
    else if bytes_eq t update_vote_managers_type
    then decoded CoordinatorMsg.update_vote_managers (codec.update_vote_managers any.value)
    else if bytes_eq t schedule_upgrade_type
    then decoded CoordinatorMsg.schedule_upgrade (codec.schedule_upgrade any.value)
    else if bytes_eq t cancel_upgrade_type
    then decoded CoordinatorMsg.cancel_upgrade (codec.cancel_upgrade any.value)
    else if bytes_eq t set_endorser_type
    then decoded CoordinatorMsg.set_endorser (codec.set_endorser any.value)
    else if bytes_eq t authorized_send_type
    then decoded CoordinatorMsg.authorized_send (codec.authorized_send any.value)
    else err Error.unsupported_coordinator_action

abbrev is_positive : Option ℤ → Bool
is_positive none = false
is_positive (some (pos n)) = ltb 0 n
is_positive (some (negsuc n)) = false

abbrev positive : ℤ → Bool
positive (pos n) = ltb 0 n
positive (negsuc n) = false

module _ {S : Type 0} (m : Modules S) where
  -- `Creator == ""`, then its bech32 form.
  abbrev pub need_creator : Bytes → Result Done
  need_creator creator =
      then_check (reject_if (length creator == 0) Error.invalid_field)
        (reject_if (not (is_some (m.normalize creator))) Error.invalid_field)

  unfoldable pub validate_update_vote_managers : MsgUpdateVoteManagers → Result Done
  validate_update_vote_managers msg = then_check (need_creator msg.creator) (
      then_check
        (validate_and_normalize_vote_manager_policy m.normalize msg.new_vote_managers
          msg.new_threshold)
        (reject_if (ltb (normalize_min_ceremony_validators msg.new_min_ceremony_validators) 1)
          Error.invalid_field))

  unfoldable pub validate_schedule_upgrade : MsgScheduleUpgrade → Result Done
  validate_schedule_upgrade msg = checks (
      reject_if (length msg.creator == 0) Error.invalid_field
      ∷ reject_if (length (m.trim_space msg.name) == 0) Error.invalid_field
      ∷ reject_if (not (positive msg.height)) Error.invalid_field
      ∷ reject_if (ltb max_upgrade_info_bytes (length msg.info)) Error.invalid_field
      ∷ [])

  unfoldable pub validate_cancel_upgrade : MsgCancelUpgrade → Result Done
  validate_cancel_upgrade msg = reject_if (length msg.creator == 0) Error.invalid_field

  unfoldable pub validate_set_endorser : MsgSetEndorser → Result Done
  unfolding validate_endorser_id
  validate_set_endorser msg = checks (
      need_creator msg.creator
      ∷ validate_endorser_id msg.endorser_id
      ∷ reject_if (not (length msg.address == 0) && not (is_some (m.normalize msg.address)))
          Error.invalid_field
      ∷ [])

  unfoldable pub validate_authorized_send : MsgAuthorizedSend → Result Done
  validate_authorized_send msg = checks (
      need_creator msg.creator
      ∷ reject_if (not (is_some (m.normalize msg.to_address))) Error.invalid_field
      ∷ reject_if (not (is_positive (m.int_from_string msg.amount))) Error.invalid_field
      ∷ [])

  unfoldable pub validate_propose_coordinator_action : MsgProposeCoordinatorAction → Result Done
  validate_propose_coordinator_action msg =
      then_check (need_creator msg.creator) (elim msg.payload [
        | none ↦ err Error.invalid_coordinator_action
        | some any ↦
            reject_if (length any.type_url == 0 || length any.value == 0)
              Error.invalid_coordinator_action
      ])

  unfoldable pub validate_approve_coordinator_action : MsgApproveCoordinatorAction → Result Done
  validate_approve_coordinator_action msg =
      then_check (need_creator msg.creator)
        (reject_if (msg.action_id == 0) Error.invalid_coordinator_action)

  -- The checks of `MsgEndorseRound` and of `MsgClearRoundEndorsement`, which have the same fields.
  unfoldable pub validate_endorse_round : MsgEndorseRound → Result Done
  unfolding validate_endorser_id
  validate_endorse_round msg = checks (
      need_creator msg.creator
      ∷ validate_endorser_id msg.endorser_id
      ∷ reject_if (not (length msg.vote_round_id == round_id_len)) Error.invalid_field
      ∷ [])
