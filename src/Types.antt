-- ===== src/Types.antt =====
-- The messages that the store holds (proto/svote/v1, generated into x/vote/types/types.pb.go), the
-- constants of x/vote/types/keys.go, and the context of a call. A pointer that may be nil is an
-- `Option`; strings are byte strings; ceremony log entries keep the data that they print.
use vote_sdk.Base.{ℕ, ◌^◌, Bool, true, false, Option, none, some, List, Bytes, ℤ}

pub data SessionStatus : Type 0 where
  unspecified : SessionStatus
  active : SessionStatus
  tallying : SessionStatus
  finalized : SessionStatus
  pending : SessionStatus
  ceremony_failed : SessionStatus

pub data CeremonyStatus : Type 0 where
  unspecified : CeremonyStatus
  registering : CeremonyStatus
  dealt : CeremonyStatus
  confirmed : CeremonyStatus

abbrev pub is_active : SessionStatus → Bool
is_active SessionStatus.active = true
is_active _ = false

abbrev pub is_pending : SessionStatus → Bool
is_pending SessionStatus.pending = true
is_pending _ = false

abbrev pub is_tallying : SessionStatus → Bool
is_tallying SessionStatus.tallying = true
is_tallying _ = false

abbrev pub is_registering : CeremonyStatus → Bool
is_registering CeremonyStatus.registering = true
is_registering _ = false

abbrev pub is_dealt : CeremonyStatus → Bool
is_dealt CeremonyStatus.dealt = true
is_dealt _ = false

pub record VoteOption : Type 0 where
  pub index : ℕ
  pub label : Bytes
  pub description : Bytes

pub record Proposal : Type 0 where
  pub id : ℕ
  pub title : Bytes
  pub description : Bytes
  pub options : List (Option VoteOption)

pub record ValidatorPallasKey : Type 0 where
  pub validator_address : Bytes
  pub pallas_pk : Bytes
  pub shamir_index : ℕ

pub record DealerPayload : Type 0 where
  pub validator_address : Bytes
  pub ephemeral_pk : Bytes
  pub ciphertext : Bytes

pub record DkgContribution : Type 0 where
  pub validator_address : Bytes
  pub feldman_commitments : List Bytes
  pub payloads : List DealerPayload

pub record AckEntry : Type 0 where
  pub validator_address : Bytes
  pub ack_signature : Bytes
  pub ack_height : ℕ

-- What the entries of `ceremony_log` print, behind the block height.
pub data LogEvent : Type 0 where
  round_created : ℕ → LogEvent
  dkg_contribution : Bytes → ℕ → ℕ → LogEvent
  dkg_complete : ℕ → LogEvent
  acked : Bytes → ℕ → ℕ → LogEvent
  ceremony_confirmed : ℕ → ℕ → LogEvent
  registering_timeout : ℕ → ℕ → LogEvent
  jailed_non_contributors : ℕ → LogEvent
  dealt_timeout_confirmed : ℕ → ℕ → ℕ → LogEvent
  dealt_timeout_failed : ℕ → ℕ → ℕ → LogEvent
  dealt_timeout_no_validators : ℕ → LogEvent

pub record VoteRound : Type 0 where
  pub vote_round_id : Bytes
  pub snapshot_height : ℕ
  pub snapshot_blockhash : Bytes
  pub proposals_hash : Bytes
  pub vote_end_time : ℕ
  pub nullifier_imt_root : Bytes
  pub nc_root : Bytes
  pub creator : Bytes
  pub status : SessionStatus
  pub ea_pk : Bytes
  pub proposals : List (Option Proposal)
  pub description : Bytes
  pub created_at_height : ℕ
  pub title : Bytes
  pub ceremony_status : CeremonyStatus
  pub ceremony_validators : List ValidatorPallasKey
  pub ceremony_acks : List AckEntry
  pub ceremony_phase_start : ℕ
  pub ceremony_phase_timeout : ℕ
  pub ceremony_log : List (ℕ × LogEvent)
  pub threshold : ℕ
  pub feldman_commitments : List Bytes
  pub tally_phase_start : ℕ
  pub tally_phase_timeout : ℕ
  pub tally_timed_out : Bool
  pub dkg_contributions : List DkgContribution
  pub discussion_url : Bytes
  pub created_at_time : ℕ

pub record CommitmentTreeState : Type 0 where
  pub next_index : ℕ
  pub root : Bytes
  pub height : ℕ
  pub next_index_at_root : ℕ

pub record TallyResult : Type 0 where
  pub vote_round_id : Bytes
  pub proposal_id : ℕ
  pub vote_decision : ℕ
  pub total_value : ℕ

pub record TallyEntry : Type 0 where
  pub proposal_id : ℕ
  pub vote_decision : ℕ
  pub total_value : ℕ

pub record PartialDecryptionEntry : Type 0 where
  pub proposal_id : ℕ
  pub vote_decision : ℕ
  pub partial_decrypt : Bytes
  pub dleq_proof : Bytes

pub data ActionStatus : Type 0 where
  unspecified : ActionStatus
  pending : ActionStatus
  executed : ActionStatus
  expired : ActionStatus

-- A `google.protobuf.Any`.
pub record Payload : Type 0 where
  pub type_url : Bytes
  pub value : Bytes

pub record CoordinatorAction : Type 0 where
  pub action_id : ℕ
  pub payload : Payload
  pub proposer : Bytes
  pub approvals : List Bytes
  pub status : ActionStatus
  pub created_at : ℕ
  pub expires_at : ℕ
  pub executed_at : ℕ

pub record VoteManagerSet : Type 0 where
  pub addresses : List Bytes
  pub threshold : ℕ

-- What a key holds: raw bytes, or the bytes of a message, which stand for the message that
-- `proto.Marshal` wrote.
pub data Value : Type 0 where
  raw : Bytes → Value
  vote_round : VoteRound → Value
  tree_state : CommitmentTreeState → Value
  tally_result : TallyResult → Value
  pallas_key : ValidatorPallasKey → Value
  partial_decryption : PartialDecryptionEntry → Value
  coordinator_action : CoordinatorAction → Value
  vote_manager_set : VoteManagerSet → Value

-- `proto.Unmarshal` reads back what `proto.Marshal` wrote; it fails on other bytes.
abbrev pub as_vote_round : Value → Option VoteRound
as_vote_round (Value.vote_round r) = some r
as_vote_round _ = none

abbrev pub as_tree_state : Value → Option CommitmentTreeState
as_tree_state (Value.tree_state t) = some t
as_tree_state _ = none

abbrev pub as_tally_result : Value → Option TallyResult
as_tally_result (Value.tally_result t) = some t
as_tally_result _ = none

abbrev pub as_pallas_key : Value → Option ValidatorPallasKey
as_pallas_key (Value.pallas_key k) = some k
as_pallas_key _ = none

abbrev pub as_partial_decryption : Value → Option PartialDecryptionEntry
as_partial_decryption (Value.partial_decryption e) = some e
as_partial_decryption _ = none

abbrev pub as_coordinator_action : Value → Option CoordinatorAction
as_coordinator_action (Value.coordinator_action a) = some a
as_coordinator_action _ = none

abbrev pub as_vote_manager_set : Value → Option VoteManagerSet
as_vote_manager_set (Value.vote_manager_set v) = some v
as_vote_manager_set _ = none

-- The bytes of an entry that holds no message; no key of such an entry is a message's.
abbrev pub as_raw : Value → Option Bytes
as_raw (Value.raw b) = some b
as_raw _ = none

abbrev pub min_vote_options : ℕ
min_vote_options = 2

abbrev pub max_vote_options : ℕ
max_vote_options = 8

abbrev pub min_proposal_id : ℕ
min_proposal_id = 1

abbrev pub max_proposals : ℕ
max_proposals = 50

abbrev pub max_proof_size : ℕ
max_proof_size = 15360

abbrev pub default_contribution_timeout : ℕ
default_contribution_timeout = 600

abbrev pub default_deal_timeout : ℕ
default_deal_timeout = 600

abbrev pub default_tally_timeout : ℕ
default_tally_timeout = 21600

abbrev pub tally_bsgs_bound : ℕ
tally_bsgs_bound = 2 ^ 28

-- What a call reads of its `sdk.Context`.
pub record Context : Type 0 where
  pub is_check_tx : Bool
  pub is_recheck_tx : Bool
  pub block_height : ℕ
  pub block_time : ℤ
  pub proposer_address : Bytes
