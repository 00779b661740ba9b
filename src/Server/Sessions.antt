-- ===== src/Server/Sessions.antt =====
-- Opening a voting session (`executeCreateVotingSession` of x/vote/keeper/msg_server.go), which a
-- coordinator action executes.
pub mod Opening
pub mod Session
use vote_sdk.Base.{
  ℕ, suc, ◌+◌, Bool, true, false, Option, none, some, List, [], ◌∷◌, Bytes, Error, Result, ok, err,
  Action, Done, lift, pure, raise_if, ◌>>=◌, ◌>>◌, ltb, length, uint32, to_uint64,
}
use vote_sdk.Types.{
  VoteRound, ValidatorPallasKey, SessionStatus, CeremonyStatus, LogEvent, Context,
  default_contribution_timeout,
}
use vote_sdk.Kv.{KvStore}
use vote_sdk.Keeper.Rounds.{get_vote_round, set_vote_round, has_pending_round}
use vote_sdk.Keeper.Ceremony.{append_ceremony_log}
use vote_sdk.Keeper.Registry.{StakingValidator, get_eligible_validators}
use vote_sdk.Keeper.Managers.{get_min_ceremony_validators}
use vote_sdk.Msgs.{MsgCreateVotingSession}

-- A call as its outcome, for code that looks at the error.
unfoldable pub observe : {S A : Type 0} → Action S A → Action S (Result A)
observe m s = let (r, t) = m s in (ok r, t)

-- A round that is found is a clash; an error other than `ErrRoundNotFound` is passed on.
abbrev pub must_be_new : Result VoteRound → Result Done
must_be_new (ok _) = err Error.round_already_exists
must_be_new (err Error.round_not_found) = ok tt
must_be_new (err e) = err e

-- Each validator's 1-based Shamir index, from position `i`.
unfoldable pub assign_shamir_indices : ℕ → List ValidatorPallasKey → List ValidatorPallasKey
assign_shamir_indices i [] = []
assign_shamir_indices i (v ∷ rest) =
    record v { shamir_index = uint32 (i + 1) } ∷ assign_shamir_indices (suc i) rest

-- The round that the handler stores.
unfoldable pub opened_round :
    Context → MsgCreateVotingSession → Bytes → List ValidatorPallasKey → VoteRound
unfolding append_ceremony_log assign_shamir_indices
opened_round ctx msg round_id eligible =
    append_ceremony_log
      (record {
        vote_round_id = round_id;
        snapshot_height = msg.snapshot_height;
        snapshot_blockhash = msg.snapshot_blockhash;
        proposals_hash = msg.proposals_hash;
        vote_end_time = msg.vote_end_time;
        nullifier_imt_root = msg.nullifier_imt_root;
        nc_root = msg.nc_root;
        creator = msg.creator;
        status = SessionStatus.pending;
        ea_pk = [];
        proposals = msg.proposals;
        description = msg.description;
        created_at_height = ctx.block_height;
        title = msg.title;
        ceremony_status = CeremonyStatus.registering;
        ceremony_validators = assign_shamir_indices 0 eligible;
        ceremony_acks = [];
        ceremony_phase_start = to_uint64 ctx.block_time;
        ceremony_phase_timeout = default_contribution_timeout;
        ceremony_log = [];
        threshold = 0;
        feldman_commitments = [];
        tally_phase_start = 0;
        tally_phase_timeout = 0;
        tally_timed_out = false;
        dkg_contributions = [];
        discussion_url = msg.discussion_url;
        created_at_time = to_uint64 ctx.block_time;
      })
      ctx.block_height (LogEvent.round_created (length eligible))

module _ {S : Type 0} ⦃kv : KvStore S⦄ where
  -- The lookup of an existing round.
  unfoldable pub check_new : Bytes → Action S Done
  unfolding ◌>>=◌ observe
  check_new round_id = do existing ← observe (get_vote_round round_id); lift (must_be_new existing)

  -- The handler, once the id is known.
  unfoldable pub open_session :
      (Bytes → Option StakingValidator) → Context → MsgCreateVotingSession → Bytes → Action S Bytes
  unfolding ◌>>=◌ check_new
  open_session get_validator ctx msg round_id = do
    check_new round_id
    has_pending ← has_pending_round
    raise_if has_pending Error.ceremony_session_active
    eligible ← get_eligible_validators get_validator
    min_val ← get_min_ceremony_validators
    raise_if (ltb (uint32 (length eligible)) min_val) Error.insufficient_validators
    set_vote_round (opened_round ctx msg round_id eligible)
    pure round_id

  -- `derive_round_id` is the Poseidon hash over FFI, of the message and the creation height.
  unfoldable pub execute_create_voting_session :
      (MsgCreateVotingSession → ℕ → Result Bytes)
      → (Bytes → Option StakingValidator)
      → Context
      → MsgCreateVotingSession
      → Action S Bytes
  unfolding ◌>>=◌ open_session
  execute_create_voting_session derive_round_id get_validator ctx msg = do
    round_id ← lift (derive_round_id msg ctx.block_height)
    open_session get_validator ctx msg round_id
