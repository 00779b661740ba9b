-- ===== src/EndBlock.antt =====
-- The end of a block (x/vote/module.go, `EndBlock`; x/vote/keeper/keeper_ceremony_jailing.go): tree
-- roots, then the transitions of rounds by time, phase by phase over one shared list of rounds.
pub mod Steps
pub mod Transitions
pub mod Stored
pub mod Phases
pub mod Moved
use vote_sdk.Base.{
  ℕ, Bool, true, false, not, ◌&&◌, ◌||◌, Option, none, some, List, [], ◌∷◌, ◌++◌, Bytes, bytes_eq,
  Error, Result, ok, err, Action, Done, lift, pure, raise_if, ◌>>=◌, ◌>>◌, add64, sub64, to_uint64,
  ltb, leb, ◌==◌, length, if◌then◌else◌,
}
use vote_sdk.Types.{
  VoteRound, SessionStatus, CeremonyStatus, LogEvent, Context, CommitmentTreeState, is_active,
  is_pending, is_tallying, is_registering, is_dealt, default_tally_timeout,
}
use vote_sdk.Kv.{KvStore}
use vote_sdk.Keeper.Rounds.{iterate_rounds, set_vote_round}
use vote_sdk.Keeper.Tree.{
  get_commitment_tree_state, set_commitment_tree_state, set_commitment_root_at_height,
  set_block_leaf_index,
}
use vote_sdk.Keeper.Ceremony.{
  append_ceremony_log, required_ceremony_quorum_for_n, strip_non_ackers_from_round,
  missing_ceremony_contributors,
}

-- The SDK's staking and slashing modules: whether a validator is jailed, and jailing one for a
-- duration.
pub record Slashing (S : Type 0) : Type 0 where
  pub downtime_jail_duration : Action S ℕ
  pub is_jailed : Bytes → Action S Bool
  pub jail : Bytes → ℕ → Action S Done

-- `blockTime < start+timeout`, on uint64.
abbrev before_deadline : ℕ → ℕ → ℕ → Bool
before_deadline now start timeout = ltb now (add64 start timeout)

-- Phase 2: an active round whose voting has ended turns to tallying.
unfoldable pub voting_ended : ℕ → VoteRound → Bool
voting_ended now round = not (not (is_active round.status) || ltb now round.vote_end_time)

unfoldable pub start_tallying : ℕ → VoteRound → VoteRound
start_tallying now round = record round {
  status = SessionStatus.tallying;
  tally_phase_start = now;
  tally_phase_timeout = default_tally_timeout;
}

-- Phase 3: a pending round in registration past its timeout fails.
unfoldable pub registering_timed_out : ℕ → VoteRound → Bool
registering_timed_out now round = not (
    not (is_pending round.status)
    || not (is_registering round.ceremony_status)
    || round.ceremony_phase_timeout == 0
    || before_deadline now round.ceremony_phase_start round.ceremony_phase_timeout)

abbrev log_jailed : ℕ → ℕ → VoteRound → VoteRound
log_jailed height jailed round =
    if ltb 0 jailed
    then append_ceremony_log round height (LogEvent.jailed_non_contributors jailed)
    else round

unfoldable pub fail_registering : ℕ → ℕ → VoteRound → VoteRound
unfolding append_ceremony_log
fail_registering height jailed round =
    record (log_jailed height jailed (
      append_ceremony_log round height (
        LogEvent.registering_timeout (length round.dkg_contributions)
          (length round.ceremony_validators)))) { status = SessionStatus.ceremony_failed }

-- Phase 4: a dealt round past its timeout is confirmed at the quorum of acks, and fails below it.
unfoldable pub dealt_timed_out : ℕ → VoteRound → Bool
dealt_timed_out now round = not (
    not (is_pending round.status)
    || not (is_dealt round.ceremony_status)
    || round.ceremony_phase_timeout == 0
    || before_deadline now round.ceremony_phase_start round.ceremony_phase_timeout)

abbrev fail_dealt : ℕ → LogEvent → VoteRound → VoteRound
fail_dealt height event round = record (append_ceremony_log round height event) {
  status = SessionStatus.ceremony_failed;
}

-- The log's count of stripped validators, `nVals - nAcks`, is not kept apart from the two numbers.
abbrev decide_dealt : ℕ → Result ℕ → VoteRound → VoteRound
decide_dealt height (err _) round =
    fail_dealt height (LogEvent.dealt_timeout_no_validators (length round.ceremony_validators))
      round
decide_dealt height (ok required) round =
    let n_acks = length round.ceremony_acks in
    let n_vals = length round.ceremony_validators in
    if leb required n_acks
    then append_ceremony_log
        (record (strip_non_ackers_from_round round) {
          ceremony_status = CeremonyStatus.confirmed;
          status = SessionStatus.active;
        })
        height (LogEvent.dealt_timeout_confirmed n_acks n_vals required)
    else fail_dealt height (LogEvent.dealt_timeout_failed n_acks n_vals required) round

unfoldable pub end_dealing : ℕ → VoteRound → VoteRound
unfolding append_ceremony_log required_ceremony_quorum_for_n strip_non_ackers_from_round
end_dealing height round =
    decide_dealt height (required_ceremony_quorum_for_n (length round.ceremony_validators)) round

-- Phase 5: a round that tallies past its timeout is finalized without results.
unfoldable pub tally_timed_out : ℕ → VoteRound → Bool
tally_timed_out now round = not (
    not (is_tallying round.status)
    || round.tally_phase_timeout == 0
    || before_deadline now round.tally_phase_start round.tally_phase_timeout)

unfoldable pub finalize_timed_out : VoteRound → VoteRound
finalize_timed_out round = record round { status = SessionStatus.finalized; tally_timed_out = true }

-- The rounds that a block looks at.
abbrev is_live : VoteRound → Bool
is_live round = is_active round.status || is_pending round.status || is_tallying round.status

module _ {S : Type 0} ⦃kv : KvStore S⦄ where
  -- A loop over the shared rounds: each body sees its round and leaves it for the later phases.
  unfoldable pub each_round :
      (VoteRound → Action S VoteRound) → List VoteRound → Action S (List VoteRound)
  unfolding ◌>>=◌
  each_round body [] = pure []
  each_round body (round ∷ rest) = do
    round' ← body round
    rest' ← each_round body rest
    pure (round' ∷ rest')

  -- A round that is due is changed and stored; the loop continues past any other.
  unfoldable pub when_due : Bool → VoteRound → VoteRound → Action S VoteRound
  unfolding ◌>>=◌ set_vote_round
  when_due false round changed = pure round
  when_due true round changed = set_vote_round changed >> pure changed

  unfoldable pub jail_each : Slashing S → ℕ → List Bytes → Action S (List Bytes)
  unfolding ◌>>=◌
  jail_each slashing duration [] = pure []
  jail_each slashing duration (addr ∷ rest) = do
    jailed ← slashing.is_jailed addr
    if jailed
        then jail_each slashing duration rest
        else (slashing.jail addr duration >> jail_each slashing duration rest) >>= λ others.
            pure (addr ∷ others)

  unfoldable pub jail_ceremony_validators : Slashing S → List Bytes → Action S (List Bytes)
  unfolding ◌>>=◌ jail_each
  jail_ceremony_validators slashing [] = pure []
  jail_ceremony_validators slashing (addr ∷ rest) =
      slashing.downtime_jail_duration >>= λ duration. jail_each slashing duration (addr ∷ rest)

  -- `compute_root` is `ComputeTreeRoot`, which asks the Rust tree for the root over the leaves.
  unfoldable pub update_root :
      (Bytes → ℕ → ℕ → Action S Bytes) → Context → VoteRound → CommitmentTreeState → Action S Done
  unfolding ◌>>=◌ set_commitment_root_at_height set_block_leaf_index set_commitment_tree_state
  update_root compute_root ctx round state = do
    root ← compute_root round.vote_round_id state.next_index ctx.block_height
    let leaf_start = state.next_index_at_root
    let leaf_count = sub64 state.next_index leaf_start
    if bytes_eq root state.root
        then pure tt
        else set_commitment_root_at_height round.vote_round_id ctx.block_height root
          >> (if ltb 0 leaf_count
              then set_block_leaf_index round.vote_round_id ctx.block_height leaf_start leaf_count
              else pure tt)
          >> set_commitment_tree_state round.vote_round_id (record state {
            root = root;
            height = ctx.block_height;
            next_index_at_root = state.next_index;
          })

  unfoldable pub root_phase :
      (Bytes → ℕ → ℕ → Action S Bytes) → Context → VoteRound → Action S VoteRound
  unfolding ◌>>=◌ get_commitment_tree_state update_root
  root_phase compute_root ctx round =
      if not (is_active round.status)
      then pure round
      else get_commitment_tree_state round.vote_round_id >>= λ state.
          (if state.next_index == 0 then pure tt else update_root compute_root ctx round state)
          >> pure round

  unfoldable pub voting_phase : ℕ → VoteRound → Action S VoteRound
  unfolding when_due start_tallying voting_ended
  voting_phase now round = when_due (voting_ended now round) round (start_tallying now round)

  unfoldable pub registering_phase : Slashing S → ℕ → Context → VoteRound → Action S VoteRound
  unfolding ◌>>=◌ when_due jail_ceremony_validators missing_ceremony_contributors
      registering_timed_out fail_registering
  registering_phase slashing now ctx round =
      if registering_timed_out now round
      then (jail_ceremony_validators slashing (missing_ceremony_contributors round) >>= λ jailed.
          when_due true round (fail_registering ctx.block_height (length jailed) round))
      else pure round

  unfoldable pub dealt_phase : ℕ → Context → VoteRound → Action S VoteRound
  unfolding when_due dealt_timed_out end_dealing
  dealt_phase now ctx round =
      when_due (dealt_timed_out now round) round (end_dealing ctx.block_height round)

  unfoldable pub tally_phase : ℕ → VoteRound → Action S VoteRound
  unfolding when_due tally_timed_out finalize_timed_out
  tally_phase now round = when_due (tally_timed_out now round) round (finalize_timed_out round)

  unfoldable pub collect_live : Action S (List VoteRound)
  unfolding iterate_rounds
  collect_live =
      iterate_rounds (λ _. true) (λ acc r. (if is_live r then acc ++ r ∷ [] else acc, false)) []

  unfoldable pub advance_rounds :
      Slashing S
      → (Bytes → ℕ → ℕ → Action S Bytes)
      → Context
      → List VoteRound
      → Action S (List VoteRound)
  unfolding ◌>>=◌ each_round root_phase voting_phase registering_phase dealt_phase tally_phase
  advance_rounds slashing compute_root ctx rounds = do
    rooted ← each_round (root_phase compute_root ctx) rounds
    let now = to_uint64 ctx.block_time
    tallying ← each_round (voting_phase now) rooted
    registered ← each_round (registering_phase slashing now ctx) tallying
    dealt ← each_round (dealt_phase now ctx) registered
    each_round (tally_phase now) dealt

  unfoldable pub end_block : Slashing S → (Bytes → ℕ → ℕ → Action S Bytes) → Context → Action S Done
  unfolding ◌>>=◌ collect_live advance_rounds
  end_block slashing compute_root ctx = do
    rounds ← collect_live
    advance_rounds slashing compute_root ctx rounds
    pure tt
