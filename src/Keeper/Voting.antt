-- ===== src/Keeper/Voting.antt =====
-- Checks against a stored round: proposals, vote decisions and the voting window
-- (x/vote/keeper/keeper_voting.go, x/vote/types/vote_validation.go).
use vote_sdk.Base.{
  ℕ, suc, ◌-◌, Bool, not, ◌||◌, Option, none, some, List, [], ◌∷◌, Bytes, Error, Result, ok, err,
  Action, Done, lift, raise_if, ◌>>=◌, ◌>>◌, ltb, leb, ◌==◌, length, get_elem?, all, if◌then◌else◌,
  is_negative, to_uint64, then_check, reject_if,
}
use vote_sdk.Types.{
  VoteRound, Proposal, VoteOption, is_active, Context, min_vote_options, max_vote_options,
}
use vote_sdk.Kv.{KvStore}
use vote_sdk.Keeper.Rounds.{get_vote_round}

-- `len(options) < MinVoteOptions || len(options) > MaxVoteOptions`
abbrev bad_option_count : List (Option VoteOption) → Bool
bad_option_count options =
    ltb (length options) min_vote_options || ltb max_vote_options (length options)

is_ascii : Bytes → Bool
is_ascii s = all (λ c. leb c 127) s

-- The loop over the options from position `j`.
validate_options_from : ℕ → List (Option VoteOption) → Result Done
unfolding is_ascii
validate_options_from j [] = ok tt
validate_options_from j (none ∷ rest) = err Error.invalid_field
validate_options_from j (some opt ∷ rest) =
    then_check (reject_if (not (opt.index == j)) Error.invalid_field) (
      then_check (reject_if (length opt.label == 0) Error.invalid_field) (
        then_check (reject_if (not (is_ascii opt.label)) Error.invalid_field)
          (validate_options_from (suc j) rest)))

unfoldable pub validate_proposal_options : List (Option VoteOption) → Result Done
unfolding validate_options_from
validate_proposal_options options =
    then_check (reject_if (bad_option_count options) Error.invalid_field)
      (validate_options_from 0 options)

unfoldable pub validate_vote_choice : ℕ → List (Option VoteOption) → Result Done
validate_vote_choice vote_decision options =
    then_check (reject_if (bad_option_count options) Error.invalid_field)
      (reject_if (leb (length options) vote_decision) Error.invalid_field)

unfoldable pub validate_vote_choice_upper_bound : ℕ → Result Done
validate_vote_choice_upper_bound vote_decision =
    reject_if (leb max_vote_options vote_decision) Error.invalid_field

-- `proposalId < 1 || int(proposalId) > len(round.Proposals)`
abbrev pub bad_proposal_id : VoteRound → ℕ → Bool
bad_proposal_id round proposal_id = ltb proposal_id 1 || ltb (length round.proposals) proposal_id

-- What `round.Proposals[proposalId-1]` selects: a slice entry, which may be nil.
abbrev pub check_choice : Option (Option Proposal) → ℕ → Result Done
check_choice none decision = err Error.panicked
check_choice (some none) decision = err Error.invalid_proposal_id
check_choice (some (some proposal)) decision = validate_vote_choice decision proposal.options

unfoldable pub validate_entry_bounds : VoteRound → ℕ → ℕ → Result Done
unfolding validate_vote_choice
validate_entry_bounds round proposal_id vote_decision =
    then_check (reject_if (bad_proposal_id round proposal_id) Error.invalid_proposal_id)
      (check_choice (get_elem? round.proposals (proposal_id - 1)) vote_decision)

module _ {S : Type 0} ⦃kv : KvStore S⦄ where
  unfoldable pub validate_proposal_id : Bytes → ℕ → Action S Done
  unfolding ◌>>=◌ get_vote_round
  validate_proposal_id round_id proposal_id = do
    round ← get_vote_round round_id
    raise_if (bad_proposal_id round proposal_id) Error.invalid_proposal_id

  unfoldable pub validate_vote_decision : Bytes → ℕ → ℕ → Action S Done
  unfolding ◌>>=◌ get_vote_round validate_vote_choice
  validate_vote_decision round_id proposal_id vote_decision = do
    round ← get_vote_round round_id
    raise_if (bad_proposal_id round proposal_id) Error.invalid_proposal_id
    lift (check_choice (get_elem? round.proposals (proposal_id - 1)) vote_decision)

  -- The block time test: an unset header passes a mempool check and fails in a block.
  unfoldable pub validate_round_for_voting : Context → Bytes → Action S Done
  unfolding ◌>>=◌ get_vote_round
  validate_round_for_voting ctx round_id = do
    round ← get_vote_round round_id
    raise_if (not (is_active round.status)) Error.round_not_active
    if is_negative ctx.block_time
        then raise_if (not (ctx.is_check_tx || ctx.is_recheck_tx)) Error.malformed
        else raise_if (leb round.vote_end_time (to_uint64 ctx.block_time)) Error.round_not_active
