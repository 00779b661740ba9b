-- ===== src/Keeper/Ceremony.antt =====
-- The ceremony of a round: thresholds, participants, contributions and acks
-- (x/vote/keeper/keeper_ceremony.go, x/vote/keeper/keeper_ceremony_jailing.go).
pub mod Quorum
pub mod Reads
pub mod Strip
use vote_sdk.Base.{
  ℕ, zero, suc, ◌+◌, ◌*◌, ◌/◌, Bool, true, false, not, ◌&&◌, ◌||◌, Option, none, some, List, [],
  ◌∷◌, ◌++◌, Bytes, bytes_eq, Error, Result, ok, err, Action, Done, lift, pure, raise_if, or_raise,
  ◌>>=◌, ◌>>◌, ltb, leb, ◌==◌, length, keep, any, find, is_some, if◌then◌else◌,
}
use vote_sdk.Types.{
  VoteRound, ValidatorPallasKey, DkgContribution, AckEntry, LogEvent, CeremonyStatus, Context,
  is_pending,
}
use vote_sdk.Kv.{KvStore}
use vote_sdk.Keeper.Rounds.{get_vote_round, iterate_pending_rounds, same_ceremony}

unfoldable pub append_ceremony_log : VoteRound → ℕ → LogEvent → VoteRound
append_ceremony_log round block_height event = record round {
  ceremony_log = round.ceremony_log ++ (block_height, event) ∷ [];
}

unfoldable pub threshold_for_n : ℕ → Result ℕ
threshold_for_n n =
    if ltb n 1
    then err Error.malformed
    else if n == 1
    then ok 1
    else let t = (2 * n + 2) / 3 in ok (if ltb t 2 then 2 else t)

unfoldable pub required_ceremony_quorum_for_n : ℕ → Result ℕ
required_ceremony_quorum_for_n n = if ltb n 1 then err Error.malformed else ok ((4 * n + 4) / 5)

unfoldable pub half_acked : VoteRound → Bool
half_acked round =
    let n = length round.ceremony_validators in
    if n == 0 then false else leb n (length round.ceremony_acks * 2)

unfoldable pub find_validator_in_round_ceremony : VoteRound → Bytes → Option ValidatorPallasKey
find_validator_in_round_ceremony round addr =
    find (λ v. bytes_eq v.validator_address addr) round.ceremony_validators

unfoldable pub find_contribution_in_round : VoteRound → Bytes → Option DkgContribution
find_contribution_in_round round addr =
    find (λ d. bytes_eq d.validator_address addr) round.dkg_contributions

-- The position of the first ack of a validator, from position `i`.
abbrev pub find_ack_from : ℕ → List AckEntry → Bytes → Option ℕ
find_ack_from i [] addr = none
find_ack_from i (a ∷ rest) addr =
    if bytes_eq a.validator_address addr then some i else find_ack_from (suc i) rest addr

-- `(-1, false)` is `none`.
unfoldable pub find_ack_in_round_ceremony : VoteRound → Bytes → Option ℕ
find_ack_in_round_ceremony round addr = find_ack_from 0 round.ceremony_acks addr

-- `acked[addr]`
abbrev pub has_acked : VoteRound → Bytes → Bool
has_acked round addr = any (λ a. bytes_eq a.validator_address addr) round.ceremony_acks

unfoldable pub strip_non_ackers_from_round : VoteRound → VoteRound
strip_non_ackers_from_round round = record round {
  ceremony_validators = keep (λ v. has_acked round v.validator_address) round.ceremony_validators;
  dkg_contributions = keep (λ d. has_acked round d.validator_address) round.dkg_contributions;
}

-- The addresses of `validators` outside `seen`, each once; `added` holds those already found.
missing_from : List Bytes → List Bytes → List ValidatorPallasKey → List Bytes
missing_from seen added [] = []
missing_from seen added (v ∷ rest) =
    elim (any (bytes_eq v.validator_address) seen || any (bytes_eq v.validator_address) added) [
      | true ↦ missing_from seen added rest
      | false ↦ v.validator_address ∷ missing_from seen (v.validator_address ∷ added) rest
    ]

abbrev contributors : List DkgContribution → List Bytes
contributors [] = []
contributors (d ∷ rest) = d.validator_address ∷ contributors rest

unfoldable pub missing_ceremony_contributors : VoteRound → List Bytes
unfolding missing_from
missing_ceremony_contributors round =
    missing_from (contributors round.dkg_contributions) [] round.ceremony_validators

module _ {S : Type 0} ⦃kv : KvStore S⦄ where
  unfoldable pub is_validator_in_pending_ceremony : Bytes → Action S Bool
  unfolding iterate_pending_rounds find_validator_in_round_ceremony
  is_validator_in_pending_ceremony addr =
      iterate_pending_rounds
        (λ acc r.
          if is_some (find_validator_in_round_ceremony r addr) then (true, true) else (acc, false))
        false

  unfoldable pub get_pending_round_with_ceremony : Bytes → CeremonyStatus → Action S VoteRound
  unfolding ◌>>=◌ get_vote_round
  get_pending_round_with_ceremony round_id want_ceremony = do
    round ← get_vote_round round_id
    raise_if (not (is_pending round.status)) Error.ceremony_wrong_status
    raise_if (not (same_ceremony round.ceremony_status want_ceremony)) Error.ceremony_wrong_status
    pure round

-- `ValidateProposerIsCreator`, over the staking module's resolution of a consensus address to an
-- operator address.
unfoldable pub validate_proposer_is_creator :
    {S : Type 0} → (Bytes → Option Bytes) → Context → Bytes → Action S Done
unfolding ◌>>=◌
validate_proposer_is_creator operator_of ctx creator = do
  raise_if (ctx.is_check_tx || ctx.is_recheck_tx) Error.invalid_field
  operator ← or_raise (operator_of ctx.proposer_address) Error.invalid_field
  raise_if (not (bytes_eq operator creator)) Error.invalid_field
