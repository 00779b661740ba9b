-- ===== src/Keeper/Tally.antt =====
-- Tally accumulators, share counts, tally results and their completeness
-- (x/vote/keeper/keeper_tally.go).
pub mod Complete
pub mod Accumulate
use mathlib.Core.Option
use vote_sdk.Base.{
  ℕ, ◌+◌, ◌-◌, Bool, true, false, not, ◌&&◌, ◌||◌, Option, none, some, List, [], ◌∷◌, ◌++◌, map,
  Bytes, Error, Result, ok, err, Action, Done, lift, pure, or_raise, raise_if, ◌>>=◌, ◌>>◌, ltb,
  ◌==◌, length, drop, any, all, if◌then◌else◌, add64, then_check, reject_if,
}
use vote_sdk.Keys.{
  tally_key, tally_prefix_for_proposal, tally_result_key, tally_result_prefix_for_round,
  share_count_key, prefix_end_bytes, get_uint32_be, get_uint64_be, put_uint64_be,
}
use vote_sdk.Types.{
  Value, VoteRound, Proposal, TallyResult, TallyEntry, PartialDecryptionEntry, as_raw,
  as_tally_result, is_tallying,
}
use vote_sdk.Kv.{KvStore, kv_get, kv_set, kv_iterator}
use vote_sdk.Keeper.Rounds.{get_vote_round}
use vote_sdk.Crypto.{Curve}
use vote_sdk.Crypto.ElGamal.{
  Ciphertext, homomorphic_add, marshal_ciphertext, unmarshal_ciphertext, and_then,
}

-- The count under a key: 8 bytes, or 0.
abbrev stored_count : Option Value → ℕ
stored_count v = elim (Option.bind v as_raw) [
  | none ↦ 0
  | some b ↦ elim (length b == 8) [ true ↦ Option.get_or (get_uint64_be b) 0 | false ↦ 0 ]
]

-- The decision of each entry of a scan, from the last 4 bytes of its key.
abbrev decisions : List (Bytes × Value) → List (ℕ × Value)
decisions [] = []
decisions ((k, v) ∷ rest) = elim (get_uint32_be (drop (length k - 4) k)) [
  | some d ↦ (d, v) ∷ decisions rest
  | none ↦ decisions rest
]

-- `covered[key]`
abbrev pub covers : List (ℕ × ℕ) → ℕ × ℕ → Bool
covers keys (p, d) = any (λ e. e.0 == p && e.1 == d) keys

abbrev pub tally_keys : List TallyEntry → List (ℕ × ℕ)
tally_keys = map (λ e. (e.proposal_id, e.vote_decision))

abbrev pub partial_keys : List PartialDecryptionEntry → List (ℕ × ℕ)
partial_keys = map (λ e. (e.proposal_id, e.vote_decision))

abbrev decode_results : List (Bytes × Value) → Result (List TallyResult)
decode_results [] = ok []
decode_results ((_, v) ∷ rest) = elim (as_tally_result v) [
  | none ↦ err Error.malformed
  | some r ↦ and_then (decode_results rest) (λ rs. ok (r ∷ rs))
]

module _ {S : Type 0} ⦃kv : KvStore S⦄ where
  unfoldable pub get_tally : Bytes → ℕ → ℕ → Action S (Option Value)
  unfolding ◌>>=◌ kv_get
  get_tally round_id proposal_id decision = do
    key ← lift (tally_key round_id proposal_id decision)
    kv_get key

  unfoldable pub get_proposal_tally : Bytes → ℕ → Action S (List (ℕ × Value))
  unfolding ◌>>=◌ kv_iterator get_uint32_be
  get_proposal_tally round_id proposal_id = do
    prefix ← lift (tally_prefix_for_proposal round_id proposal_id)
    entries ← kv_iterator prefix (prefix_end_bytes prefix)
    pure (decisions entries)

  unfoldable pub increment_share_count : Bytes → ℕ → ℕ → Action S Done
  unfolding ◌>>=◌ kv_get kv_set get_uint64_be
  increment_share_count round_id proposal_id decision = do
    key ← lift (share_count_key round_id proposal_id decision)
    bz ← kv_get key
    kv_set key (Value.raw (put_uint64_be (add64 (stored_count bz) 1)))

  unfoldable pub get_share_count : Bytes → ℕ → ℕ → Action S ℕ
  unfolding ◌>>=◌ kv_get get_uint64_be
  get_share_count round_id proposal_id decision = do
    key ← lift (share_count_key round_id proposal_id decision)
    bz ← kv_get key
    pure (Option.get_or (Option.bind (Option.bind bz as_raw) get_uint64_be) 0)

  unfoldable pub set_tally_result : TallyResult → Action S Done
  unfolding ◌>>=◌ kv_set
  set_tally_result result = do
    key ← lift (tally_result_key result.vote_round_id result.proposal_id result.vote_decision)
    kv_set key (Value.tally_result result)

  abbrev read_tally_result : Option Value → Action S (Option TallyResult)
  read_tally_result none = pure none
  read_tally_result (some v) = do r ← or_raise (as_tally_result v) Error.malformed; pure (some r)

  unfoldable pub get_tally_result : Bytes → ℕ → ℕ → Action S (Option TallyResult)
  unfolding ◌>>=◌ kv_get
  get_tally_result round_id proposal_id decision = do
    key ← lift (tally_result_key round_id proposal_id decision)
    bz ← kv_get key
    read_tally_result bz

  unfoldable pub get_all_tally_results : Bytes → Action S (List TallyResult)
  unfolding ◌>>=◌ kv_iterator
  get_all_tally_results round_id = do
    prefix ← lift (tally_result_prefix_for_round round_id)
    entries ← kv_iterator prefix (prefix_end_bytes prefix)
    lift (decode_results entries)

  -- The pairs of one proposal, in front of those of the later ones; a nil proposal is a panic.
  unfoldable pub collect_from : Bytes → List (Option Proposal) → Action S (List (ℕ × ℕ))
  unfolding ◌>>=◌ get_proposal_tally
  collect_from round_id [] = pure []
  collect_from round_id (p ∷ rest) = do
    proposal ← or_raise p Error.panicked
    tally_map ← get_proposal_tally round_id proposal.id
    others ← collect_from round_id rest
    pure (map (λ e. (proposal.id, e.0)) tally_map ++ others)

  unfoldable pub collect_non_empty_accumulators : VoteRound → Action S (List (ℕ × ℕ))
  unfolding collect_from
  collect_non_empty_accumulators round = collect_from round.vote_round_id round.proposals

  unfoldable pub validate_tally_completeness : VoteRound → List TallyEntry → Action S Done
  unfolding ◌>>=◌ collect_non_empty_accumulators
  validate_tally_completeness round entries = do
    expected ← collect_non_empty_accumulators round
    raise_if (not (all (covers (tally_keys entries)) expected)) Error.tally_mismatch

  unfoldable pub validate_partial_decryption_completeness :
      VoteRound → List PartialDecryptionEntry → Action S Done
  unfolding ◌>>=◌ collect_non_empty_accumulators
  validate_partial_decryption_completeness round entries = do
    expected ← collect_non_empty_accumulators round
    raise_if (not (all (covers (partial_keys entries)) expected)) Error.invalid_field

  unfoldable pub validate_round_for_tally : Bytes → Action S Done
  unfolding ◌>>=◌ get_vote_round
  validate_round_for_tally round_id = do
    round ← get_vote_round round_id
    raise_if (not (is_tallying round.status)) Error.round_not_tallying

unfoldable pub validate_non_identity_ciphertext :
    {P F : Type 0} → Curve P F → Ciphertext P → Result Done
validate_non_identity_ciphertext c ct =
    then_check (reject_if (c.is_identity ct.c1) Error.malformed)
      (reject_if (c.is_identity ct.c2) Error.malformed)

-- What `AddToTally` writes: the first share as it came, else its sum with the accumulator.
unfoldable pub accumulated : {P F : Type 0} → Curve P F → Option Value → Bytes → Result Bytes
accumulated c none enc_share =
    and_then (unmarshal_ciphertext c enc_share)
      (λ share. then_check (validate_non_identity_ciphertext c share) (ok enc_share))
accumulated c (some existing) enc_share = elim (as_raw existing) [
  | none ↦ err Error.malformed
  | some bytes ↦ and_then (unmarshal_ciphertext c bytes) (λ acc.
      and_then (unmarshal_ciphertext c enc_share) (λ share.
        then_check (validate_non_identity_ciphertext c share) (
          let result = homomorphic_add c acc share in
          then_check (validate_non_identity_ciphertext c result) (marshal_ciphertext c result))))
]

module _ {S P F : Type 0} ⦃kv : KvStore S⦄ (c : Curve P F) where
  unfoldable pub add_to_tally : Bytes → ℕ → ℕ → Bytes → Action S Done
  unfolding ◌>>=◌ kv_get kv_set
  add_to_tally round_id proposal_id decision enc_share = do
    key ← lift (tally_key round_id proposal_id decision)
    existing ← kv_get key
    bytes ← lift (accumulated c existing enc_share)
    kv_set key (Value.raw bytes)
