-- ===== src/Keeper/Rounds.antt =====
-- Vote rounds in the store (x/vote/keeper/keeper.go).
pub mod Stored
use vote_sdk.Base.{
  Bool, true, false, Option, none, some, List, [], ◌∷◌, Bytes, Error, Result, ok, err, Action, Done,
  lift, or_raise, ◌>>=◌, if◌then◌else◌,
}
use vote_sdk.Keys.{vote_round_key, prefix_end_bytes}
use vote_sdk.Types.{Value, VoteRound, SessionStatus, CeremonyStatus, as_vote_round, is_pending}
use vote_sdk.Kv.{KvStore, kv_get, kv_set, kv_iterator}

-- `==` on `CeremonyStatus`.
abbrev pub same_ceremony : CeremonyStatus → CeremonyStatus → Bool
same_ceremony CeremonyStatus.unspecified CeremonyStatus.unspecified = true
same_ceremony CeremonyStatus.registering CeremonyStatus.registering = true
same_ceremony CeremonyStatus.dealt CeremonyStatus.dealt = true
same_ceremony CeremonyStatus.confirmed CeremonyStatus.confirmed = true
same_ceremony _ _ = false

-- The loop of `iterateRounds` over the entries that are left: `cb` sees each round that passes
-- the filter, with what it gathered so far, and says whether to stop.
unfoldable pub scan_rounds :
    {A : Type 0}
    → (VoteRound → Bool)
    → (A → VoteRound → A × Bool)
    → A
    → List (Bytes × Value)
    → Result A
scan_rounds filter cb acc [] = ok acc
scan_rounds filter cb acc ((_, v) ∷ rest) = elim (as_vote_round v) [
  | none ↦ err Error.malformed
  | some round ↦ elim (filter round) [
    | false ↦ scan_rounds filter cb acc rest
    | true ↦ elim (cb acc round).1 [
      | true ↦ ok (cb acc round).0
      | false ↦ scan_rounds filter cb (cb acc round).0 rest
    ]
  ]
]

module _ {S : Type 0} ⦃kv : KvStore S⦄ where
  unfoldable pub get_vote_round : Bytes → Action S VoteRound
  unfolding ◌>>=◌ kv_get
  get_vote_round round_id = do
    key ← lift (vote_round_key round_id)
    bz ← kv_get key
    v ← or_raise bz Error.round_not_found
    or_raise (as_vote_round v) Error.malformed

  unfoldable pub set_vote_round : VoteRound → Action S Done
  unfolding ◌>>=◌ kv_set
  set_vote_round round = do
    key ← lift (vote_round_key round.vote_round_id)
    kv_set key (Value.vote_round round)

  unfoldable pub update_vote_round_status : Bytes → SessionStatus → Action S Done
  unfolding ◌>>=◌ get_vote_round set_vote_round
  update_vote_round_status round_id new_status = do
    round ← get_vote_round round_id
    set_vote_round (record round { status = new_status })

  unfoldable pub iterate_rounds :
      {A : Type 0} → (VoteRound → Bool) → (A → VoteRound → A × Bool) → A → Action S A
  unfolding ◌>>=◌ kv_iterator prefix_end_bytes scan_rounds
  iterate_rounds filter cb acc = do
    entries ← kv_iterator (0x04 ∷ []) (prefix_end_bytes (0x04 ∷ []))
    lift (scan_rounds filter cb acc entries)

  unfoldable pub iterate_pending_rounds : {A : Type 0} → (A → VoteRound → A × Bool) → A → Action S A
  unfolding iterate_rounds
  iterate_pending_rounds cb acc = iterate_rounds (λ r. is_pending r.status) cb acc

  unfoldable pub has_pending_round : Action S Bool
  unfolding iterate_pending_rounds
  has_pending_round = iterate_pending_rounds (λ _ _. (true, true)) false

  unfoldable pub find_first_pending_round : CeremonyStatus → Action S (Option VoteRound)
  unfolding iterate_pending_rounds
  find_first_pending_round status =
      iterate_pending_rounds
        (λ acc r. if same_ceremony r.ceremony_status status then (some r, true) else (acc, false))
        none
