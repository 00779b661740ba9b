-- ===== src/Keeper/Managers.antt =====
-- The coordinator policy: the vote managers with their threshold, and the minimum number of
-- ceremony validators (x/vote/keeper/keeper_vote_managers.go, x/vote/keeper/keeper_min_validators.go,
-- x/vote/types/genesis.go).
pub mod Policy
use vote_sdk.Base.{
  ℕ, zero, suc, ◌+◌, ◌*◌, ◌^◌, Bool, true, false, not, ◌&&◌, Option, none, some, List, [], ◌∷◌,
  Bytes, bytes_eq, Error, Result, ok, err, Action, Done, lift, pure, raise_if, or_raise, ◌>>=◌,
  ◌>>◌, ltb, length, any, if◌then◌else◌, uint32, ◌==◌,
}
use vote_sdk.Keys.{put_uint32_be, get_uint32_be}
use vote_sdk.Types.{Value, VoteManagerSet, as_vote_manager_set, as_raw}
use vote_sdk.Kv.{KvStore, kv_get, kv_set}

abbrev pub vote_manager_set_key : Bytes
vote_manager_set_key = 0x0A ∷ []

abbrev pub min_ceremony_validators_key : Bytes
min_ceremony_validators_key = 0x13 ∷ []

abbrev pub default_min_ceremony_validators : ℕ
default_min_ceremony_validators = 1

unfoldable pub normalize_vote_manager_threshold : ℕ → ℕ
normalize_vote_manager_threshold threshold = if threshold == 0 then 1 else threshold

unfoldable pub normalize_min_ceremony_validators : ℕ → ℕ
normalize_min_ceremony_validators min_validators = if min_validators == 0 then 1 else min_validators

-- `normalized = append(normalized, canonical)`, unless the loop returns an error.
abbrev pub put_first : Bytes → Result (List Bytes) → Result (List Bytes)
put_first canonical (err e) = err e
put_first canonical (ok normalized) = ok (canonical ∷ normalized)

-- The loop of the policy check. `normalize` is `sdk.AccAddressFromBech32`, then `String()`.
unfoldable pub normalize_managers :
    (Bytes → Option Bytes) → List Bytes → List Bytes → Result (List Bytes)
normalize_managers normalize seen [] = ok []
normalize_managers normalize seen (addr ∷ rest) = elim (normalize addr) [
  | none ↦ err Error.external
  | some canonical ↦ elim (any (bytes_eq canonical) seen) [
    | true ↦ err Error.duplicate_vote_manager
    | false ↦ put_first canonical (normalize_managers normalize (canonical ∷ seen) rest)
  ]
]

-- The checks of the threshold against the normalized managers.
abbrev pub checked_policy : ℕ → Result (List Bytes) → Result (List Bytes × ℕ)
checked_policy threshold (err e) = err e
checked_policy threshold (ok normalized) =
    let effective = normalize_vote_manager_threshold threshold in
    if ltb effective 1
    then err Error.invalid_threshold
    else if ltb (uint32 (length normalized)) effective
    then err Error.invalid_threshold
    else ok (normalized, effective)

unfoldable pub validate_and_normalize_vote_manager_policy :
    (Bytes → Option Bytes) → List Bytes → ℕ → Result (List Bytes × ℕ)
unfolding normalize_managers
validate_and_normalize_vote_manager_policy normalize addrs threshold =
    if length addrs == 0
    then err Error.empty_vote_manager_set
    else checked_policy threshold (normalize_managers normalize [] addrs)

-- The stored set; a missing one is nil.
abbrev pub read_vote_managers : Option Value → Result (Option VoteManagerSet)
read_vote_managers none = ok none
read_vote_managers (some v) = elim (as_vote_manager_set v) [
  | none ↦ err Error.malformed
  | some set ↦ ok (some (record set { threshold = normalize_vote_manager_threshold set.threshold }))
]

-- `set == nil || len(set.Addresses) == 0`
abbrev pub installed : Option VoteManagerSet → Option VoteManagerSet
installed none = none
installed (some set) = if length set.addresses == 0 then none else some set

-- Membership of a canonical address.
abbrev pub listed : List Bytes → Option Bytes → Bool
listed addresses none = false
listed addresses (some a) = any (bytes_eq a) addresses

abbrev member_of : Option VoteManagerSet → Option Bytes → Bool
member_of none a = false
member_of (some set) a = listed set.addresses a

-- Four big-endian bytes; any other entry is the default.
abbrev read_min_validators : Option Bytes → ℕ
read_min_validators none = default_min_ceremony_validators
read_min_validators (some bz) =
    if length bz == 4
    then elim (get_uint32_be bz) [ none ↦ default_min_ceremony_validators | some v ↦ v ]
    else default_min_ceremony_validators

abbrev raw_bytes : Option Value → Option Bytes
raw_bytes none = none
raw_bytes (some v) = as_raw v

module _ {S : Type 0} ⦃kv : KvStore S⦄ where
  unfoldable pub get_vote_managers : Action S (Option VoteManagerSet)
  unfolding ◌>>=◌ kv_get
  get_vote_managers = do bz ← kv_get vote_manager_set_key; lift (read_vote_managers bz)

  unfoldable pub set_vote_managers : (Bytes → Option Bytes) → VoteManagerSet → Action S Done
  unfolding ◌>>=◌ kv_set
  set_vote_managers normalize set = do
    policy ← lift (validate_and_normalize_vote_manager_policy normalize set.addresses set.threshold)
    kv_set vote_manager_set_key
        (Value.vote_manager_set (record { addresses = policy.0; threshold = policy.1 }))

  unfoldable pub is_vote_manager : (Bytes → Option Bytes) → Bytes → Action S Bool
  unfolding ◌>>=◌ get_vote_managers
  is_vote_manager normalize addr = do set ← get_vote_managers; pure (member_of set (normalize addr))

  unfoldable pub validate_vote_manager_approver : (Bytes → Option Bytes) → Bytes → Action S Bytes
  unfolding ◌>>=◌ get_vote_managers
  validate_vote_manager_approver normalize creator = do
    found ← get_vote_managers
    set ← or_raise (installed found) Error.no_vote_managers
    normalized ← or_raise (normalize creator) Error.not_authorized
    raise_if (not (any (bytes_eq normalized) set.addresses)) Error.not_authorized
    pure normalized

  unfoldable pub validate_vote_manager_only : (Bytes → Option Bytes) → Bytes → Action S Done
  unfolding ◌>>=◌ validate_vote_manager_approver
  validate_vote_manager_only normalize creator = do
    approver ← validate_vote_manager_approver normalize creator
    pure tt

  unfoldable pub get_min_ceremony_validators : Action S ℕ
  unfolding ◌>>=◌ kv_get get_uint32_be
  get_min_ceremony_validators = do
    bz ← kv_get min_ceremony_validators_key
    pure (read_min_validators (raw_bytes bz))

  unfoldable pub set_min_ceremony_validators : ℕ → Action S Done
  unfolding kv_set
  set_min_ceremony_validators val =
      kv_set min_ceremony_validators_key (Value.raw (put_uint32_be val))
