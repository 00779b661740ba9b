-- ===== src/Keeper/Registry.antt =====
-- The registry of validators' Pallas keys, with its reverse index from keys to validators
-- (x/vote/keeper/keeper_pallas_registry.go).
pub mod Indexes
pub mod Rotation
use vote_sdk.Base.{
  Bool, true, false, not, ◌&&◌, Option, none, some, List, [], ◌∷◌, ◌++◌, Bytes, bytes_eq, Error,
  Result, ok, err, Action, Done, lift, pure, raise, or_raise, raise_if, ◌>>=◌, ◌>>◌, length, ◌==◌,
  if◌then◌else◌,
}
use vote_sdk.Keys.{pallas_key_key, pallas_key_reverse_lookup_key, prefix_end_bytes}
use vote_sdk.Types.{Value, ValidatorPallasKey, as_pallas_key, as_raw}
use vote_sdk.Kv.{KvStore, kv_get, kv_has, kv_set, kv_delete, kv_iterator}

-- What the staking module knows of a validator: `GetStatus() == Bonded` and `Jailed`.
pub record StakingValidator : Type 0 where
  pub bonded : Bool
  pub jailed : Bool

-- `getActiveCeremonyValidator`, over the staking module's lookup of an operator address, which
-- fails on an address that does not parse.
unfoldable pub get_active_ceremony_validator :
    (Bytes → Option StakingValidator) → Bytes → Result StakingValidator
get_active_ceremony_validator get_validator valoper_addr = elim (get_validator valoper_addr) [
  | none ↦ err Error.external
  | some val ↦ if val.bonded && not val.jailed then ok val else err Error.external
]

unfoldable pub is_active_ceremony_validator : (Bytes → Option StakingValidator) → Bytes → Bool
unfolding get_active_ceremony_validator
is_active_ceremony_validator get_validator val_addr =
    elim (get_active_ceremony_validator get_validator val_addr) [ ok _ ↦ true | err _ ↦ false ]

-- The entry of a validator; a missing one is nil.
abbrev pub read_pallas_key : Option Value → Result (Option ValidatorPallasKey)
read_pallas_key none = ok none
read_pallas_key (some v) = elim (as_pallas_key v) [
  | none ↦ err Error.malformed
  | some k ↦ ok (some k)
]

-- The owner under a key's index entry, which holds an address; a missing one is "".
abbrev pub read_owner : Option Value → Result Bytes
read_owner none = ok []
read_owner (some v) = elim (as_raw v) [ none ↦ err Error.malformed | some addr ↦ ok addr ]

-- The loop of `IterateAllPallasKeys`: `cb` sees each entry with what it gathered so far, and says
-- whether to stop.
unfoldable pub scan_pallas_keys :
    {A : Type 0} → (A → ValidatorPallasKey → A × Bool) → A → List (Bytes × Value) → Result A
scan_pallas_keys cb acc [] = ok acc
scan_pallas_keys cb acc ((_, v) ∷ rest) = elim (as_pallas_key v) [
  | none ↦ err Error.malformed
  | some vpk ↦ elim (cb acc vpk).1 [
    | true ↦ ok (cb acc vpk).0
    | false ↦ scan_pallas_keys cb (cb acc vpk).0 rest
  ]
]

module _ {S : Type 0} ⦃kv : KvStore S⦄ where
  unfoldable pub get_pallas_key : Bytes → Action S (Option ValidatorPallasKey)
  unfolding ◌>>=◌ kv_get
  get_pallas_key valoper_addr = do
    bz ← kv_get (pallas_key_key valoper_addr)
    lift (read_pallas_key bz)

  unfoldable pub set_pallas_key : ValidatorPallasKey → Action S Done
  unfolding ◌>>=◌ kv_set
  set_pallas_key vpk = do
    kv_set (pallas_key_key vpk.validator_address) (Value.pallas_key vpk)
    kv_set (pallas_key_reverse_lookup_key vpk.pallas_pk) (Value.raw vpk.validator_address)

  unfoldable pub get_pallas_key_owner : Bytes → Action S Bytes
  unfolding ◌>>=◌ kv_get
  get_pallas_key_owner pallas_pk = do
    bz ← kv_get (pallas_key_reverse_lookup_key pallas_pk)
    lift (read_owner bz)

  unfoldable pub has_pallas_key : Bytes → Action S Bool
  unfolding kv_has
  has_pallas_key valoper_addr = kv_has (pallas_key_key valoper_addr)

  unfoldable pub iterate_all_pallas_keys :
      {A : Type 0} → (A → ValidatorPallasKey → A × Bool) → A → Action S A
  unfolding ◌>>=◌ kv_iterator prefix_end_bytes scan_pallas_keys
  iterate_all_pallas_keys cb acc = do
    entries ← kv_iterator (0x0C ∷ []) (prefix_end_bytes (0x0C ∷ []))
    lift (scan_pallas_keys cb acc entries)

  unfoldable pub register_pallas_key_core : Bytes → Bytes → Action S Done
  unfolding ◌>>=◌ has_pallas_key get_pallas_key_owner set_pallas_key
  register_pallas_key_core val_addr pallas_pk = do
    has ← has_pallas_key val_addr
    raise_if has Error.duplicate_registration
    owner ← get_pallas_key_owner pallas_pk
    raise_if (not (length owner == 0)) Error.duplicate_pallas_key
    set_pallas_key
        (record { validator_address = val_addr; pallas_pk = pallas_pk; shamir_index = 0 })

  unfoldable pub delete_pallas_key_reverse : Bytes → Action S Done
  unfolding kv_delete
  delete_pallas_key_reverse pallas_pk = kv_delete (pallas_key_reverse_lookup_key pallas_pk)

  -- The old key, for the event.
  unfoldable pub rotate_pallas_key_core : Bytes → Bytes → Action S Bytes
  unfolding ◌>>=◌ get_pallas_key get_pallas_key_owner set_pallas_key delete_pallas_key_reverse
  rotate_pallas_key_core val_addr new_pallas_pk = do
    found ← get_pallas_key val_addr
    existing ← or_raise found Error.no_pallas_key
    raise_if (bytes_eq existing.pallas_pk new_pallas_pk) Error.same_key
    owner ← get_pallas_key_owner new_pallas_pk
    raise_if (not (length owner == 0)) Error.duplicate_pallas_key
    delete_pallas_key_reverse existing.pallas_pk
    set_pallas_key
        (record { validator_address = val_addr; pallas_pk = new_pallas_pk; shamir_index = 0 })
    pure existing.pallas_pk

  -- The callback appends the entries of active validators, and never stops.
  unfoldable pub get_eligible_validators :
      (Bytes → Option StakingValidator) → Action S (List ValidatorPallasKey)
  unfolding iterate_all_pallas_keys is_active_ceremony_validator
  get_eligible_validators get_validator =
      iterate_all_pallas_keys
        (λ eligible vpk.
          if is_active_ceremony_validator get_validator vpk.validator_address
          then (eligible ++ vpk ∷ [], false)
          else (eligible, false))
        []
