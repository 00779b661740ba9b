-- ===== src/Scenarios/Registry.antt =====
-- Messages of the registry of Pallas keys, on concrete validators.
use vote_sdk.Base.{
  ◌≡◌, ◌≢◌, refl, none, Option, some, List, [], ◌∷◌, Bytes, bytes_eq, replicate, ok, raise_if,
  ◌>>=◌,
}
use vote_sdk.Types.{Value, ValidatorPallasKey}
use vote_sdk.Keys.{pallas_key_key, pallas_key_reverse_lookup_key, prefix_end_bytes}
use vote_sdk.Kv.{kv_get, kv_set, kv_has, kv_delete, kv_iterator}
use vote_sdk.Kv.Table.{Table, table, lookup, insert, remove, scan, visible}
use vote_sdk.Crypto.ElGamal.{unmarshal_public_key, decompress_pallas_point}
use vote_sdk.Keeper.Rounds.{iterate_pending_rounds, iterate_rounds, scan_rounds}
use vote_sdk.Keeper.Ceremony.{is_validator_in_pending_ceremony}
use vote_sdk.Keeper.Registry.{
  register_pallas_key_core, rotate_pallas_key_core, has_pallas_key, get_pallas_key_owner,
  set_pallas_key, get_pallas_key, delete_pallas_key_reverse,
}
use vote_sdk.Keeper.Registry.Indexes.{Agree, forward, reverse}
use vote_sdk.Keeper.Registry.Rotation.{rotate_pallas_key_core-moves}
use vote_sdk.Server.Registry.{
  RegistryMsg, register_pallas_key, rotate_pallas_key, handle_registry, run_registry,
}
use vote_sdk.Server.Registry.Unique.{run_registry_unique, Unregistered, register-Agree, Agree-empty}
use vote_sdk.Scenarios.SmallCurve.{small_curve}

abbrev val_address : Bytes → Option Bytes
val_address x = some (9 ∷ x)

val_address_named : (x a : Bytes) → val_address x ≡ some a → a ≢ []
val_address_named x a e n = cc (e, n)

abbrev key : Bytes
key = 1 ∷ replicate 31 0

-- A second validator tries to take the key of the first.
abbrev registrations : List RegistryMsg
registrations =
    RegistryMsg.register (record { creator = 1 ∷ []; pallas_pk = key })
    ∷ RegistryMsg.register (record { creator = 2 ∷ []; pallas_pk = key })
    ∷ RegistryMsg.rotate (record { creator = 1 ∷ []; new_pallas_pk = key })
    ∷ []

abbrev no_keys : Table
no_keys = []

abbrev registered : ValidatorPallasKey
registered = record { validator_address = 9 ∷ 1 ∷ []; pallas_pk = key; shamir_index = 0 }

no_keys-Unregistered : Unregistered no_keys
unfolding Unregistered forward reverse table lookup
no_keys-Unregistered = (λ a. refl, λ pk. refl)

registered_once :
    forward (run_registry small_curve val_address registrations no_keys) (9 ∷ 1 ∷ [])
    ≡ some (Value.pallas_key registered)
unfolding forward run_registry handle_registry register_pallas_key rotate_pallas_key
    register_pallas_key_core rotate_pallas_key_core has_pallas_key get_pallas_key_owner
    set_pallas_key get_pallas_key delete_pallas_key_reverse pallas_key_key
    pallas_key_reverse_lookup_key kv_get kv_set kv_has kv_delete kv_iterator table lookup insert
    remove scan visible bytes_eq ◌>>=◌ raise_if unmarshal_public_key decompress_pallas_point
    is_validator_in_pending_ceremony iterate_pending_rounds iterate_rounds scan_rounds
    prefix_end_bytes
registered_once = refl

run_registry_unique_example :
    (reverse (run_registry small_curve val_address registrations no_keys) key
      ≡ some (Value.raw (9 ∷ 1 ∷ [])))
    × ◌≡◌ {A = Bytes} (9 ∷ 1 ∷ []) (9 ∷ 1 ∷ [])
run_registry_unique_example =
    run_registry_unique small_curve val_address val_address_named registrations no_keys
      no_keys-Unregistered (9 ∷ 1 ∷ []) (9 ∷ 1 ∷ []) registered registered registered_once
      registered_once refl

abbrev old_key : Bytes
old_key = 5 ∷ []

abbrev new_key : Bytes
new_key = 6 ∷ []

abbrev one_key : Table
one_key = (register_pallas_key_core (9 ∷ []) old_key no_keys).1

one_key-Agree : Agree one_key
one_key-Agree =
    (register-Agree (9 ∷ []) old_key (λ e. cc e)).after no_keys
      (Agree-empty small_curve val_address val_address_named no_keys no_keys-Unregistered)

abbrev after_rotation : Table
after_rotation = (rotate_pallas_key_core (9 ∷ []) new_key one_key).1

rotation : rotate_pallas_key_core (9 ∷ []) new_key one_key ≡ (ok old_key, after_rotation)
unfolding register_pallas_key_core rotate_pallas_key_core has_pallas_key get_pallas_key_owner
    set_pallas_key get_pallas_key delete_pallas_key_reverse pallas_key_key
    pallas_key_reverse_lookup_key kv_get kv_set kv_has kv_delete table lookup insert remove bytes_eq
    ◌>>=◌ raise_if
rotation = refl

rotate_pallas_key_core-moves_example :
    (reverse one_key old_key ≡ some (Value.raw (9 ∷ [])))
    × (reverse one_key new_key ≡ none)
    × (reverse after_rotation old_key ≡ none)
    × (reverse after_rotation new_key ≡ some (Value.raw (9 ∷ [])))
    × (forward after_rotation (9 ∷ [])
        ≡ some (
            Value.pallas_key
              (record { validator_address = 9 ∷ []; pallas_pk = new_key; shamir_index = 0 })))
    × (forward after_rotation (7 ∷ []) ≡ forward one_key (7 ∷ []))
rotate_pallas_key_core-moves_example =
    rotate_pallas_key_core-moves one_key after_rotation (9 ∷ []) new_key old_key one_key-Agree
      rotation (7 ∷ []) (λ e. cc e)
