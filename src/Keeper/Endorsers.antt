-- ===== src/Keeper/Endorsers.antt =====
-- Endorsers and the rounds they endorse (x/vote/keeper/keeper_endorsers.go).
use vote_sdk.Base.{
  ℕ, Bool, true, false, Option, none, some, List, [], ◌∷◌, Bytes, Error, Result, ok, err, Action,
  Done, lift, pure, raise_if, ◌>>=◌, ◌>>◌, ltb, length, drop, is_some, ◌==◌, ◌+◌,
}
use vote_sdk.Keys.{
  endorser_address_key, endorsed_round_key, endorsed_round_prefix_for_id, prefix_end_bytes,
  round_id_len,
}
use vote_sdk.Types.{Value, as_raw}
use vote_sdk.Kv.{KvStore, kv_get, kv_set, kv_delete, kv_iterator}

pub record Endorser : Type 0 where
  pub endorser_id : Bytes
  pub address : Bytes

-- The address under an entry, which is raw bytes; `("", false)` is `none`.
abbrev pub read_address : Option Value → Result (Option Bytes)
read_address none = ok none
read_address (some v) = elim (as_raw v) [ none ↦ err Error.malformed | some a ↦ ok (some a) ]

-- The loops of the two iterators, over the entries that are left.
unfoldable pub scan_endorsers :
    {A : Type 0} → (A → Endorser → A × Bool) → A → List (Bytes × Value) → Result A
scan_endorsers fn acc [] = ok acc
scan_endorsers fn acc ((key, v) ∷ rest) = elim (ltb (length key) 1) [
  | true ↦ scan_endorsers fn acc rest
  | false ↦ elim (as_raw v) [
    | none ↦ err Error.malformed
    | some address ↦ elim (fn acc (record { endorser_id = drop 1 key; address = address })).1 [
      | true ↦ ok (fn acc (record { endorser_id = drop 1 key; address = address })).0
      | false ↦
          scan_endorsers fn (fn acc (record { endorser_id = drop 1 key; address = address })).0 rest
    ]
  ]
]

unfoldable pub scan_endorsed_rounds :
    {A : Type 0} → ℕ → (A → Bytes → A × Bool) → A → List (Bytes × Value) → A
scan_endorsed_rounds prefix_len fn acc [] = acc
scan_endorsed_rounds prefix_len fn acc ((key, _) ∷ rest) =
    elim (length key == prefix_len + round_id_len) [
      | false ↦ scan_endorsed_rounds prefix_len fn acc rest
      | true ↦ elim (fn acc (drop prefix_len key)).1 [
        | true ↦ (fn acc (drop prefix_len key)).0
        | false ↦ scan_endorsed_rounds prefix_len fn (fn acc (drop prefix_len key)).0 rest
      ]
    ]

module _ {S : Type 0} ⦃kv : KvStore S⦄ where
  unfoldable pub get_endorser : Bytes → Action S (Option Bytes)
  unfolding ◌>>=◌ kv_get
  get_endorser endorser_id = do
    key ← lift (endorser_address_key endorser_id)
    bz ← kv_get key
    lift (read_address bz)

  unfoldable pub set_endorser : Bytes → Bytes → Action S Done
  unfolding ◌>>=◌ kv_set
  set_endorser endorser_id address = do
    key ← lift (endorser_address_key endorser_id)
    raise_if (length address == 0) Error.invalid_field
    kv_set key (Value.raw address)

  unfoldable pub delete_endorser : Bytes → Action S Done
  unfolding ◌>>=◌ kv_delete
  delete_endorser endorser_id = do key ← lift (endorser_address_key endorser_id); kv_delete key

  unfoldable pub iterate_endorsers : {A : Type 0} → (A → Endorser → A × Bool) → A → Action S A
  unfolding ◌>>=◌ kv_iterator scan_endorsers prefix_end_bytes
  iterate_endorsers fn acc = do
    entries ← kv_iterator (0x16 ∷ []) (prefix_end_bytes (0x16 ∷ []))
    lift (scan_endorsers fn acc entries)

  unfoldable pub add_endorsed_round : Bytes → Bytes → Action S Done
  unfolding ◌>>=◌ kv_set
  add_endorsed_round endorser_id round_id = do
    key ← lift (endorsed_round_key endorser_id round_id)
    kv_set key (Value.raw (1 ∷ []))

  unfoldable pub delete_endorsed_round : Bytes → Bytes → Action S Done
  unfolding ◌>>=◌ kv_delete
  delete_endorsed_round endorser_id round_id = do
    key ← lift (endorsed_round_key endorser_id round_id)
    kv_delete key

  unfoldable pub is_round_endorsed : Bytes → Bytes → Action S Bool
  unfolding ◌>>=◌ kv_get
  is_round_endorsed endorser_id round_id = do
    key ← lift (endorsed_round_key endorser_id round_id)
    bz ← kv_get key
    pure (is_some bz)

  unfoldable pub iterate_endorsed_rounds :
      {A : Type 0} → Bytes → (A → Bytes → A × Bool) → A → Action S A
  unfolding ◌>>=◌ kv_iterator scan_endorsed_rounds prefix_end_bytes
  iterate_endorsed_rounds endorser_id fn acc = do
    prefix ← lift (endorsed_round_prefix_for_id endorser_id)
    entries ← kv_iterator prefix (prefix_end_bytes prefix)
    pure (scan_endorsed_rounds (length prefix) fn acc entries)
