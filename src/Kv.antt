-- ===== src/Kv.antt =====
-- The module's store (`cosmossdk.io/core/store`), which the source only calls: operations that do
-- not fail, with the laws of an ordered map. `Kv.Table` is a store that satisfies them.
pub mod Table
use vote_sdk.Base.{
  ◌≡◌, Bool, true, Option, none, some, List, In, Bytes, bytes_eq, if◌then◌else◌, Action, Done,
  modify, gets, Preserves, is_some,
}
use vote_sdk.Keys.Range.{in_range}
use vote_sdk.Types.{Value}

pub record KvStore (S : Type 0) : Type 0 where
  pub get : S → Bytes → Option Value
  pub set : S → Bytes → Value → S
  pub delete : S → Bytes → S
  -- The entries with keys in [start, end), in the order of the keys; no end is the end of the store.
  pub iterator : S → Bytes → Option Bytes → List (Bytes × Value)
  pub get-set :
      (s : S) (k j : Bytes) (v : Value)
      → get (set s k v) j ≡ (if bytes_eq k j then some v else get s j)
  pub get-delete :
      (s : S) (k j : Bytes) → get (delete s k) j ≡ (if bytes_eq k j then none else get s j)
  pub iterator_sound :
      (s : S) (start : Bytes) (end : Option Bytes) (k : Bytes) (v : Value)
      → In (k, v) (iterator s start end)
      → (get s k ≡ some v) × (in_range start end k ≡ true)
  pub iterator_complete :
      (s : S) (start : Bytes) (end : Option Bytes) (k : Bytes) (v : Value)
      → get s k ≡ some v
      → in_range start end k ≡ true
      → In (k, v) (iterator s start end)

module _ {S : Type 0} ⦃kv : KvStore S⦄ where
  unfoldable pub kv_get : Bytes → Action S (Option Value)
  unfolding gets
  kv_get k = gets (λ s. kv.get s k)

  unfoldable pub kv_has : Bytes → Action S Bool
  unfolding gets
  kv_has k = gets (λ s. is_some (kv.get s k))

  unfoldable pub kv_set : Bytes → Value → Action S Done
  unfolding modify
  kv_set k v = modify (λ s. kv.set s k v)

  unfoldable pub kv_delete : Bytes → Action S Done
  unfolding modify
  kv_delete k = modify (λ s. kv.delete s k)

  unfoldable pub kv_iterator : Bytes → Option Bytes → Action S (List (Bytes × Value))
  unfolding gets
  kv_iterator start end = gets (λ s. kv.iterator s start end)
