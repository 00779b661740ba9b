-- ===== src/Keeper/Nullifiers.antt =====
-- Nullifier sets, scoped by type and round (x/vote/keeper/keeper_voting.go).
use vote_sdk.Base.{
  Bool, List, [], ◌∷◌, Bytes, Error, Action, Done, lift, raise_if, ◌>>=◌, ◌>>◌, for_each,
}
use vote_sdk.Keys.{NullifierType, nullifier_key}
use vote_sdk.Types.{Value}
use vote_sdk.Kv.{KvStore, kv_has, kv_set}

module _ {S : Type 0} ⦃kv : KvStore S⦄ where
  unfoldable pub has_nullifier : NullifierType → Bytes → Bytes → Action S Bool
  unfolding ◌>>=◌ kv_has
  has_nullifier nf_type round_id nullifier = do
    key ← lift (nullifier_key nf_type round_id nullifier)
    kv_has key

  unfoldable pub set_nullifier : NullifierType → Bytes → Bytes → Action S Done
  unfolding ◌>>=◌ kv_set
  set_nullifier nf_type round_id nullifier = do
    key ← lift (nullifier_key nf_type round_id nullifier)
    kv_set key (Value.raw (1 ∷ []))

  unfoldable pub check_and_set_nullifier : NullifierType → Bytes → Bytes → Action S Done
  unfolding ◌>>=◌ has_nullifier set_nullifier
  check_and_set_nullifier nf_type round_id nullifier = do
    has ← has_nullifier nf_type round_id nullifier
    raise_if has Error.duplicate_nullifier
    set_nullifier nf_type round_id nullifier

  unfoldable pub check_nullifiers_unique : NullifierType → Bytes → List Bytes → Action S Done
  unfolding ◌>>=◌ for_each has_nullifier
  check_nullifiers_unique nf_type round_id nullifiers =
      for_each
        (λ nf. has_nullifier nf_type round_id nf >>= λ has. raise_if has Error.duplicate_nullifier)
        nullifiers
