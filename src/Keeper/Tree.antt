-- ===== src/Keeper/Tree.antt =====
-- The commitment tree of a round: its leaves, its state and its roots
-- (x/vote/keeper/keeper_voting.go).
pub mod Append
use vote_sdk.Base.{
  ℕ, ◌+◌, ◌<◌, Bool, true, false, Option, none, some, [], ◌∷◌, ◌++◌, Bytes, Error, Action, Done,
  Result, ok, err, lift, or_raise, pure, ◌>>=◌, ◌>>◌, add64, ltb, length, if◌then◌else◌, get_elem?,
}
use vote_sdk.Keys.{
  round_tree_state_key, commitment_leaf_key, commitment_root_key, block_leaf_index_key,
  put_uint64_be, get_uint64_be,
}
use vote_sdk.Types.{Value, CommitmentTreeState, as_tree_state, as_raw}
use vote_sdk.Kv.{KvStore, kv_get, kv_set}
use mathlib.Core.Option

abbrev pub empty_tree_state : CommitmentTreeState
empty_tree_state = record { next_index = 0; root = []; height = 0; next_index_at_root = 0 }

-- The state under a key, where a missing entry is the empty tree.
abbrev pub read_tree_state : Option Value → Result CommitmentTreeState
read_tree_state none = ok empty_tree_state
read_tree_state (some v) = elim (as_tree_state v) [ some t ↦ ok t | none ↦ err Error.malformed ]

abbrev drop_eight : Bytes → Bytes
drop_eight (a ∷ b ∷ c ∷ d ∷ e ∷ f ∷ g ∷ h ∷ rest) = rest
drop_eight _ = []

-- `(start, count)` from the 16 bytes of a block's entry; a missing or shorter entry is not found.
abbrev read_leaf_index : Option Bytes → Option (ℕ × ℕ)
read_leaf_index none = none
read_leaf_index (some val) = elim (ltb (length val) 16) [
  | true ↦ none
  | false ↦ elim (get_uint64_be val) [
    | none ↦ none
    | some start ↦ Option.map (λ count. (start, count)) (get_uint64_be (drop_eight val))
  ]
]

module _ {S : Type 0} ⦃kv : KvStore S⦄ where
  unfoldable pub get_commitment_tree_state : Bytes → Action S CommitmentTreeState
  unfolding ◌>>=◌ kv_get
  get_commitment_tree_state round_id = do
    bz ← kv_get (round_tree_state_key round_id)
    lift (read_tree_state bz)

  unfoldable pub set_commitment_tree_state : Bytes → CommitmentTreeState → Action S Done
  unfolding kv_set
  set_commitment_tree_state round_id state =
      kv_set (round_tree_state_key round_id) (Value.tree_state state)

  unfoldable pub append_commitment : Bytes → Bytes → Action S ℕ
  unfolding ◌>>=◌ get_commitment_tree_state set_commitment_tree_state kv_set
  append_commitment round_id commitment = do
    state ← get_commitment_tree_state round_id
    kv_set (commitment_leaf_key round_id state.next_index) (Value.raw commitment)
    set_commitment_tree_state round_id (record state { next_index = add64 state.next_index 1 })
    pure state.next_index

  unfoldable pub set_block_leaf_index : Bytes → ℕ → ℕ → ℕ → Action S Done
  unfolding kv_set
  set_block_leaf_index round_id height start_index count =
      kv_set (block_leaf_index_key round_id height)
        (Value.raw (put_uint64_be start_index ++ put_uint64_be count))

  unfoldable pub get_block_leaf_index : Bytes → ℕ → Action S (Option (ℕ × ℕ))
  unfolding ◌>>=◌ kv_get get_uint64_be
  get_block_leaf_index round_id height = do
    val ← kv_get (block_leaf_index_key round_id height)
    pure (read_leaf_index (Option.bind val as_raw))

  unfoldable pub get_commitment_root_at_height : Bytes → ℕ → Action S (Option Value)
  unfolding kv_get
  get_commitment_root_at_height round_id height = kv_get (commitment_root_key round_id height)

  unfoldable pub set_commitment_root_at_height : Bytes → ℕ → Bytes → Action S Done
  unfolding kv_set
  set_commitment_root_at_height round_id height root =
      kv_set (commitment_root_key round_id height) (Value.raw root)
