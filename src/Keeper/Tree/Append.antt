-- ===== src/Keeper/Tree/Append.antt =====
-- Appending to the commitment tree (x/vote/keeper/keeper_voting.go, `AppendCommitment`).
use vote_sdk.Base.{
  ℕ, suc, ◌^◌, ◌<◌, ◌≡◌, ◌≢◌, refl, sym, ap, ◌∙◌, Option, some, [], ◌∷◌, ◌++◌, Bytes, bytes_eq_refl,
  bytes_eq_ne, ok, ◌>>=◌, arith, add64, if◌then◌else◌,
}
use vote_sdk.Keys.{
  round_tree_key, commitment_leaf_key, round_tree_state_key, put_uint64_be, get_uint64_be,
}
use vote_sdk.Keys.Injective.{get-put_uint64, append_inj}
use vote_sdk.Types.{Value, CommitmentTreeState}
use vote_sdk.Kv.{KvStore, kv_get, kv_set}
use vote_sdk.Keeper.Tree.{
  get_commitment_tree_state, set_commitment_tree_state, append_commitment, read_tree_state,
}

append_cancel : (xs us vs : Bytes) → xs ++ us ≡ xs ++ vs → us ≡ vs
append_cancel xs us vs h = (append_inj xs xs us vs refl h).1

leaf_ne_state : (id : Bytes) (i : ℕ) → commitment_leaf_key id i ≢ round_tree_state_key id
unfolding commitment_leaf_key round_tree_state_key round_tree_key
leaf_ne_state id i h =
    let e = append_cancel (0x14 ∷ id) (0x02 ∷ put_uint64_be i) (0x06 ∷ []) h in absurd (cc e)

leaf_ne_leaf :
    (id : Bytes) (i j : ℕ)
    → i < 2 ^ 64
    → j < 2 ^ 64
    → i ≢ j
    → commitment_leaf_key id i ≢ commitment_leaf_key id j
unfolding commitment_leaf_key round_tree_key
leaf_ne_leaf id i j hi hj ne h =
    let e = append_cancel (0x14 ∷ id) (0x02 ∷ put_uint64_be i) (0x02 ∷ put_uint64_be j) h in
    let q : put_uint64_be i ≡ put_uint64_be j = cc e in
    let g : ◌≡◌ {A = Option ℕ} (some i) (some j) =
      sym (get-put_uint64 i hi) ∙ ap get_uint64_be q ∙ get-put_uint64 j hj in
    ne (cc g)

module _ {S : Type 0} ⦃kv : KvStore S⦄ where
  -- The writes of an append whose state is known.
  after_append : Bytes → CommitmentTreeState → Bytes → S → S
  after_append id state b s =
      kv.set (kv.set s (commitment_leaf_key id state.next_index) (Value.raw b))
        (round_tree_state_key id)
        (Value.tree_state (record state { next_index = add64 state.next_index 1 }))

  append_commitment-eq :
      (id b : Bytes) (s : S) (state : CommitmentTreeState)
      → read_tree_state (kv.get s (round_tree_state_key id)) ≡ ok state
      → append_commitment id b s ≡ (ok state.next_index, after_append id state b s)
  unfolding append_commitment get_commitment_tree_state set_commitment_tree_state kv_get kv_set
      ◌>>=◌ after_append
  append_commitment-eq id b s state h = rw h refl

  -- In a tree whose state reads back, with room below 2^64, an append returns the next index; then
  -- the leaf at that index is the commitment, the state reads back with the index one larger and its
  -- root and height unchanged, and every other leaf is what it was.
  pub append_commitment-leaf :
      (id b : Bytes) (s : S) (state : CommitmentTreeState) (j : ℕ)
      → get_commitment_tree_state id s ≡ (ok state, s)
      → suc state.next_index < 2 ^ 64
      → j < 2 ^ 64
      → j ≢ state.next_index
      → (t : S) × (append_commitment id b s ≡ (ok state.next_index, t))
        × (kv.get t (commitment_leaf_key id state.next_index) ≡ some (Value.raw b))
        × (get_commitment_tree_state id t
            ≡ (ok (record state { next_index = suc state.next_index }), t))
        × (kv.get t (commitment_leaf_key id j) ≡ kv.get s (commitment_leaf_key id j))
  unfolding get_commitment_tree_state kv_get ◌>>=◌ after_append
  append_commitment-leaf id b s state j h room hj ne =
      let leaf = commitment_leaf_key id state.next_index in
      let other = commitment_leaf_key id j in
      let sk = round_tree_state_key id in
      let r : read_tree_state (kv.get s sk) ≡ ok state = ap (λ p. p.0) h in
      let u = kv.set s leaf (Value.raw b) in
      let v = Value.tree_state (record state { next_index = add64 state.next_index 1 }) in
      let n : add64 state.next_index 1 ≡ suc state.next_index = omega arith in
      (
        after_append id state b s,
        append_commitment-eq id b s state r,
        kv.get-set u sk leaf v
            ∙ ap (λ t. if t then some v else kv.get u leaf)
                (bytes_eq_ne sk leaf (λ e. leaf_ne_state id state.next_index (sym e)))
            ∙ kv.get-set s leaf leaf (Value.raw b)
            ∙ ap (λ t. if t then some (Value.raw b) else kv.get s leaf) (bytes_eq_refl leaf),
        rw (kv.get-set u sk sk v, bytes_eq_refl sk, n) refl,
        kv.get-set u sk other v
            ∙ ap (λ t. if t then some v else kv.get u other)
                (bytes_eq_ne sk other (λ e. leaf_ne_state id j (sym e)))
            ∙ kv.get-set s leaf other (Value.raw b)
            ∙ ap (λ t. if t then some (Value.raw b) else kv.get s other)
                (bytes_eq_ne leaf other
                  (λ e. leaf_ne_leaf id state.next_index j (omega arith) hj (λ q. ne (sym q)) e)),
      )
