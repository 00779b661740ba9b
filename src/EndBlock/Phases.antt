-- ===== src/EndBlock/Phases.antt =====
-- What the phases of a block make of the stored rounds (x/vote/module.go).
use vote_sdk.Base.{
  ℕ, ◌≡◌, refl, true, false, List, [], ◌∷◌, Bytes, bytes_eq, Action, ◌>>◌, length, Preserves-bind,
  Preserves-if, Preserves-pure, preserves_rules, ltb, sub64,
}
use vote_sdk.Types.{Value, VoteRound, Context, CommitmentTreeState}
use vote_sdk.Kv.{KvStore, kv_get, kv_set}
use vote_sdk.Keys.{round_tree_state_key, commitment_root_key, block_leaf_index_key, round_tree_key}
use vote_sdk.Keeper.Rounds.Stored.{read_beside}
use vote_sdk.Keeper.Tree.{
  get_commitment_tree_state, set_commitment_tree_state, set_commitment_root_at_height,
  set_block_leaf_index,
}
use vote_sdk.Keeper.Ceremony.{missing_ceremony_contributors}
use vote_sdk.EndBlock.Stored.{
  fail_registering-id, end_dealing-id, Quiet, Apart, Replaces, Replaces-pure, Replaces-bind,
  Replaces-when_due, Replaces-if,
}
use vote_sdk.EndBlock.{
  Slashing, start_tallying, fail_registering, end_dealing, finalize_timed_out, voting_ended,
  dealt_timed_out, tally_timed_out, jail_each, jail_ceremony_validators, update_root, root_phase,
  voting_phase, registering_phase, dealt_phase, tally_phase,
}

-- The tree's keys start with 0x14.
tree_key : (rest id : Bytes) → bytes_eq (0x14 ∷ rest) (0x04 ∷ id) ≡ false
unfolding bytes_eq
tree_key rest id = refl

module _ {S : Type 0} ⦃kv : KvStore S⦄ where
  set-Quiet :
      (key : Bytes) (v : Value)
      → ((id : Bytes) → bytes_eq key (0x04 ∷ id) ≡ false)
      → Quiet {S = S} (kv_set key v)
  unfolding kv_set
  set-Quiet key v ne id x = record { after = λ s h. read_beside id key v s x (ne id) h }

  root_height-Quiet :
      (id : Bytes) (height : ℕ) (root : Bytes)
      → Quiet {S = S} (set_commitment_root_at_height id height root)
  unfolding set_commitment_root_at_height commitment_root_key round_tree_key
  root_height-Quiet id height root = set-Quiet _ _ (tree_key _)

  leaf_index-Quiet :
      (id : Bytes) (height start n : ℕ) → Quiet {S = S} (set_block_leaf_index id height start n)
  unfolding set_block_leaf_index block_leaf_index_key round_tree_key
  leaf_index-Quiet id height start n = set-Quiet _ _ (tree_key _)

  tree_state-Quiet :
      (id : Bytes) (state : CommitmentTreeState)
      → Quiet {S = S} (set_commitment_tree_state id state)
  unfolding set_commitment_tree_state round_tree_state_key round_tree_key
  tree_state-Quiet id state = set-Quiet _ _ (tree_key _)

  update_root-Quiet :
      (slashing : Slashing S) (root : Bytes → ℕ → ℕ → Action S Bytes) (ctx : Context)
      (round : VoteRound) (state : CommitmentTreeState)
      → Apart slashing root
      → Quiet {S = S} (update_root root ctx round state)
  unfolding update_root
  update_root-Quiet slashing root ctx round state a id x =
      Preserves-bind (root round.vote_round_id state.next_index ctx.block_height) _
        (a.roots round.vote_round_id state.next_index ctx.block_height id x)
        (λ rt. Preserves-if (bytes_eq rt state.root) _ _ (Preserves-pure tt) (
          Preserves-bind _ _
            (Preserves-bind _ _ (root_height-Quiet round.vote_round_id ctx.block_height rt id x)
              (λ _.
                Preserves-if (ltb 0 (sub64 state.next_index state.next_index_at_root)) _ _
                  (leaf_index-Quiet round.vote_round_id ctx.block_height state.next_index_at_root
                    (sub64 state.next_index state.next_index_at_root) id x)
                  (Preserves-pure tt)))
            (λ _.
              tree_state-Quiet round.vote_round_id
                (record state {
                  root = rt;
                  height = ctx.block_height;
                  next_index_at_root = state.next_index;
                })
                id x)))

  tree_read-Quiet : (round_id : Bytes) → Quiet {S = S} (get_commitment_tree_state round_id)
  unfolding get_commitment_tree_state kv_get
  tree_read-Quiet round_id id x = search preserves_rules depth 20

  jail_each-Quiet :
      (slashing : Slashing S) (root : Bytes → ℕ → ℕ → Action S Bytes) (n : ℕ) (addrs : List Bytes)
      → Apart slashing root
      → Quiet {S = S} (jail_each slashing n addrs)
  unfolding jail_each
  jail_each-Quiet slashing root n [] a id x = Preserves-pure []
  jail_each-Quiet slashing root n (addr ∷ rest) a id x =
      let others = jail_each-Quiet slashing root n rest a id x in
      Preserves-bind (slashing.is_jailed addr) _ (a.jailed addr id x) (λ jailed.
        Preserves-if jailed (jail_each slashing n rest) _ others (
          Preserves-bind (slashing.jail addr n >> jail_each slashing n rest) _
            (Preserves-bind (slashing.jail addr n) _ (a.jail addr n id x) (λ _. others))
            (λ _. Preserves-pure _)))

  jailing-Quiet :
      (slashing : Slashing S) (root : Bytes → ℕ → ℕ → Action S Bytes) (addrs : List Bytes)
      → Apart slashing root
      → Quiet {S = S} (jail_ceremony_validators slashing addrs)
  unfolding jail_ceremony_validators
  jailing-Quiet slashing root [] a id x = Preserves-pure []
  jailing-Quiet slashing root (addr ∷ rest) a id x =
      Preserves-bind slashing.downtime_jail_duration _ (a.duration id x)
        (λ n. jail_each-Quiet slashing root n (addr ∷ rest) a id x)

  pub root_phase-Replaces :
      (slashing : Slashing S) (root : Bytes → ℕ → ℕ → Action S Bytes) (ctx : Context)
      (r : VoteRound)
      → Apart slashing root
      → Replaces {S = S} r (root_phase root ctx r)
  unfolding root_phase
  root_phase-Replaces slashing root ctx r a = Replaces-if r _ _ _ (Replaces-pure r) (
      Replaces-bind r (get_commitment_tree_state r.vote_round_id) _
        (tree_read-Quiet r.vote_round_id)
        (λ state.
          Replaces-bind r _ _
            (λ id x.
              Preserves-if _ _ _ (Preserves-pure tt)
                (update_root-Quiet slashing root ctx r state a id x))
            (λ _. Replaces-pure r)))

  pub registering_phase-Replaces :
      (slashing : Slashing S) (root : Bytes → ℕ → ℕ → Action S Bytes) (now : ℕ) (ctx : Context)
      (r : VoteRound)
      → Apart slashing root
      → Replaces {S = S} r (registering_phase slashing now ctx r)
  unfolding registering_phase
  registering_phase-Replaces slashing root now ctx r a =
      Replaces-if r _ _ _
        (Replaces-bind r (jail_ceremony_validators slashing (missing_ceremony_contributors r)) _
          (jailing-Quiet slashing root (missing_ceremony_contributors r) a)
          (λ jailed.
            Replaces-when_due true r (fail_registering ctx.block_height (length jailed) r)
              (fail_registering-id ctx.block_height (length jailed) r)))
        (Replaces-pure r)

  pub voting_phase-Replaces : (now : ℕ) (r : VoteRound) → Replaces {S = S} r (voting_phase now r)
  unfolding voting_phase start_tallying
  voting_phase-Replaces now r = Replaces-when_due (voting_ended now r) r (start_tallying now r) refl

  pub dealt_phase-Replaces :
      (now : ℕ) (ctx : Context) (r : VoteRound) → Replaces {S = S} r (dealt_phase now ctx r)
  unfolding dealt_phase
  dealt_phase-Replaces now ctx r =
      Replaces-when_due (dealt_timed_out now r) r (end_dealing ctx.block_height r)
        (end_dealing-id ctx.block_height r)

  pub tally_phase-Replaces : (now : ℕ) (r : VoteRound) → Replaces {S = S} r (tally_phase now r)
  unfolding tally_phase finalize_timed_out
  tally_phase-Replaces now r =
      Replaces-when_due (tally_timed_out now r) r (finalize_timed_out r) refl
