-- ===== src/Scenarios/States.antt =====
-- The theorems on rounds, stores and messages, applied to the data of the scenarios.
use vote_sdk.Base.{
  Preserves-pure, Bool, none, All, Distinct, ◌≤◌, ◌≡◌, refl, inl, ◌↔◌, true, false, some, List, [],
  ◌∷◌, ◌++◌, Bytes, bytes_eq, replicate, Error, ok, err, In, raise_if, pos, length, arith, ◌>>=◌,
  for_each,
}
use vote_sdk.Types.{Value, Context, TallyEntry, max_proposals}
use vote_sdk.Kv.{kv_get, kv_set, kv_has, kv_iterator}
use vote_sdk.Kv.Table.{Table, table, lookup, insert, scan, visible}
use vote_sdk.Keys.{
  NullifierType, nullifier_key, validate_round_id, tally_key, append_uint32_be, put_uint32_be,
  put_uint64_be, get_uint32_be, prefix_end_bytes, commitment_leaf_key, round_tree_state_key,
  round_tree_key, tally_prefix_for_proposal,
}
use vote_sdk.Keys.Range.{IsBytes}
use vote_sdk.Crypto.ElGamal.{homomorphic_add, unmarshal_ciphertext, decompress_pallas_point}
use vote_sdk.Keeper.Ceremony.{strip_non_ackers_from_round}
use vote_sdk.Keeper.Ceremony.Strip.{AckBy, strip_non_ackers-exact}
use vote_sdk.Keeper.Tree.{get_commitment_tree_state, set_commitment_tree_state, append_commitment}
use vote_sdk.Keeper.Tree.Append.{append_commitment-leaf}
use vote_sdk.Server.Voting.{delegate_vote}
use vote_sdk.Keeper.Nullifiers.{check_and_set_nullifier, has_nullifier, set_nullifier}
use vote_sdk.Keeper.Tally.{
  collect_non_empty_accumulators, collect_from, get_proposal_tally, add_to_tally, get_tally,
  validate_non_identity_ciphertext, validate_tally_completeness,
}
use vote_sdk.Keeper.Tally.Accumulate.{add_to_tally-sum}
use vote_sdk.Keeper.Tally.Complete.{validate_tally_completeness-covers}
use vote_sdk.Msgs.{MsgCastVote, validate_cast_vote_batch, validate_cast_vote, validate_votes}
use vote_sdk.Msgs.Batch.{Agree, proposals_of, nullifiers_of, validate_cast_vote_batch-valid}
use vote_sdk.EndBlock.{
  Slashing, advance_rounds, each_round, root_phase, voting_phase, registering_phase, dealt_phase,
  tally_phase, when_due, start_tallying, voting_ended, registering_timed_out, dealt_timed_out,
  tally_timed_out,
}
use vote_sdk.EndBlock.Stored.{Apart}
use vote_sdk.EndBlock.Moved.{Moved, advance_rounds-Advances}
use vote_sdk.Keeper.Rounds.{set_vote_round, get_vote_round}
use vote_sdk.Keys.{vote_round_key}
use vote_sdk.Server.Deliver.Executed.{Separate}
use vote_sdk.Scenarios.Coordinator.{modules}
use vote_sdk.Scenarios.Crypto.{bits}
use vote_sdk.Server.Deliver.{Env, Msg, handle, deliver, run}
use vote_sdk.Server.Deliver.DoubleSpend.{no_double_spend}
use vote_sdk.Scenarios.SmallCurve.{small_curve}
use vote_sdk.Scenarios.Data.{
  round_id, proposal, bob, round, entry, context, delegation, vote, contribution,
}

strip_non_ackers-exact_example :
    (In bob (strip_non_ackers_from_round round).ceremony_validators
      ↔ (In bob round.ceremony_validators × AckBy round bob.validator_address))
    × (In contribution (strip_non_ackers_from_round round).dkg_contributions
        ↔ (In contribution round.dkg_contributions × AckBy round contribution.validator_address))
    × ((strip_non_ackers_from_round round).ceremony_acks ≡ round.ceremony_acks)
    × ((strip_non_ackers_from_round round).threshold ≡ round.threshold)
    × ((strip_non_ackers_from_round round).ea_pk ≡ round.ea_pk)
strip_non_ackers-exact_example = strip_non_ackers-exact round bob contribution

two_votes :
    validate_cast_vote_batch false
      (record { votes = vote 1 (replicate 32 1) ∷ vote 2 (replicate 32 2) ∷ [] })
    ≡ ok tt
unfolding validate_cast_vote_batch validate_cast_vote validate_votes bytes_eq
two_votes = refl

abbrev votes_of_two : List MsgCastVote
votes_of_two = vote 1 (replicate 32 1) ∷ vote 2 (replicate 32 2) ∷ []

validate_cast_vote_batch-valid_example :
    (first : MsgCastVote) × (rest : List MsgCastVote) × (votes_of_two ≡ first ∷ rest)
    × (length votes_of_two ≤ max_proposals)
    × Agree false first votes_of_two
    × Distinct (proposals_of votes_of_two)
    × Distinct (nullifiers_of votes_of_two)
validate_cast_vote_batch-valid_example = validate_cast_vote_batch-valid false votes_of_two two_votes

abbrev tree_store : Table
tree_store =
    (
      0x14 ∷ round_id ++ 0x06 ∷ [],
      Value.tree_state (record { next_index = 3; root = []; height = 0; next_index_at_root = 0 }),
    )
    ∷ []

tree_state_reads :
    get_commitment_tree_state round_id tree_store
    ≡ (ok (record { next_index = 3; root = []; height = 0; next_index_at_root = 0 }), tree_store)
unfolding get_commitment_tree_state kv_get ◌>>=◌ round_tree_state_key round_tree_key table lookup
    bytes_eq
tree_state_reads = refl

append_commitment-leaf_example :
    (t : Table) × (append_commitment round_id (5 ∷ []) tree_store ≡ (ok 3, t))
    × (table.get t (commitment_leaf_key round_id 3) ≡ some (Value.raw (5 ∷ [])))
    × (get_commitment_tree_state round_id t
        ≡ (ok (record { next_index = 4; root = []; height = 0; next_index_at_root = 0 }), t))
    × (table.get t (commitment_leaf_key round_id 2)
        ≡ table.get tree_store (commitment_leaf_key round_id 2))
append_commitment-leaf_example =
    append_commitment-leaf round_id (5 ∷ []) tree_store
      (record { next_index = 3; root = []; height = 0; next_index_at_root = 0 }) 2 tree_state_reads
      (omega arith) (omega arith) (omega arith)

abbrev share_bytes : Bytes
share_bytes = (1 ∷ replicate 31 0) ++ (1 ∷ replicate 31 0)

abbrev tally_bytes : Bytes
tally_bytes = 0x05 ∷ round_id ++ 0 ∷ 0 ∷ 0 ∷ 1 ∷ 0 ∷ 0 ∷ 0 ∷ 0 ∷ []

abbrev tally_store : Table
tally_store = (tally_bytes, Value.raw (replicate 64 0)) ∷ []

round_tally_key : tally_key round_id 1 0 ≡ ok tally_bytes
unfolding tally_key append_uint32_be put_uint32_be validate_round_id
round_tally_key = refl

stored_tally : table.get tally_store tally_bytes ≡ some (Value.raw (replicate 64 0))
unfolding table lookup bytes_eq
stored_tally = refl

share_decodes : unmarshal_ciphertext small_curve share_bytes ≡ ok (record { c1 = true; c2 = true })
unfolding unmarshal_ciphertext decompress_pallas_point
share_decodes = refl

zero_decodes :
    unmarshal_ciphertext small_curve (replicate 64 0) ≡ ok (record { c1 = false; c2 = false })
unfolding unmarshal_ciphertext decompress_pallas_point
zero_decodes = refl

share_not_identity :
    validate_non_identity_ciphertext small_curve (record { c1 = true; c2 = true }) ≡ ok tt
unfolding validate_non_identity_ciphertext
share_not_identity = refl

sum_not_identity :
    validate_non_identity_ciphertext small_curve (
      homomorphic_add small_curve
        (record { c1 = false; c2 = false })
        (record { c1 = true; c2 = true }))
    ≡ ok tt
unfolding validate_non_identity_ciphertext homomorphic_add
sum_not_identity = refl

add_to_tally-sum_example :
    (b : Bytes) × (t : Table) × (add_to_tally small_curve round_id 1 0 share_bytes tally_store
      ≡ (ok tt, t))
    × (get_tally round_id 1 0 t ≡ (ok (some (Value.raw b)), t))
    × (unmarshal_ciphertext small_curve b
        ≡ ok (
            homomorphic_add small_curve
              (record { c1 = false; c2 = false })
              (record { c1 = true; c2 = true })))
add_to_tally-sum_example =
    add_to_tally-sum small_curve round_id tally_bytes (replicate 64 0) share_bytes 1 0
      (record { c1 = false; c2 = false }) (record { c1 = true; c2 = true }) tally_store
      round_tally_key stored_tally zero_decodes share_decodes share_not_identity sum_not_identity

complete_tally : (validate_tally_completeness round (entry ∷ []) tally_store).0 ≡ ok tt
unfolding validate_tally_completeness collect_non_empty_accumulators collect_from get_proposal_tally
    kv_iterator ◌>>=◌ tally_prefix_for_proposal append_uint32_be put_uint32_be get_uint32_be
    validate_round_id raise_if table scan visible lookup bytes_eq prefix_end_bytes
complete_tally = refl

round_id-IsBytes : IsBytes round_id
round_id-IsBytes = ground arith

validate_tally_completeness-covers_example :
    (e : TallyEntry) × In e (entry ∷ []) × (e.proposal_id ≡ 1) × (e.vote_decision ≡ 0)
validate_tally_completeness-covers_example =
    validate_tally_completeness-covers round (entry ∷ []) proposal 0 (Value.raw (replicate 64 0))
      tally_bytes tally_store round_id-IsBytes (omega arith) (inl refl) round_tally_key stored_tally
      complete_tally

abbrev empty_store : Table
empty_store = []

abbrev env : Env Table Bool Bool
env = record {
  curve = small_curve;
  operator_of = λ a. some a;
  digest = λ a b. a;
  scalars = bits;
  chain_id = 7 ∷ [];
  val_address_of = λ a. some a;
  modules = record modules { upgrade_keeper = none };
}

-- The nullifier that the delegation spends.
abbrev spent : NullifierType × Bytes × Bytes
spent = (NullifierType.gov, round_id, 9 ∷ [])

separate : Separate spent env.modules
separate = record {
  has_account = λ a. Preserves-pure true;
  new_account = λ a. Preserves-pure tt;
  send_coins = λ a n. Preserves-pure tt;
  get_plan = λ k e. absurd (cc e);
  schedule = λ k e p. absurd (cc e);
  clear = λ k e. absurd (cc e);
}

delegated : (handle env context (Msg.delegate delegation) empty_store).0 ≡ ok tt
unfolding handle delegate_vote for_each check_and_set_nullifier has_nullifier set_nullifier
    nullifier_key validate_round_id append_commitment get_commitment_tree_state
    set_commitment_tree_state commitment_leaf_key round_tree_state_key round_tree_key put_uint64_be
    kv_get kv_set kv_has ◌>>=◌ table lookup insert bytes_eq
delegated = refl

no_double_spend_example :
    (e : Error) × ((handle env context (Msg.delegate delegation) (
        run env
          ((context, Msg.cast (vote 1 (9 ∷ [])))
            ∷ (context, Msg.rotate (record { creator = 1 ∷ []; new_pallas_pk = replicate 32 1 }))
            ∷ [])
          (deliver env context (Msg.delegate delegation) empty_store))).0
      ≡ err e)
no_double_spend_example =
    no_double_spend env context context (Msg.delegate delegation) (Msg.delegate delegation) spent
      ((context, Msg.cast (vote 1 (9 ∷ [])))
        ∷ (context, Msg.rotate (record { creator = 1 ∷ []; new_pallas_pk = replicate 32 1 }))
        ∷ [])
      empty_store separate (inl refl) (inl refl) delegated

abbrev no_slashing : Slashing Table
no_slashing = record {
  downtime_jail_duration = λ s. (ok 600, s);
  is_jailed = λ addr s. (ok false, s);
  jail = λ addr duration s. (ok tt, s);
}

abbrev late : Context
late = record context { block_time = pos 2000 }

abbrev closed_store : Table
closed_store = (0x04 ∷ round_id, Value.vote_round (start_tallying 2000 round)) ∷ []

abbrev active_store : Table
active_store = (0x04 ∷ round_id, Value.vote_round round) ∷ []

round_closes :
    advance_rounds no_slashing (λ id n height s. (ok [], s)) late (round ∷ []) active_store
    ≡ (ok (start_tallying 2000 round ∷ []), closed_store)
unfolding advance_rounds each_round root_phase voting_phase registering_phase dealt_phase
    tally_phase when_due start_tallying voting_ended registering_timed_out dealt_timed_out
    tally_timed_out set_vote_round vote_round_key validate_round_id get_commitment_tree_state
    round_tree_state_key round_tree_key kv_get kv_set ◌>>=◌ table lookup insert bytes_eq
round_closes = refl

round_stored : get_vote_round round_id active_store ≡ (ok round, active_store)
unfolding get_vote_round vote_round_key validate_round_id kv_get table lookup bytes_eq ◌>>=◌
round_stored = refl

-- Slashing and tree calls that write nothing.
no_writes : Apart no_slashing (λ id n height s. (ok [], s))
no_writes = record {
  duration = λ id x. record { after = λ s h. h };
  jailed = λ addr id x. record { after = λ s h. h };
  jail = λ addr n id x. record { after = λ s h. h };
  roots = λ id n height i x. record { after = λ s h. h };
}

advance_rounds-Advances_example : All (Moved 2000 closed_store) (round ∷ [])
advance_rounds-Advances_example =
    advance_rounds-Advances no_slashing (λ id n height s. (ok [], s)) late (round ∷ [])
      (start_tallying 2000 round ∷ []) active_store closed_store no_writes (omega arith)
      ((λ m. m), tt) (round_stored, tt) round_closes
