-- ===== src/Scenarios/Ante.antt =====
-- The theorems on the validation of transactions, applied to votes.
use mathlib.Core.Option
use vote_sdk.Base.{
  ℕ, ◌<◌, ◌^◌, ◌≡◌, refl, true, false, some, [], ◌∷◌, ◌++◌, Bytes, bytes_eq, map, replicate, length,
  arith, ok, ◌>>=◌, for_each, raise_if,
}
use vote_sdk.Types.{Value, VoteRound}
use vote_sdk.Kv.{kv_get, kv_has}
use vote_sdk.Kv.Table.{Table, table, lookup}
use vote_sdk.Keys.{
  nullifier_key, validate_round_id, vote_round_key, commitment_root_key, round_tree_key,
  put_uint64_be,
}
use vote_sdk.Crypto.ElGamal.{unmarshal_public_key, decompress_pallas_point}
use vote_sdk.Keeper.Rounds.{get_vote_round}
use vote_sdk.Keeper.Voting.{validate_proposal_id, validate_round_for_voting}
use vote_sdk.Keeper.Nullifiers.{check_nullifiers_unique, has_nullifier}
use vote_sdk.Keeper.Tree.{get_commitment_root_at_height}
use vote_sdk.Msgs.{
  MsgCastVote, MsgDelegateAndCastVoteBatch, validate_cast_vote,
  validate_delegate_and_cast_vote_batch, validate_delegate_vote, validate_cast_vote_batch,
  validate_votes, need_distinct, validate_effects_framing, validate_delegation_binding,
}
use vote_sdk.Msgs.Sighash.{delegate_and_cast_payload}
use vote_sdk.Msgs.Sighash.BindsBatch.{FramedBatch, effects_of, delegate_and_cast_payload-injective}
use vote_sdk.Msgs.Sighash.Binds.{Framed, cast_vote_payload-injective}
use vote_sdk.Ante.{
  VoteMessage, Verifiers, verify_signature, verify_signatures, anchor_root, verify_delegation,
  verify_cast_vote, verify_proofs, verify_vote_commitment_proof, verify_chain,
  verify_delegate_and_cast_vote_batch, validate_round, validate_nullifiers, validate_vote_tx,
}
use vote_sdk.Ante.Chained.{VoteChecked, validate_vote_tx-chained}
use vote_sdk.Ante.Checked.{CastChecked, validate_vote_tx-CastChecked}
use vote_sdk.Scenarios.SmallCurve.{small_curve}
use vote_sdk.Scenarios.Data.{round_id, round, context, vote, delegation, proposal}

abbrev verifiers : Verifiers
verifiers = record {
  signature = λ key digest sig. true;
  delegation = λ proof inputs. true;
  vote_commitment = λ proof inputs. true;
  vote_share = λ proof inputs. true;
  delegation_sighash = λ effects. some effects;
  single_leaf_root = λ leaf. some leaf;
  blake2b_256 = λ payload. payload;
  operator_of = λ a. some a;
}

abbrev rooted_store : Table
rooted_store =
    (0x04 ∷ round_id, Value.vote_round round)
    ∷ (commitment_root_key round_id 3, Value.raw (replicate 32 6))
    ∷ []

abbrev a_vote : MsgCastVote
a_vote = vote 1 (replicate 32 9)

vote_accepted :
    validate_vote_tx small_curve verifiers false context (VoteMessage.cast a_vote) rooted_store
    ≡ (ok tt, rooted_store)
unfolding validate_vote_tx validate_cast_vote validate_round validate_round_for_voting
    get_vote_round vote_round_key validate_round_id validate_proposal_id validate_nullifiers
    check_nullifiers_unique has_nullifier nullifier_key verify_proofs verify_cast_vote
    verify_signature unmarshal_public_key decompress_pallas_point anchor_root
    get_commitment_root_at_height commitment_root_key round_tree_key put_uint64_be
    verify_vote_commitment_proof kv_get kv_has for_each ◌>>=◌ raise_if table lookup bytes_eq
    Option.bind
vote_accepted = refl

validate_vote_tx-CastChecked_example : CastChecked small_curve verifiers context a_vote rooted_store
validate_vote_tx-CastChecked_example =
    validate_vote_tx-CastChecked small_curve verifiers context a_vote rooted_store rooted_store refl
      vote_accepted

abbrev delegation_effects : Bytes
delegation_effects =
    1 ∷ replicate 32 0 ++ replicate 32 2 ++ replicate 32 1 ++ replicate 32 3 ++ replicate 692 0

abbrev first_vote : MsgCastVote
first_vote = record (vote 1 (replicate 32 9)) { vote_comm_tree_anchor_height = 0 }

abbrev second_vote : MsgCastVote
second_vote = record (vote 2 (replicate 32 8)) { vote_comm_tree_anchor_height = 0 }

abbrev composite : MsgDelegateAndCastVoteBatch
composite = record {
  delegation = record delegation {
    gov_nullifiers = replicate 32 5 ∷ [];
    tx1_effects = delegation_effects;
  };
  batch = record { votes = first_vote ∷ second_vote ∷ [] };
}

abbrev round_of_two : VoteRound
round_of_two = record round { proposals = some proposal ∷ some proposal ∷ [] }

abbrev store_of_two : Table
store_of_two = (0x04 ∷ round_id, Value.vote_round round_of_two) ∷ []

composite_accepted :
    validate_vote_tx small_curve verifiers false context
      (VoteMessage.delegate_and_cast composite)
      store_of_two
    ≡ (ok tt, store_of_two)
unfolding validate_vote_tx validate_delegate_and_cast_vote_batch validate_delegate_vote
    validate_cast_vote_batch validate_votes validate_cast_vote need_distinct
    validate_delegation_binding validate_effects_framing validate_round validate_round_for_voting
    get_vote_round vote_round_key validate_round_id validate_proposal_id validate_nullifiers
    check_nullifiers_unique has_nullifier nullifier_key verify_proofs
    verify_delegate_and_cast_vote_batch verify_signatures verify_signature verify_delegation
    verify_chain unmarshal_public_key decompress_pallas_point verify_vote_commitment_proof kv_get
    kv_has for_each ◌>>=◌ raise_if table lookup bytes_eq
composite_accepted = refl

validate_vote_tx-chained_example :
    (r : VoteRound) × (root : Bytes) × (get_vote_round round_id store_of_two ≡ (ok r, store_of_two))
    × (verifiers.single_leaf_root (replicate 32 4) ≡ some root)
    × VoteChecked verifiers
        (verifiers.blake2b_256 (delegate_and_cast_payload composite))
        root
        r.ea_pk
        (first_vote ∷ second_vote ∷ [])
        1
        second_vote
validate_vote_tx-chained_example =
    validate_vote_tx-chained small_curve verifiers context composite store_of_two store_of_two 1
      second_vote composite_accepted refl

vote-Framed : (n : Bytes) → length n ≡ 32 → Framed (vote 1 n)
vote-Framed n h = record {
  round_len = refl;
  key_len = refl;
  nullifier_len = h;
  note_len = refl;
  commitment_len = refl;
  proposal_bound = omega arith;
  height_bound = omega arith;
}

cast_vote_payload-injective_example :
    (a_vote.vote_round_id ≡ a_vote.vote_round_id)
    × (a_vote.r_vpk ≡ a_vote.r_vpk)
    × (a_vote.van_nullifier ≡ a_vote.van_nullifier)
    × (a_vote.vote_authority_note_new ≡ a_vote.vote_authority_note_new)
    × (a_vote.vote_commitment ≡ a_vote.vote_commitment)
    × (a_vote.proposal_id ≡ a_vote.proposal_id)
    × (a_vote.vote_comm_tree_anchor_height ≡ a_vote.vote_comm_tree_anchor_height)
cast_vote_payload-injective_example =
    cast_vote_payload-injective a_vote a_vote (vote-Framed (replicate 32 9) refl)
      (vote-Framed (replicate 32 9) refl) refl

synthetic-Framed :
    (p : ℕ) (n : Bytes)
    → p < 2 ^ 32
    → length n ≡ 32
    → Framed (record (vote p n) { vote_comm_tree_anchor_height = 0 })
synthetic-Framed p n b h = record {
  round_len = refl;
  key_len = refl;
  nullifier_len = h;
  note_len = refl;
  commitment_len = refl;
  proposal_bound = b;
  height_bound = omega arith;
}

composite-FramedBatch : FramedBatch composite
composite-FramedBatch = record {
  round_len = refl;
  note_len = refl;
  votes = (
    synthetic-Framed 1 (replicate 32 9) (omega arith) refl,
    (synthetic-Framed 2 (replicate 32 8) (omega arith) refl, tt),
  );
  count_bound = omega arith;
}

delegate_and_cast_payload-injective_example :
    (composite.delegation.vote_round_id ≡ composite.delegation.vote_round_id)
    × (composite.delegation.van_cmx ≡ composite.delegation.van_cmx)
    × (map effects_of composite.batch.votes ≡ map effects_of composite.batch.votes)
delegate_and_cast_payload-injective_example =
    delegate_and_cast_payload-injective composite composite composite-FramedBatch
      composite-FramedBatch refl
