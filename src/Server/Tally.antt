-- ===== src/Server/Tally.antt =====
-- Finalising a tally (x/vote/keeper/msg_server_tally_decrypt.go, `SubmitTally`, and
-- x/vote/keeper/keeper_partial_decrypt.go).
pub mod Final
use vote_sdk.Base.{
  ℕ, ◌+◌, ◌*◌, ◌^◌, Bool, not, Option, none, some, List, [], ◌∷◌, map, Bytes, bytes_eq, Error,
  Result, ok, err, Action, Done, lift, pure, raise_if, ◌>>=◌, ◌>>◌, for_each, leb, ◌==◌, length,
  drop, keep, then_check, reject_if,
}
use vote_sdk.Keys.{
  partial_decryption_key, partial_decryption_prefix_for_round,
  partial_decryption_prefix_for_validator, prefix_end_bytes, get_uint32_be,
}
use vote_sdk.Types.{
  Value, VoteRound, SessionStatus, TallyEntry, PartialDecryptionEntry, Context, as_raw,
  as_partial_decryption, is_tallying, tally_bsgs_bound,
}
use vote_sdk.Kv.{KvStore, kv_set, kv_iterator}
use vote_sdk.Crypto.{Curve}
use vote_sdk.Crypto.ElGamal.{and_then, unmarshal_ciphertext, unmarshal_point, value_point}
use vote_sdk.Crypto.Shamir.{PartialDecryption, combine_partials}
use vote_sdk.Keeper.Rounds.{get_vote_round, set_vote_round}
use vote_sdk.Keeper.Voting.{validate_entry_bounds}
use vote_sdk.Keeper.Tally.{get_tally, set_tally_result, validate_tally_completeness}
use vote_sdk.Keeper.Ceremony.{validate_proposer_is_creator}
use vote_sdk.Msgs.{MsgSubmitTally}

pub record PartialDecryptionWithIndex : Type 0 where
  pub validator_index : ℕ
  pub partial_decrypt : Bytes
  pub dleq_proof : Bytes

-- `AccumulatorKey`: the proposal in the high 32 bits.
unfoldable pub accumulator_key : ℕ → ℕ → ℕ
accumulator_key proposal_id decision = proposal_id * 2 ^ 32 + decision

-- The partial decryption in an entry of the scan of a round: three integers behind the prefix of
-- 33 bytes, and the message.
abbrev decode_partial : Bytes × Value → Result (ℕ × PartialDecryptionWithIndex)
decode_partial (key, v) = elim (get_uint32_be (drop 33 key)) [
  | none ↦ err Error.malformed
  | some validator_index ↦ elim (get_uint32_be (drop 37 key)) [
    | none ↦ err Error.malformed
    | some proposal_id ↦ elim (get_uint32_be (drop 41 key)) [
      | none ↦ err Error.malformed
      | some decision ↦ elim (as_partial_decryption v) [
        | none ↦ err Error.malformed
        | some e ↦ ok (
          accumulator_key proposal_id decision,
          record {
            validator_index = validator_index;
            partial_decrypt = e.partial_decrypt;
            dleq_proof = e.dleq_proof;
          },
        )
      ]
    ]
  ]
]

decode_partials : List (Bytes × Value) → Result (List (ℕ × PartialDecryptionWithIndex))
decode_partials [] = ok []
decode_partials (e ∷ rest) =
    and_then (decode_partial e) (λ p. and_then (decode_partials rest) (λ ps. ok (p ∷ ps)))

-- `pdMap[key]`: the entries of one accumulator, in the order of the scan.
abbrev pub partials_of : List (ℕ × PartialDecryptionWithIndex) → ℕ → List PartialDecryptionWithIndex
partials_of pds k = map (λ e. e.1) (keep (λ e. e.0 == k) pds)

module _ {S : Type 0} ⦃kv : KvStore S⦄ where
  unfoldable pub set_partial_decryptions : Bytes → ℕ → List PartialDecryptionEntry → Action S Done
  unfolding ◌>>=◌ for_each kv_set
  set_partial_decryptions round_id validator_index entries =
      for_each
        (λ e.
          lift (partial_decryption_key round_id validator_index e.proposal_id e.vote_decision)
          >>= λ key. kv_set key (Value.partial_decryption e))
        entries

  unfoldable pub has_partial_decryptions_from_validator : Bytes → ℕ → Action S Bool
  unfolding ◌>>=◌ kv_iterator
  has_partial_decryptions_from_validator round_id validator_index = do
    prefix ← lift (partial_decryption_prefix_for_validator round_id validator_index)
    entries ← kv_iterator prefix (prefix_end_bytes prefix)
    pure (not (length entries == 0))

  unfoldable pub get_partial_decryptions_for_round :
      Bytes → Action S (List (ℕ × PartialDecryptionWithIndex))
  unfolding ◌>>=◌ kv_iterator decode_partials
  get_partial_decryptions_for_round round_id = do
    prefix ← lift (partial_decryption_prefix_for_round round_id)
    entries ← kv_iterator prefix (prefix_end_bytes prefix)
    lift (decode_partials entries)

module _ {P F : Type 0} (c : Curve P F) where
  decode_points : List PartialDecryptionWithIndex → Result (List (PartialDecryption P))
  decode_points [] = ok []
  decode_points (pd ∷ rest) = and_then (unmarshal_point c pd.partial_decrypt) (λ point.
      and_then (decode_points rest)
        (λ ps. ok (record { index = pd.validator_index; di = point } ∷ ps)))

  -- The second component without the combined share against `totalValue * G`, in the compressed form.
  abbrev matches_total : P → P → ℕ → Result Done
  matches_total c2 sk_c1 total =
      reject_if
        (not (
          bytes_eq (c.to_affine_compressed (c.sub c2 sk_c1))
            (c.to_affine_compressed (value_point c total))))
        Error.tally_mismatch

  -- A failed combination is reported as a mismatch.
  abbrev as_mismatch : Result P → Result P
  as_mismatch (ok p) = ok p
  as_mismatch (err _) = err Error.tally_mismatch

  -- The check of one entry against its accumulator and the stored partial decryptions.
  unfoldable pub verify_entry :
      VoteRound → List PartialDecryptionWithIndex → Option Value → ℕ → Result Done
  unfolding decode_points
  verify_entry round stored none total = reject_if (not (total == 0)) Error.tally_mismatch
  verify_entry round stored (some v) total = elim (as_raw v) [
    | none ↦ err Error.malformed
    | some acc ↦ and_then (unmarshal_ciphertext c acc) (λ ct.
        then_check (reject_if (length stored == 0) Error.tally_mismatch) (
          and_then (decode_points stored) (λ partials.
            and_then (as_mismatch (combine_partials c partials round.threshold))
              (λ sk_c1. matches_total ct.c2 sk_c1 total))))
  ]

module _ {S P F : Type 0} ⦃kv : KvStore S⦄ (c : Curve P F) where
  unfoldable pub submit_entry :
      VoteRound → Bytes → List (ℕ × PartialDecryptionWithIndex) → TallyEntry → Action S Done
  unfolding ◌>>=◌
  submit_entry round round_id pds entry = do
    lift (validate_entry_bounds round entry.proposal_id entry.vote_decision)
    raise_if (leb tally_bsgs_bound entry.total_value) Error.tally_mismatch
    acc ← get_tally round_id entry.proposal_id entry.vote_decision
    lift (
        verify_entry c round
          (partials_of pds (accumulator_key entry.proposal_id entry.vote_decision)) acc
          entry.total_value)
    set_tally_result (record {
      vote_round_id = round_id;
      proposal_id = entry.proposal_id;
      vote_decision = entry.vote_decision;
      total_value = entry.total_value;
    })

  unfoldable pub submit_tally : (Bytes → Option Bytes) → Context → MsgSubmitTally → Action S Done
  unfolding ◌>>=◌ for_each
  submit_tally operator_of ctx msg = do
    validate_proposer_is_creator operator_of ctx msg.creator
    round ← get_vote_round msg.vote_round_id
    raise_if (not (is_tallying round.status)) Error.round_not_tallying
    pds ← get_partial_decryptions_for_round msg.vote_round_id
    for_each (submit_entry round msg.vote_round_id pds) msg.entries
    validate_tally_completeness round msg.entries
    set_vote_round (record round { status = SessionStatus.finalized })
