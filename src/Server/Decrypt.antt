-- ===== src/Server/Decrypt.antt =====
-- Partial decryptions of a tally (`SubmitPartialDecryption` of
-- x/vote/keeper/msg_server_tally_decrypt.go, with the checks of x/vote/keeper/keeper_tally.go).
pub mod Proven
pub mod Submitted
pub mod Written
use vote_sdk.Base.{
  ℕ, Bool, true, false, not, Option, none, some, List, [], ◌∷◌, Bytes, Error, Result, ok, err,
  Action, Done, lift, pure, raise_if, or_raise, ◌>>=◌, ◌>>◌, for_each, ◌==◌, length,
}
use vote_sdk.Types.{
  Value, VoteRound, PartialDecryptionEntry, ValidatorPallasKey, Context, as_raw, is_tallying,
}
use vote_sdk.Kv.{KvStore}
use vote_sdk.Crypto.{Curve}
use vote_sdk.Crypto.ElGamal.{
  Ciphertext, and_then, unmarshal_ciphertext, unmarshal_point, decompress_pallas_point,
}
use vote_sdk.Crypto.Feldman.{eval_commitment_polynomial}
use vote_sdk.Crypto.Proofs.{Scalars, verify_partial_decrypt_dleq}
use vote_sdk.Keeper.Rounds.{get_vote_round}
use vote_sdk.Keeper.Voting.{validate_entry_bounds}
use vote_sdk.Keeper.Tally.{get_tally, validate_partial_decryption_completeness}
use vote_sdk.Keeper.Ceremony.{validate_proposer_is_creator, find_validator_in_round_ceremony}
use vote_sdk.Server.Tally.{set_partial_decryptions, has_partial_decryptions_from_validator}
use vote_sdk.Server.Contribute.{as_error}

pub record MsgSubmitPartialDecryption : Type 0 where
  pub vote_round_id : Bytes
  pub creator : Bytes
  pub validator_index : ℕ
  pub entries : List PartialDecryptionEntry

pub record ValidatedPartialDecryptionEntry (P : Type 0) : Type 0 where
  pub entry : PartialDecryptionEntry
  pub partial_decrypt : P
  pub accumulator : Ciphertext P

-- A decoder's failure under the name that the source wraps it in.
abbrev pub or_invalid : {A : Type 0} → Result A → Result A
or_invalid (ok a) = ok a
or_invalid (err _) = err Error.invalid_field

abbrev pub raw_or_malformed : {P : Type 0} → (Bytes → Result P) → Value → Result P
raw_or_malformed decode v = elim (as_raw v) [ none ↦ err Error.malformed | some b ↦ decode b ]

module _ {P F : Type 0} (c : Curve P F) where
  unfoldable pub deserialize_points : List Bytes → Result (List P)
  deserialize_points [] = ok []
  deserialize_points (b ∷ rest) =
      and_then (decompress_pallas_point c b)
        (λ p. and_then (deserialize_points rest) (λ ps. ok (p ∷ ps)))

  unfoldable pub deserialize_feldman_commitments : List Bytes → Result (List P)
  unfolding deserialize_points
  deserialize_feldman_commitments [] = err Error.malformed
  deserialize_feldman_commitments (b ∷ rest) = deserialize_points (b ∷ rest)

module _ {S P F : Type 0} ⦃kv : KvStore S⦄ (c : Curve P F) (sc : Scalars F) where
  unfoldable pub validate_entry :
      VoteRound → PartialDecryptionEntry → Action S (ValidatedPartialDecryptionEntry P)
  unfolding ◌>>=◌
  validate_entry round entry = do
    d_i ← lift (or_invalid (unmarshal_point c entry.partial_decrypt))
    lift (validate_entry_bounds round entry.proposal_id entry.vote_decision)
    found ← get_tally round.vote_round_id entry.proposal_id entry.vote_decision
    acc_bytes ← or_raise found Error.invalid_field
    ct ← lift (raw_or_malformed (unmarshal_ciphertext c) acc_bytes)
    pure (record { entry = entry; partial_decrypt = d_i; accumulator = ct })

  -- The loop over the entries.
  unfoldable pub validate_entries :
      VoteRound → List PartialDecryptionEntry → Action S (List (ValidatedPartialDecryptionEntry P))
  unfolding ◌>>=◌ validate_entry
  validate_entries round [] = pure []
  validate_entries round (e ∷ rest) =
      validate_entry round e >>= λ v. validate_entries round rest >>= λ vs. pure (v ∷ vs)

  unfoldable pub validate_and_decode_partial_decryption_entries :
      VoteRound → List PartialDecryptionEntry → Action S (List (ValidatedPartialDecryptionEntry P))
  unfolding ◌>>=◌ validate_entries validate_partial_decryption_completeness
  validate_and_decode_partial_decryption_entries round entries = do
    raise_if (length entries == 0) Error.invalid_field
    validate_partial_decryption_completeness round entries
    validate_entries round entries

  -- The proof of one entry, under the validator's verification key.
  unfoldable pub verify_entry_proof : P → ValidatedPartialDecryptionEntry P → Action S Done
  unfolding verify_partial_decrypt_dleq
  verify_entry_proof vk v = lift (
      as_error Error.invalid_field
        (verify_partial_decrypt_dleq c sc v.entry.dleq_proof vk v.accumulator.c1 v.partial_decrypt))

  unfoldable pub submit_partial_decryption :
      (Bytes → Option Bytes) → Context → MsgSubmitPartialDecryption → Action S Done
  unfolding ◌>>=◌ for_each verify_entry_proof
  submit_partial_decryption operator_of ctx msg = do
    validate_proposer_is_creator operator_of ctx msg.creator
    round ← get_vote_round msg.vote_round_id
    raise_if (not (is_tallying round.status)) Error.round_not_tallying
    ceremony_val ← or_raise (find_validator_in_round_ceremony round msg.creator) Error.invalid_field
    raise_if (not (msg.validator_index == ceremony_val.shamir_index)) Error.invalid_field
    has ← has_partial_decryptions_from_validator msg.vote_round_id msg.validator_index
    raise_if has Error.invalid_field
    validated ← validate_and_decode_partial_decryption_entries round msg.entries
    points ← lift (or_invalid (deserialize_feldman_commitments c round.feldman_commitments))
    vk ← lift (or_invalid (eval_commitment_polynomial c points msg.validator_index))
    for_each (verify_entry_proof vk) validated
    set_partial_decryptions msg.vote_round_id msg.validator_index msg.entries
