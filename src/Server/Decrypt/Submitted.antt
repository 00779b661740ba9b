-- ===== src/Server/Decrypt/Submitted.antt =====
-- Accepted submissions of partial decryptions
-- (x/vote/keeper/msg_server_tally_decrypt.go, `SubmitPartialDecryption`).
use vote_sdk.Server.Decrypt.Written.{WrittenIn, set_partial_decryptions-Written}
use vote_sdk.Keeper.Tally.Complete.{validate_partial_decryption_completeness-covers}
use vote_sdk.Keys.{tally_key}
use vote_sdk.Keys.Range.{IsBytes}
use vote_sdk.Base.{
  subst, In, ◌<◌, ◌^◌, some, ℕ, ◌≡◌, ap, ◌∙◌, true, false, not, Option, List, [], ◌∷◌, Bytes, ok,
  Error, map, lift, raise_if, or_raise, for_each, ◌==◌, length, All, ==_iff, not-false, read_step,
  raise_if-false, lift-ok, or_raise-ok, Preserves, Preserves-raise_if, Preserves-lift,
  Preserves-or_raise, Preserves-for_each, Preserves-bind, Preserves-pure, preserves_rules,
}
use vote_sdk.Types.{
  Value, VoteRound, PartialDecryptionEntry, ValidatorPallasKey, Context, is_tallying,
}
use vote_sdk.Kv.{KvStore, kv_iterator}
use vote_sdk.Keeper.Ceremony.Reads.{proposer-keeps}
use vote_sdk.Crypto.{Curve}
use vote_sdk.Crypto.Feldman.{eval_commitment_polynomial}
use vote_sdk.Crypto.Proofs.{Scalars}
use vote_sdk.Keeper.Rounds.{get_vote_round}
use vote_sdk.Keeper.Rounds.Stored.{round-keeps}
use vote_sdk.Keeper.Tally.{
  validate_partial_decryption_completeness, collect_non_empty_accumulators, collect_from,
  get_proposal_tally,
}
use vote_sdk.Keeper.Ceremony.{validate_proposer_is_creator, find_validator_in_round_ceremony}
use vote_sdk.Server.Tally.{set_partial_decryptions, has_partial_decryptions_from_validator}
use vote_sdk.Server.Decrypt.{
  MsgSubmitPartialDecryption, ValidatedPartialDecryptionEntry, or_invalid,
  deserialize_feldman_commitments, validate_and_decode_partial_decryption_entries,
  verify_entry_proof, submit_partial_decryption,
}
use vote_sdk.Server.Decrypt.Proven.{
  Decoded, ProvenEntry, or_invalid-ok, reads-entries, validate_entries-Decoded, proofs-hold, both,
}
use vote_sdk.Types.{Proposal}

module _ {S P F : Type 0} ⦃kv : KvStore S⦄ (c : Curve P F) (sc : Scalars F) where
  reads-has :
      {Q : S → Type 0} (id : Bytes) (i : ℕ)
      → Preserves Q (has_partial_decryptions_from_validator id i)
  unfolding has_partial_decryptions_from_validator kv_iterator
  reads-has id i = search preserves_rules depth 20

  reads-proposal : {Q : S → Type 0} (id : Bytes) (p : ℕ) → Preserves Q (get_proposal_tally id p)
  unfolding get_proposal_tally kv_iterator
  reads-proposal id p = search preserves_rules depth 20

  reads-collect :
      {Q : S → Type 0} (id : Bytes) (ps : List (Option Proposal)) → Preserves Q (collect_from id ps)
  unfolding collect_from
  reads-collect id [] = Preserves-pure []
  reads-collect id (p ∷ rest) =
      Preserves-bind (or_raise p Error.panicked) _ (Preserves-or_raise p _) (λ proposal.
        Preserves-bind (get_proposal_tally id proposal.id) _ (reads-proposal id proposal.id) (λ t.
          Preserves-bind (collect_from id rest) _ (reads-collect id rest)
            (λ others. Preserves-pure _)))

  reads_complete :
      {Q : S → Type 0} (round : VoteRound) (es : List PartialDecryptionEntry)
      → Preserves Q (validate_partial_decryption_completeness round es)
  unfolding validate_partial_decryption_completeness collect_non_empty_accumulators
  reads_complete round es =
      Preserves-bind (collect_from round.vote_round_id round.proposals) _
        (reads-collect round.vote_round_id round.proposals) (λ expected. Preserves-raise_if _ _)

  reads-validated :
      {Q : S → Type 0} (round : VoteRound) (es : List PartialDecryptionEntry)
      → Preserves Q (validate_and_decode_partial_decryption_entries c sc round es)
  unfolding validate_and_decode_partial_decryption_entries
  reads-validated round es =
      Preserves-bind (raise_if (length es == 0) Error.invalid_field) _ (Preserves-raise_if _ _)
        (λ _.
          Preserves-bind (validate_partial_decryption_completeness round es) _
            (reads_complete round es) (λ _. reads-entries c sc round es))

  reads-proofs :
      {Q : S → Type 0} (vk : P) (vs : List (ValidatedPartialDecryptionEntry P))
      → Preserves Q (for_each (verify_entry_proof c sc vk) vs)
  unfolding verify_entry_proof
  reads-proofs vk vs = Preserves-for_each _ vs (λ v. Preserves-lift _)

  -- A submission that passes the checks of its entries covers every accumulator.
  validated-ok :
      (round : VoteRound) (es : List PartialDecryptionEntry) (s : S)
      (vs : List (ValidatedPartialDecryptionEntry P))
      → validate_and_decode_partial_decryption_entries c sc round es s ≡ (ok vs, s)
      → ((length es == 0) ≡ false)
        × (validate_partial_decryption_completeness round es s ≡ (ok tt, s))
        × (map (λ v. v.entry) vs ≡ es)
        × All (Decoded c sc round s) vs
  unfolding validate_and_decode_partial_decryption_entries
  validated-ok round es s vs h =
      let (_, a1, k1) =
        read_step (raise_if (length es == 0) Error.invalid_field) _ s s (Preserves-raise_if _ _)
          h in
      let (_, a2, k2) =
        read_step (validate_partial_decryption_completeness round es) _ s s
          (reads_complete round es) k1 in
      let (same, decoded) = validate_entries-Decoded c sc round es s vs k2 in
      ((raise_if-false (length es == 0) _ s s a1).0, a2, same, decoded)

  -- Under the key of an entry there is an entry of the submission.
  abbrev pub Written : MsgSubmitPartialDecryption → PartialDecryptionEntry → S → Type 0
  Written msg e t = WrittenIn msg.vote_round_id msg.validator_index msg.entries e t

  -- What the store and the message satisfy when a submission is accepted.
  pub record Accepted (msg : MsgSubmitPartialDecryption) (s : S) : Type 0 where
    pub round : VoteRound
    pub current : get_vote_round msg.vote_round_id s ≡ (ok round, s)
    pub tallying : is_tallying round.status ≡ true
    pub validator : ValidatorPallasKey
    pub member : find_validator_in_round_ceremony round msg.creator ≡ some validator
    pub own_index : msg.validator_index ≡ validator.shamir_index
    pub first_time :
        has_partial_decryptions_from_validator msg.vote_round_id msg.validator_index s
        ≡ (ok false, s)
    pub points : List P
    pub committed : deserialize_feldman_commitments c round.feldman_commitments ≡ ok points
    pub vk : P
    pub key : eval_commitment_polynomial c points msg.validator_index ≡ ok vk
    pub validated : List (ValidatedPartialDecryptionEntry P)
    pub entries : map (λ v. v.entry) validated ≡ msg.entries
    pub proven : All (ProvenEntry c sc round vk s) validated

  submission_effects :
      (op : Bytes → Option Bytes) (ctx : Context) (msg : MsgSubmitPartialDecryption) (s t : S)
      → submit_partial_decryption c sc op ctx msg s ≡ (ok tt, t)
      → (a : Accepted msg s) × (validate_partial_decryption_completeness a.round msg.entries s
          ≡ (ok tt, s))
        × (set_partial_decryptions msg.vote_round_id msg.validator_index msg.entries s ≡ (ok tt, t))
  unfolding submit_partial_decryption
  submission_effects op ctx msg s t h =
      let (_, _, k1) =
        read_step (validate_proposer_is_creator op ctx msg.creator) _ s t
          (proposer-keeps op ctx msg.creator) h in
      let (round, a2, k2) =
        read_step (get_vote_round msg.vote_round_id) _ s t (round-keeps msg.vote_round_id) k1 in
      let (_, a3, k3) =
        read_step (raise_if (not (is_tallying round.status)) Error.round_not_tallying) _ s t
          (Preserves-raise_if _ _) k2 in
      let (val, a4, k4) =
        read_step
          (or_raise (find_validator_in_round_ceremony round msg.creator) Error.invalid_field) _ s t
          (Preserves-or_raise _ _) k3 in
      let (_, a5, k5) =
        read_step (raise_if (not (msg.validator_index == val.shamir_index)) Error.invalid_field) _ s
          t (Preserves-raise_if _ _) k4 in
      let (has, a6, k6) =
        read_step (has_partial_decryptions_from_validator msg.vote_round_id msg.validator_index) _ s
          t (reads-has msg.vote_round_id msg.validator_index) k5 in
      let (_, a7, k7) =
        read_step (raise_if has Error.invalid_field) _ s t (Preserves-raise_if _ _) k6 in
      let (vs, a8, k8) =
        read_step (validate_and_decode_partial_decryption_entries c sc round msg.entries) _ s t
          (reads-validated round msg.entries) k7 in
      let (points, a9, k9) =
        read_step (lift (or_invalid (deserialize_feldman_commitments c round.feldman_commitments)))
          _ s t (Preserves-lift _) k8 in
      let (vk, a10, k10) =
        read_step (lift (or_invalid (eval_commitment_polynomial c points msg.validator_index))) _ s
          t (Preserves-lift _) k9 in
      let (_, a11, k12) =
        read_step (for_each (verify_entry_proof c sc vk) vs) _ s t (reads-proofs vk vs) k10 in
      let (es, complete, same, decoded) = validated-ok round msg.entries s vs a8 in
      (
        record {
          round = round;
          current = a2;
          tallying =
              not-false (is_tallying round.status)
                (raise_if-false (not (is_tallying round.status)) _ s s a3).0;
          validator = val;
          member =
              (or_raise-ok (find_validator_in_round_ceremony round msg.creator) Error.invalid_field
                s s val a4).0;
          own_index = (==_iff msg.validator_index val.shamir_index).0 (
              not-false (msg.validator_index == val.shamir_index)
                (raise_if-false (not (msg.validator_index == val.shamir_index)) _ s s a5).0);
          first_time = a6 ∙ ap (λ x. (ok x, s)) (raise_if-false has _ s s a7).0;
          points = points;
          committed =
              or_invalid-ok (deserialize_feldman_commitments c round.feldman_commitments) points (
                lift-ok (or_invalid (deserialize_feldman_commitments c round.feldman_commitments))
                  points s s a9);
          vk = vk;
          key = or_invalid-ok (eval_commitment_polynomial c points msg.validator_index) vk (
              lift-ok (or_invalid (eval_commitment_polynomial c points msg.validator_index)) vk s s
                a10);
          validated = vs;
          entries = same;
          proven = both c sc round vk s vs decoded (proofs-hold c sc vk vs s a11);
        },
        complete,
        k12,
      )

  pub submit_partial_decryption-Accepted :
      (op : Bytes → Option Bytes) (ctx : Context) (msg : MsgSubmitPartialDecryption)
      (e : PartialDecryptionEntry) (s t : S)
      → submit_partial_decryption c sc op ctx msg s ≡ (ok tt, t)
      → In e msg.entries
      → Accepted msg s × Written msg e t
  submit_partial_decryption-Accepted op ctx msg e s t h m =
      let (a, _, w) = submission_effects op ctx msg s t h in
      (
        a,
        set_partial_decryptions-Written msg.vote_round_id msg.validator_index msg.entries e s t w m,
      )

  -- A submission of partial decryptions that is accepted has an entry for each accumulator that the
  -- store holds for a proposal of the round (round ids and keys are byte strings; a decision is a
  -- uint32).
  pub submit_partial_decryption-covers :
      (op : Bytes → Option Bytes) (ctx : Context) (msg : MsgSubmitPartialDecryption)
      (round : VoteRound) (p : Proposal) (d : ℕ) (v : Value) (key : Bytes) (s t : S)
      → submit_partial_decryption c sc op ctx msg s ≡ (ok tt, t)
      → get_vote_round msg.vote_round_id s ≡ (ok round, s)
      → IsBytes round.vote_round_id
      → d < 2 ^ 32
      → In (some p) round.proposals
      → tally_key round.vote_round_id p.id d ≡ ok key
      → kv.get s key ≡ some v
      → (e : PartialDecryptionEntry) × In e msg.entries
        × (e.proposal_id ≡ p.id)
        × (e.vote_decision ≡ d)
  submit_partial_decryption-covers op ctx msg round p d v key s t h g hid hd m hk hv =
      let (a, complete, _) = submission_effects op ctx msg s t h in
      let same : a.round ≡ round = let q = a.current in cc (q, g) in
      validate_partial_decryption_completeness-covers round msg.entries p d v key s s hid hd m hk hv
        (subst (λ r. validate_partial_decryption_completeness r msg.entries s ≡ (ok tt, s)) same
          complete)
