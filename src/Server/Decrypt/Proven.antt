-- ===== src/Server/Decrypt/Proven.antt =====
-- What an accepted partial decryption shows
-- (x/vote/keeper/msg_server_tally_decrypt.go, `SubmitPartialDecryption`).
use vote_sdk.Base.{
  ℕ, ◌≡◌, refl, sym, ap, ◌∙◌, subst, Option, some, List, [], ◌∷◌, Bytes, Result, ok, err, Error,
  map, Done, lift, or_raise, for_each, All, read_step, lift-ok, or_raise-ok, pure-ok, Preserves,
  Preserves-lift, Preserves-or_raise, Preserves-bind, Preserves-pure, preserves_rules,
}
use vote_sdk.Types.{Value, VoteRound, PartialDecryptionEntry}
use vote_sdk.Kv.{KvStore, kv_get}
use vote_sdk.Crypto.{Curve}
use vote_sdk.Crypto.ElGamal.{Ciphertext, unmarshal_ciphertext, unmarshal_point}
use vote_sdk.Crypto.Proofs.{Scalars, verify_partial_decrypt_dleq}
use vote_sdk.Keeper.Voting.{validate_entry_bounds}
use vote_sdk.Keeper.Tally.{get_tally}
use vote_sdk.Server.Contribute.{as_error}
use vote_sdk.Server.Decrypt.{
  ValidatedPartialDecryptionEntry, or_invalid, raw_or_malformed, validate_entry, validate_entries,
  verify_entry_proof,
}

pub or_invalid-ok : {A : Type 0} (r : Result A) (a : A) → or_invalid r ≡ ok a → r ≡ ok a
or_invalid-ok (ok b) a h = h
or_invalid-ok (err e) a h = cc h

pub as_error-ok : (e : Error) (r : Result Done) → as_error e r ≡ ok tt → r ≡ ok tt
as_error-ok e (ok b) h = ap ok refl
as_error-ok e (err x) h = cc h

module _ {S P F : Type 0} ⦃kv : KvStore S⦄ (c : Curve P F) (sc : Scalars F) where
  reads-tally : {Q : S → Type 0} (id : Bytes) (p d : ℕ) → Preserves Q (get_tally id p d)
  unfolding get_tally kv_get
  reads-tally id p d = search preserves_rules depth 20

  reads-entry :
      {Q : S → Type 0} (round : VoteRound) (e : PartialDecryptionEntry)
      → Preserves Q (validate_entry c sc round e)
  unfolding validate_entry
  reads-entry round e = search (preserves_rules, reads-tally) depth 30

  pub reads-entries :
      {Q : S → Type 0} (round : VoteRound) (es : List PartialDecryptionEntry)
      → Preserves Q (validate_entries c sc round es)
  unfolding validate_entries
  reads-entries round [] = Preserves-pure []
  reads-entries round (e ∷ rest) =
      Preserves-bind (validate_entry c sc round e) _ (reads-entry round e) (λ v.
        Preserves-bind (validate_entries c sc round rest) _ (reads-entries round rest)
          (λ vs. Preserves-pure (v ∷ vs)))

  -- The decoded form of an entry: its point, and the stored accumulator it is for.
  pub record Decoded (round : VoteRound) (s : S) (v : ValidatedPartialDecryptionEntry P)
      : Type 0 where
    pub point : unmarshal_point c v.entry.partial_decrypt ≡ ok v.partial_decrypt
    pub stored : Value
    pub found :
        get_tally round.vote_round_id v.entry.proposal_id v.entry.vote_decision s
        ≡ (ok (some stored), s)
    pub accumulator : raw_or_malformed (unmarshal_ciphertext c) stored ≡ ok v.accumulator

  validate_entry-Decoded :
      (round : VoteRound) (e : PartialDecryptionEntry) (s : S)
      (v : ValidatedPartialDecryptionEntry P)
      → validate_entry c sc round e s ≡ (ok v, s)
      → (v.entry ≡ e) × Decoded round s v
  unfolding validate_entry
  validate_entry-Decoded round e s v h =
      let (d, a1, k1) =
        read_step (lift (or_invalid (unmarshal_point c e.partial_decrypt))) _ s s (Preserves-lift _)
          h in
      let (_, _, k2) =
        read_step (lift (validate_entry_bounds round e.proposal_id e.vote_decision)) _ s s
          (Preserves-lift _) k1 in
      let (found, a3, k3) =
        read_step (get_tally round.vote_round_id e.proposal_id e.vote_decision) _ s s
          (reads-tally round.vote_round_id e.proposal_id e.vote_decision) k2 in
      let (stored, a4, k4) =
        read_step (or_raise found Error.invalid_field) _ s s (Preserves-or_raise _ _) k3 in
      let (ct, a5, k5) =
        read_step (lift (raw_or_malformed (unmarshal_ciphertext c) stored)) _ s s (Preserves-lift _)
          k4 in
      decoded d found stored ct
        (or_invalid-ok (unmarshal_point c e.partial_decrypt) d
          (lift-ok (or_invalid (unmarshal_point c e.partial_decrypt)) d s s a1))
        (a3 ∙ ap (λ x. (ok x, s)) (or_raise-ok found Error.invalid_field s s stored a4).0)
        (lift-ok (raw_or_malformed (unmarshal_ciphertext c) stored) ct s s a5)
        (pure-ok (record { entry = e; partial_decrypt = d; accumulator = ct }) v s s k5).0
    where
      decoded :
          (d : P) (found : Option Value) (stored : Value) (ct : Ciphertext P)
          → unmarshal_point c e.partial_decrypt ≡ ok d
          → get_tally round.vote_round_id e.proposal_id e.vote_decision s ≡ (ok (some stored), s)
          → raw_or_malformed (unmarshal_ciphertext c) stored ≡ ok ct
          → v ≡ record { entry = e; partial_decrypt = d; accumulator = ct }
          → (v.entry ≡ e) × Decoded round s v
      decoded d found stored ct a b f q =
          subst (λ (x : ValidatedPartialDecryptionEntry P). (x.entry ≡ e) × Decoded round s x)
            (sym q) (refl, record { point = a; stored = stored; found = b; accumulator = f })

  -- An entry with its decoded form and an accepted proof under the verification key.
  pub record ProvenEntry (round : VoteRound) (vk : P) (s : S)
      (v : ValidatedPartialDecryptionEntry P) : Type 0 where
    pub decoded : Decoded round s v
    pub proof :
        verify_partial_decrypt_dleq c sc v.entry.dleq_proof vk v.accumulator.c1 v.partial_decrypt
        ≡ ok tt

  -- The list of validated entries is that of the message, each with its decoded form.
  pub validate_entries-Decoded :
      (round : VoteRound) (es : List PartialDecryptionEntry) (s : S)
      (vs : List (ValidatedPartialDecryptionEntry P))
      → validate_entries c sc round es s ≡ (ok vs, s)
      → (map (λ v. v.entry) vs ≡ es) × All (Decoded round s) vs
  unfolding validate_entries
  validate_entries-Decoded round [] s vs h = let p = (pure-ok [] vs s s h).0 in rw p (refl, tt)
  validate_entries-Decoded round (e ∷ rest) s vs h =
      let (v, a, k) = read_step (validate_entry c sc round e) _ s s (reads-entry round e) h in
      let (ws, b, j) =
        read_step (validate_entries c sc round rest) _ s s (reads-entries round rest) k in
      let p = (pure-ok (v ∷ ws) vs s s j).0 in
      let (q, d) = validate_entry-Decoded round e s v a in
      let (r, ds) = validate_entries-Decoded round rest s ws b in
      subst (λ xs. (map (λ v. v.entry) xs ≡ e ∷ rest) × All (Decoded round s) xs) (sym p)
        (ap (λ x. x ∷ map (λ v. v.entry) ws) q ∙ ap (λ xs. e ∷ xs) r, (d, ds))

  pub proofs-hold :
      (vk : P) (vs : List (ValidatedPartialDecryptionEntry P)) (s : S)
      → for_each (verify_entry_proof c sc vk) vs s ≡ (ok tt, s)
      → All
          (λ v.
            verify_partial_decrypt_dleq c sc v.entry.dleq_proof vk v.accumulator.c1
              v.partial_decrypt
            ≡ ok tt)
          vs
  unfolding for_each verify_entry_proof
  proofs-hold vk [] s h = tt
  proofs-hold vk (v ∷ rest) s h =
      let check = as_error Error.invalid_field (
        verify_partial_decrypt_dleq c sc v.entry.dleq_proof vk v.accumulator.c1
          v.partial_decrypt) in
      let (_, a, k) =
        read_step (lift check) (λ _. for_each (verify_entry_proof c sc vk) rest) s s
          (Preserves-lift _) h in
      (as_error-ok Error.invalid_field _ (lift-ok check tt s s a), proofs-hold vk rest s k)

  pub both :
      (round : VoteRound) (vk : P) (s : S) (vs : List (ValidatedPartialDecryptionEntry P))
      → All (Decoded round s) vs
      → All
          (λ v.
            verify_partial_decrypt_dleq c sc v.entry.dleq_proof vk v.accumulator.c1
              v.partial_decrypt
            ≡ ok tt)
          vs
      → All (ProvenEntry round vk s) vs
  both round vk s [] ds ps = tt
  both round vk s (v ∷ rest) (d, ds) (p, ps) =
      (record { decoded = d; proof = p }, both round vk s rest ds ps)
