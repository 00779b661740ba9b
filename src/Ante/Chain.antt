-- ===== src/Ante/Chain.antt =====
-- The chain of proofs in a batch of votes (x/vote/ante/validate.go, `verifyCastVoteBatch` and
-- `verifyDelegateAndCastVoteBatch`).
use vote_sdk.Base.{
  ℕ, zero, suc, ◌≡◌, refl, Bool, true, false, not, Option, none, some, List, [], ◌∷◌, Bytes, Error,
  Result, ok, err, Done, lift, get_elem?, not-false, some_inj, reject_if, then_check, for_each,
  raise_if-false, read_step, Preserves-lift,
}
use vote_sdk.Kv.{KvStore}
use vote_sdk.Crypto.{Curve}
use vote_sdk.Crypto.ElGamal.{and_then, unmarshal_public_key}
use vote_sdk.Msgs.{MsgCastVote}
use vote_sdk.Ante.{
  Verifiers, commitment_inputs, verify_vote_commitment_proof, verify_chain, or_external,
  verify_signature,
}
use vote_sdk.Ante.Reads.{reads-signature}
use vote_sdk.Server.Contribute.{as_error}

module _ (v : Verifiers) where
  -- The root that the vote at a position must be proved against: the first has the root of its anchor,
  -- another the root of the tree that holds only the note of the vote before it.
  unfoldable pub expected_root : Bytes → List MsgCastVote → ℕ → Option Bytes
  expected_root root votes zero = some root
  expected_root root votes (suc i) = elim (get_elem? votes i) [
    | none ↦ none
    | some before ↦ v.single_leaf_root before.vote_authority_note_new
  ]

  pub proof-ok :
      (vote : MsgCastVote) (root ea_pk : Bytes)
      → verify_vote_commitment_proof v vote root ea_pk ≡ ok tt
      → v.vote_commitment vote.proof (commitment_inputs vote root ea_pk) ≡ true
  unfolding verify_vote_commitment_proof
  proof-ok vote root ea_pk h =
      decided (v.vote_commitment vote.proof (commitment_inputs vote root ea_pk)) h
    where
      decided : (b : Bool) → reject_if (not b) Error.invalid_proof ≡ ok tt → b ≡ true
      decided true h = refl
      decided false h = cc

  then_check-ok : (a b : Result Done) → then_check a b ≡ ok tt → (a ≡ ok tt) × (b ≡ ok tt)
  then_check-ok (ok _) b h = (refl, h)
  then_check-ok (err e) b h = cc

  or_external-ok :
      (o : Option Bytes) (f : Bytes → Result Done)
      → and_then (or_external o) f ≡ ok tt
      → (r : Bytes) × (o ≡ some r) × (f r ≡ ok tt)
  or_external-ok none f h = cc
  or_external-ok (some r) f h = (r, refl, h)

  later_root :
      (root r : Bytes) (vote next : MsgCastVote) (rest : List MsgCastVote) (i : ℕ)
      → v.single_leaf_root vote.vote_authority_note_new ≡ some root
      → expected_root root (next ∷ rest) i ≡ some r
      → (anchor : Bytes) → expected_root anchor (vote ∷ next ∷ rest) (suc i) ≡ some r
  unfolding expected_root
  later_root root r vote next rest zero e h anchor = cc
  later_root root r vote next rest (suc i) e h anchor = h

  pub verify_chain-expected_root :
      (ea_pk root : Bytes) (votes : List MsgCastVote) (i : ℕ) (vote : MsgCastVote)
      → verify_chain v ea_pk root votes ≡ ok tt
      → get_elem? votes i ≡ some vote
      → (r : Bytes) × (expected_root root votes i ≡ some r)
        × (v.vote_commitment vote.proof (commitment_inputs vote r ea_pk) ≡ true)
  unfolding verify_chain expected_root
  verify_chain-expected_root ea_pk root [] i vote h e = cc
  verify_chain-expected_root ea_pk root (x ∷ []) zero vote h e =
      (root, refl, rw (← some_inj e) (proof-ok x root ea_pk h))
  verify_chain-expected_root ea_pk root (x ∷ []) (suc i) vote h e = cc
  verify_chain-expected_root ea_pk root (x ∷ next ∷ rest) zero vote h e =
      (root, refl, rw (← some_inj e) (proof-ok x root ea_pk (then_check-ok _ _ h).0))
  verify_chain-expected_root ea_pk root (x ∷ next ∷ rest) (suc i) vote h e =
      let (r, leaf, k) =
        or_external-ok (v.single_leaf_root x.vote_authority_note_new) _
          (then_check-ok (verify_vote_commitment_proof v x root ea_pk) _ h).1 in
      let (q, at, p) = verify_chain-expected_root ea_pk r (next ∷ rest) i vote k e in
      (q, later_root r q x next rest i leaf at root, p)

module _ {S P F : Type 0} ⦃kv : KvStore S⦄ (c : Curve P F) (v : Verifiers) where
  pub verify_signature-ok :
      (key digest sig : Bytes) (s t : S)
      → verify_signature c v key digest sig s ≡ (ok tt, t)
      → v.signature key digest sig ≡ true
  unfolding verify_signature
  verify_signature-ok key digest sig s t h =
      let (_, _, k) =
        read_step (lift (as_error Error.invalid_signature (unmarshal_public_key c key))) _ s t
          (Preserves-lift _) h in
      not-false (v.signature key digest sig)
        (raise_if-false (not (v.signature key digest sig)) _ s t k).0

  pub signatures-hold :
      (digest : Bytes) (votes : List MsgCastVote) (s t : S) (i : ℕ) (vote : MsgCastVote)
      → for_each (λ x. verify_signature c v x.r_vpk digest x.vote_auth_sig) votes s ≡ (ok tt, t)
      → get_elem? votes i ≡ some vote
      → v.signature vote.r_vpk digest vote.vote_auth_sig ≡ true
  unfolding for_each
  signatures-hold digest [] s t i vote h e = cc
  signatures-hold digest (x ∷ rest) s t zero vote h e =
      let (_, a, k) =
        read_step (verify_signature c v x.r_vpk digest x.vote_auth_sig) _ s t
          (reads-signature c v _ _ _) h in
      rw (← some_inj e) (verify_signature-ok x.r_vpk digest x.vote_auth_sig s s a)
  signatures-hold digest (x ∷ rest) s t (suc i) vote h e =
      let (_, a, k) =
        read_step (verify_signature c v x.r_vpk digest x.vote_auth_sig) _ s t
          (reads-signature c v _ _ _) h in
      signatures-hold digest rest s t i vote k e
