-- ===== src/Server/Contribute/Dealing.antt =====
-- The round after a contribution (x/vote/keeper/msg_server_ceremony.go, `ContributeDKG` and `finalizeDKG`).
use vote_sdk.Base.{
  ◌≢◌, All, Distinct, map, ℕ, ◌-◌, ◌≡◌, refl, ◌↔◌, inl, inr, true, false, List, [], ◌∷◌, Bytes,
  Error, Result, ok, err, Done, ◌==◌, ==_iff, length, is_some, arith, Bool-cases, then_check,
  reject_if,
}
use vote_sdk.Types.{VoteRound, ValidatorPallasKey, SessionStatus, CeremonyStatus, Context}
use vote_sdk.Crypto.{Curve}
use vote_sdk.Crypto.ElGamal.{and_then}
use vote_sdk.Crypto.Feldman.{combine_commitments}
use vote_sdk.Crypto.Proofs.{Scalars, verify_constant_term_proof}
use vote_sdk.Keeper.Ceremony.{
  find_validator_in_round_ceremony, find_contribution_in_round, threshold_for_n,
  append_ceremony_log,
}
use vote_sdk.Server.Contribute.{
  MsgContributeDkg, index_validators, decode_rows, combined_is_identity, dealt_round, finalize_dkg,
  with_contribution, after_contribution,
}

and_then-ok :
    {A B : Type 0} (r : Result A) (f : A → Result B) (b : B)
    → and_then r f ≡ ok b
    → (a : A) × (r ≡ ok a) × (f a ≡ ok b)
and_then-ok (ok a) f b h = (a, refl, h)
and_then-ok (err e) f b h = cc

then_check-ok :
    {B : Type 0} (a : Result Done) (r : Result B) (b : B) → then_check a r ≡ ok b → r ≡ ok b
then_check-ok (ok _) r b h = h
then_check-ok (err e) r b h = cc

module _ {P F : Type 0} (c : Curve P F) (sc : Scalars F) where
  -- A round after a contribution: the same contributions, and dealt exactly if all are in.
  abbrev pub Followed : VoteRound → VoteRound → ℕ → Type 0
  Followed round next n =
      (next.vote_round_id ≡ round.vote_round_id)
      × (next.dkg_contributions ≡ round.dkg_contributions)
      × ((next.ceremony_status ≡ CeremonyStatus.dealt) ↔ (length round.dkg_contributions ≡ n))

  dealt_round-ok :
      (ctx : Context) (round next : VoteRound) (n threshold : ℕ) (combined : List P)
      (vs : List ValidatorPallasKey)
      → dealt_round c sc ctx round n threshold combined vs ≡ ok next
      → (next.vote_round_id ≡ round.vote_round_id)
        × (next.dkg_contributions ≡ round.dkg_contributions)
        × (next.ceremony_status ≡ CeremonyStatus.dealt)
  unfolding dealt_round append_ceremony_log
  dealt_round-ok ctx round next n threshold [] vs h = cc
  dealt_round-ok ctx round next n threshold (p ∷ ps) vs h = (cc h, cc h, cc h)

  finalize_dkg-ok :
      (ctx : Context) (round next : VoteRound) (n threshold : ℕ)
      → finalize_dkg c sc ctx round n threshold ≡ ok next
      → (next.vote_round_id ≡ round.vote_round_id)
        × (next.dkg_contributions ≡ round.dkg_contributions)
        × (next.ceremony_status ≡ CeremonyStatus.dealt)
  unfolding finalize_dkg
  finalize_dkg-ok ctx round next n threshold h =
      let (rows, _, k1) = and_then-ok (decode_rows c sc round.dkg_contributions) _ next h in
      let (combined, _, k2) = and_then-ok (combine_commitments c rows) _ next k1 in
      let k3 =
        then_check-ok (reject_if (combined_is_identity c sc combined) Error.invalid_pallas_point) _
          next k2 in
      let (vs, _, k4) =
        and_then-ok (index_validators c sc combined 0 round.ceremony_validators) _ next k3 in
      dealt_round-ok ctx round next n threshold combined vs k4

  pub after_contribution-Followed :
      (ctx : Context) (creator : Bytes) (round next : VoteRound) (n threshold : ℕ)
      → round.ceremony_status ≡ CeremonyStatus.registering
      → after_contribution c sc ctx creator round n threshold ≡ ok next
      → Followed round next n
  unfolding after_contribution append_ceremony_log
  after_contribution-Followed ctx creator round next n threshold reg h =
      elim (Bool-cases (length round.dkg_contributions == n)) [
        | inl e ↦
            let (i, d, st) = finalize_dkg-ok ctx round next n threshold (rw e at h) in
            let eq = (==_iff (length round.dkg_contributions) n).0 e in (i, d, (λ _. eq, λ _. st))
        | inr e ↦
            let k = rw e at h in
            let st : next.ceremony_status ≡ round.ceremony_status = cc k in
            (cc k, cc k, (λ q. absurd (cc (q, st, reg)), λ q. absurd (ground (arith, e, q))))
      ]

  -- The round before and after an accepted contribution.
  pub record Contributed (chain_id : Bytes) (msg : MsgContributeDkg) (round next : VoteRound)
      : Type 0 where
    pub registering : round.ceremony_status ≡ CeremonyStatus.registering
    pub pending : round.status ≡ SessionStatus.pending
    pub member : is_some (find_validator_in_round_ceremony round msg.creator) ≡ true
    pub first_time : is_some (find_contribution_in_round round msg.creator) ≡ false
    pub enough_commitments :
        threshold_for_n (length round.ceremony_validators) ≡ ok (length msg.feldman_commitments)
    pub payload_count : length msg.payloads ≡ length round.ceremony_validators - 1
    pub for_others :
        All
          (λ p.
            (p.validator_address ≢ msg.creator)
            × (is_some (find_validator_in_round_ceremony round p.validator_address) ≡ true))
          msg.payloads
    pub no_repeat : Distinct (map (λ p. p.validator_address) msg.payloads)
    pub proven :
        verify_constant_term_proof c sc msg.constant_term_proof chain_id msg.vote_round_id
          msg.creator msg.feldman_commitments
        ≡ ok tt
    pub contributed : next.dkg_contributions ≡ (with_contribution c sc msg round).dkg_contributions
    pub dealt_if_all : (next.ceremony_status ≡ CeremonyStatus.dealt) ↔ (
        length (with_contribution c sc msg round).dkg_contributions
        ≡ length round.ceremony_validators)
