-- ===== src/Server/Contribute/Payloads.antt =====
-- The payloads of a contribution (x/vote/keeper/msg_server_ceremony.go, `ContributeDKG`).
use vote_sdk.Base.{
  ◌≡◌, ◌≢◌, refl, sym, inl, inr, Bool, true, false, not, List, [], ◌∷◌, map, Bytes, bytes_eq,
  bytes_eq_iff, Error, Result, ok, err, Done, any, any_complete, In, All, Distinct, is_some, arith,
  then_check, reject_if,
}
use vote_sdk.Types.{VoteRound, DealerPayload}
use vote_sdk.Crypto.{Curve}
use vote_sdk.Crypto.Proofs.{Scalars}
use vote_sdk.Keeper.Ceremony.{find_validator_in_round_ceremony}
use vote_sdk.Server.Contribute.{check_payloads}

abbrev pub addresses_of : List DealerPayload → List Bytes
addresses_of = map (λ p. p.validator_address)

-- What the loop shows of the payloads that are left, where `covered` were seen before.
pub record ToOthers (round : VoteRound) (creator : Bytes) (covered : List Bytes)
    (payloads : List DealerPayload) : Type 0 where
  pub others :
      All
        (λ p.
          (p.validator_address ≢ creator)
          × (is_some (find_validator_in_round_ceremony round p.validator_address) ≡ true))
        payloads
  pub distinct : Distinct (addresses_of payloads)
  pub fresh : (a : Bytes) → In a covered → In a (addresses_of payloads) → ⊥

then_reject-ok :
    (bad : Bool) (e : Error) (r : Result Done)
    → then_check (reject_if bad e) r ≡ ok tt
    → (bad ≡ false) × (r ≡ ok tt)
then_reject-ok true e r h = cc
then_reject-ok false e r h = (refl, h)

then_check-ok : (a r : Result Done) → then_check a r ≡ ok tt → r ≡ ok tt
then_check-ok (ok _) r h = h
then_check-ok (err e) r h = cc

module _ {P F : Type 0} (c : Curve P F) (sc : Scalars F) where
  pub check_payloads-ToOthers :
      (round : VoteRound) (creator : Bytes) (covered : List Bytes) (payloads : List DealerPayload)
      → check_payloads c sc round creator covered payloads ≡ ok tt
      → ToOthers round creator covered payloads
  unfolding check_payloads
  check_payloads-ToOthers round creator covered [] h = record {
    others = tt;
    distinct = tt;
    fresh = λ a m k. k;
  }
  check_payloads-ToOthers round creator covered (p ∷ rest) h =
      let a = p.validator_address in
      let (own, h1) = then_reject-ok (bytes_eq a creator) Error.payload_mismatch _ h in
      let (known, h2) =
        then_reject-ok (not (is_some (find_validator_in_round_ceremony round a)))
          Error.not_registered_validator _ h1 in
      let (new, h3) = then_reject-ok (any (bytes_eq a) covered) Error.payload_mismatch _ h2 in
      let r = check_payloads-ToOthers round creator (a ∷ covered) rest (then_check-ok _ _ h3) in
      record {
        others = (
          (λ e. let q = (bytes_eq_iff a creator).1 e in cc (q, own), ground (arith, known)),
          r.others,
        );
        distinct = (r.fresh a (inl refl), r.distinct);
        fresh = λ b m k. elim k [
          | inl e ↦
              let q = any_complete (bytes_eq a) covered b m ((bytes_eq_iff a b).1 (sym e)) in
              cc (q, new)
          | inr l ↦ r.fresh b (inr m) l
        ];
      }
