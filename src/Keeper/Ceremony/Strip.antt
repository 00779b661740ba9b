-- ===== src/Keeper/Ceremony/Strip.antt =====
-- Stripping the validators that did not ack (x/vote/keeper/keeper_ceremony.go,
-- `StripNonAckersFromRound`).
use vote_sdk.Base.{
  ◌≡◌, refl, ◌↔◌, Bool, true, Bytes, bytes_eq, bytes_eq_iff, In, In-keep, keep-In, any_sound,
  any_complete,
}
use vote_sdk.Types.{VoteRound, ValidatorPallasKey, DkgContribution, AckEntry}
use vote_sdk.Keeper.Ceremony.{has_acked, strip_non_ackers_from_round}

-- An ack by the validator with this address.
abbrev pub AckBy : VoteRound → Bytes → Type 0
AckBy round addr = (a : AckEntry) × In a round.ceremony_acks × (a.validator_address ≡ addr)

has_acked_iff :
    (round : VoteRound) (addr : Bytes) → (has_acked round addr ≡ true) ↔ AckBy round addr
has_acked_iff round addr = (
  λ h.
      let (a, m, e) = any_sound (λ a. bytes_eq a.validator_address addr) round.ceremony_acks h in
      (a, m, (bytes_eq_iff a.validator_address addr).0 e),
  λ (a, m, e).
      any_complete (λ a. bytes_eq a.validator_address addr) round.ceremony_acks a m
        ((bytes_eq_iff a.validator_address addr).1 e),
)

-- The validators and the contributions that remain are exactly those of the round whose address has
-- an ack, each unchanged (so with its Shamir index); acks, key and thresholds stay as they were.
pub strip_non_ackers-exact :
    (round : VoteRound) (v : ValidatorPallasKey) (d : DkgContribution)
    → (In v (strip_non_ackers_from_round round).ceremony_validators
        ↔ (In v round.ceremony_validators × AckBy round v.validator_address))
      × (In d (strip_non_ackers_from_round round).dkg_contributions
          ↔ (In d round.dkg_contributions × AckBy round d.validator_address))
      × ((strip_non_ackers_from_round round).ceremony_acks ≡ round.ceremony_acks)
      × ((strip_non_ackers_from_round round).threshold ≡ round.threshold)
      × ((strip_non_ackers_from_round round).ea_pk ≡ round.ea_pk)
unfolding strip_non_ackers_from_round
strip_non_ackers-exact round v d =
    let p : ValidatorPallasKey → Bool = λ x. has_acked round x.validator_address in
    let q : DkgContribution → Bool = λ x. has_acked round x.validator_address in
    (
      (
        λ h.
            let r = In-keep p round.ceremony_validators v h in
            (r.0, (has_acked_iff round v.validator_address).0 r.1),
        λ (m, a).
            keep-In p round.ceremony_validators v m ((has_acked_iff round v.validator_address).1 a),
      ),
      (
        λ h.
            let r = In-keep q round.dkg_contributions d h in
            (r.0, (has_acked_iff round d.validator_address).0 r.1),
        λ (m, a).
            keep-In q round.dkg_contributions d m ((has_acked_iff round d.validator_address).1 a),
      ),
      refl,
      refl,
      refl,
    )
