-- ===== src/Server/Ceremony/Ack.antt =====
-- What an accepted ack records (x/vote/keeper/msg_server_ceremony.go, `AckExecutiveAuthorityKey`).
use mathlib.Core.Path.{subst}
use vote_sdk.Base.{
  ℕ, suc, ◌≡◌, refl, sym, ap, ◌∙◌, ◌↔◌, inl, inr, true, false, not, Option, none, some, List, [],
  ◌∷◌, ◌++◌, Bytes, bytes_eq, bytes_eq_refl, Error, ok, pure, raise_if, ◌==◌, ==_iff, length,
  length-append, is_some, arith, Bool-cases, not-false, pair_eq, raise_if-false, read_step,
  preserves_rules,
}
use vote_sdk.Types.{VoteRound, AckEntry, SessionStatus, CeremonyStatus, Context, is_pending}
use vote_sdk.Kv.{KvStore}
use vote_sdk.Keeper.Rounds.Stored.{get-set_vote_round, round-keeps}
use vote_sdk.Keeper.Rounds.{get_vote_round, same_ceremony}
use vote_sdk.Keeper.Ceremony.{
  validate_proposer_is_creator, get_pending_round_with_ceremony, find_validator_in_round_ceremony,
  find_ack_in_round_ceremony, append_ceremony_log, find_ack_from,
}
use vote_sdk.Keeper.Ceremony.Reads.{pending-eq, proposer-keeps, pending-keeps}
use vote_sdk.Msgs.{MsgAckExecutiveAuthorityKey}
use vote_sdk.Server.Ceremony.{record_ack, confirm_if_complete, ack_executive_authority_key}

dealt-eq :
    (c : CeremonyStatus)
    → not (same_ceremony c CeremonyStatus.dealt) ≡ false
    → c ≡ CeremonyStatus.dealt
dealt-eq c h = ground arith

is_some-false : {A : Type 0} (o : Option A) → is_some o ≡ false → o ≡ none
is_some-false none h = refl
is_some-false (some a) h = cc

-- The new ack, behind the others.
find_ack-append :
    (i : ℕ) (acks : List AckEntry) (a : AckEntry)
    → is_some (find_ack_from i (acks ++ a ∷ []) a.validator_address) ≡ true
find_ack-append i [] a = rw (bytes_eq_refl a.validator_address) refl
find_ack-append i (x ∷ acks) a = ground (arith, find_ack-append (suc i) acks a)

confirm-acks :
    (ctx : Context) (round : VoteRound)
    → (confirm_if_complete ctx round).ceremony_acks ≡ round.ceremony_acks
unfolding confirm_if_complete append_ceremony_log
confirm-acks ctx round =
    elim (Bool-cases (length round.ceremony_acks == length round.ceremony_validators)) [
      | inl e ↦ rw e refl
      | inr e ↦ rw e refl
    ]

confirm-status :
    (ctx : Context) (round : VoteRound)
    → round.status ≡ SessionStatus.pending
    → ((confirm_if_complete ctx round).status ≡ SessionStatus.active)
      ↔ (length round.ceremony_acks ≡ length round.ceremony_validators)
unfolding confirm_if_complete append_ceremony_log
confirm-status ctx round p =
    elim (Bool-cases (length round.ceremony_acks == length round.ceremony_validators)) [
      | inl e ↦ rw e (
        λ _. (==_iff (length round.ceremony_acks) (length round.ceremony_validators)).0 e,
        λ _. refl,
      )
      | inr e ↦ rw e (λ h. absurd (cc (p, h)), λ h. absurd (ground (arith, e, h)))
    ]

record_ack-facts :
    (ctx : Context) (msg : MsgAckExecutiveAuthorityKey) (round : VoteRound)
    → ((record_ack ctx msg round).status ≡ round.status)
      × (length (record_ack ctx msg round).ceremony_acks ≡ suc (length round.ceremony_acks))
      × ((record_ack ctx msg round).ceremony_validators ≡ round.ceremony_validators)
      × (is_some (find_ack_in_round_ceremony (record_ack ctx msg round) msg.creator) ≡ true)
unfolding record_ack append_ceremony_log find_ack_in_round_ceremony
record_ack-facts ctx msg round =
    let a : AckEntry = record {
      validator_address = msg.creator;
      ack_signature = msg.ack_signature;
      ack_height = ctx.block_height;
    } in
    (
      refl,
      omega (arith, length-append round.ceremony_acks (a ∷ [])),
      refl,
      find_ack-append 0 round.ceremony_acks a,
    )

confirm-id :
    (ctx : Context) (round : VoteRound)
    → (confirm_if_complete ctx round).vote_round_id ≡ round.vote_round_id
unfolding confirm_if_complete append_ceremony_log
confirm-id ctx round =
    elim (Bool-cases (length round.ceremony_acks == length round.ceremony_validators)) [
      | inl e ↦ rw e refl
      | inr e ↦ rw e refl
    ]

record-id :
    (ctx : Context) (msg : MsgAckExecutiveAuthorityKey) (round : VoteRound)
    → (record_ack ctx msg round).vote_round_id ≡ round.vote_round_id
unfolding record_ack append_ceremony_log
record-id ctx msg round = refl

-- The round that an ack stores: one ack more, the creator's among them, and active exactly if every
-- validator has acked.
abbrev pub Acked : MsgAckExecutiveAuthorityKey → VoteRound → VoteRound → Type 0
Acked msg round round' =
    (length round'.ceremony_acks ≡ suc (length round.ceremony_acks))
    × (is_some (find_ack_in_round_ceremony round' msg.creator) ≡ true)
    × ((round'.status ≡ SessionStatus.active)
        ↔ (suc (length round.ceremony_acks) ≡ length round.ceremony_validators))

stored-Acked :
    (ctx : Context) (msg : MsgAckExecutiveAuthorityKey) (round : VoteRound)
    → round.status ≡ SessionStatus.pending
    → Acked msg round (confirm_if_complete ctx (record_ack ctx msg round))
unfolding find_ack_in_round_ceremony
stored-Acked ctx msg round p =
    let r = record_ack ctx msg round in
    let (st, n, vs, found) = record_ack-facts ctx msg round in
    let same = confirm-acks ctx r in
    let both = confirm-status ctx r (st ∙ p) in
    (
      ap length same ∙ n,
      rw same found,
      (λ h. sym n ∙ both.0 h ∙ ap length vs, λ h. both.1 (n ∙ h ∙ sym (ap length vs))),
    )

module _ {S : Type 0} ⦃kv : KvStore S⦄ where
  pure-eq : {A : Type 0} (a b : A) (s t : S) → pure a s ≡ (ok b, t) → a ≡ b
  unfolding pure
  pure-eq a b s t h = cc h

  pending_dealt :
      (id : Bytes) (round : VoteRound) (s t : S)
      → get_pending_round_with_ceremony id CeremonyStatus.dealt s ≡ (ok round, t)
      → (get_vote_round id s ≡ (ok round, s))
        × (round.status ≡ SessionStatus.pending)
        × (round.ceremony_status ≡ CeremonyStatus.dealt)
  unfolding get_pending_round_with_ceremony
  pending_dealt id round s t h =
      let (r, e1, k1) = read_step (get_vote_round id) _ s t (round-keeps id) h in
      let (_, e2, k2) =
        read_step (raise_if (not (is_pending r.status)) Error.ceremony_wrong_status) _ s t
          (search preserves_rules) k1 in
      let (_, e3, k3) =
        read_step
          (raise_if (not (same_ceremony r.ceremony_status CeremonyStatus.dealt))
            Error.ceremony_wrong_status)
          _ s t (search preserves_rules) k2 in
      let q : r ≡ round = pure-eq r round s t k3 in
      let a =
        pending-eq r.status
          (raise_if-false (not (is_pending r.status)) Error.ceremony_wrong_status s s e2).0 in
      let b =
        dealt-eq r.ceremony_status
          (raise_if-false (not (same_ceremony r.ceremony_status CeremonyStatus.dealt))
            Error.ceremony_wrong_status s s e3).0 in
      (
        subst (λ x. get_vote_round id s ≡ (ok x, s)) q e1,
        subst (λ x. x.status ≡ SessionStatus.pending) q a,
        subst (λ x. x.ceremony_status ≡ CeremonyStatus.dealt) q b,
      )

  -- An ack that is accepted was for a stored round, pending and dealt, by one of its validators that
  -- had not acked; the store then holds the round with one ack more, the creator's among them, and
  -- active exactly if every validator has acked.
  pub ack-records :
      (op : Bytes → Option Bytes) (digest : Bytes → Bytes → Bytes) (ctx : Context)
      (msg : MsgAckExecutiveAuthorityKey) (s : S)
      → (ack_executive_authority_key op digest ctx msg s).0 ≡ ok tt
      → (round : VoteRound) × (round' : VoteRound) × (get_vote_round msg.vote_round_id s
          ≡ (ok round, s))
        × (round.status ≡ SessionStatus.pending)
        × (round.ceremony_status ≡ CeremonyStatus.dealt)
        × (is_some (find_validator_in_round_ceremony round msg.creator) ≡ true)
        × (find_ack_in_round_ceremony round msg.creator ≡ none)
        × (get_vote_round round.vote_round_id (ack_executive_authority_key op digest ctx msg s).1
            ≡ (ok round', (ack_executive_authority_key op digest ctx msg s).1))
        × Acked msg round round'
  unfolding ack_executive_authority_key
  ack-records op digest ctx msg s h =
      let t = (ack_executive_authority_key op digest ctx msg s).1 in
      let (_, _, k1) =
        read_step (validate_proposer_is_creator op ctx msg.creator) _ s t
          (proposer-keeps op ctx msg.creator)
          (pair_eq (ack_executive_authority_key op digest ctx msg s) tt h) in
      let (round, e2, k2) =
        read_step (get_pending_round_with_ceremony msg.vote_round_id CeremonyStatus.dealt) _ s t
          (pending-keeps msg.vote_round_id CeremonyStatus.dealt) k1 in
      let (_, e3, k3) =
        read_step
          (raise_if (not (is_some (find_validator_in_round_ceremony round msg.creator)))
            Error.not_registered_validator)
          _ s t (search preserves_rules) k2 in
      let (_, e4, k4) =
        read_step
          (raise_if (is_some (find_ack_in_round_ceremony round msg.creator)) Error.duplicate_ack) _
          s t (search preserves_rules) k3 in
      let (_, _, k5) =
        read_step
          (raise_if (not (bytes_eq msg.ack_signature (digest round.ea_pk msg.creator)))
            Error.invalid_field)
          _ s t (search preserves_rules) k4 in
      let (g, p, d) = pending_dealt msg.vote_round_id round s s e2 in
      let stored = confirm_if_complete ctx (record_ack ctx msg round) in
      let id : stored.vote_round_id ≡ round.vote_round_id =
        confirm-id ctx (record_ack ctx msg round) ∙ record-id ctx msg round in
      (
        round,
        stored,
        g,
        p,
        d,
        not-false _
            (raise_if-false (not (is_some (find_validator_in_round_ceremony round msg.creator)))
              Error.not_registered_validator s s e3).0,
        is_some-false (find_ack_in_round_ceremony round msg.creator)
            (raise_if-false (is_some (find_ack_in_round_ceremony round msg.creator))
              Error.duplicate_ack s s e4).0,
        subst (λ x. get_vote_round x t ≡ (ok stored, t)) id (get-set_vote_round stored s t k5),
        stored-Acked ctx msg round p,
      )
