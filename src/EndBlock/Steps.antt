-- ===== src/EndBlock/Steps.antt =====
-- The phases of a block on one round, one after the other (x/vote/module.go).
use vote_sdk.Base.{
  ℕ, ◌+◌, ◌^◌, ◌<◌, ◌≡◌, refl, ◌⊎◌, inl, inr, true, false, Result, ok, err, Bool-cases, arith,
  if◌then◌else◌, length, leb,
}
use vote_sdk.Types.{
  VoteRound, SessionStatus, is_active, is_pending, is_tallying, default_tally_timeout,
}
use vote_sdk.Keeper.Ceremony.{append_ceremony_log, required_ceremony_quorum_for_n}
use vote_sdk.EndBlock.{
  voting_ended, start_tallying, registering_timed_out, fail_registering, dealt_timed_out,
  end_dealing, tally_timed_out, finalize_timed_out, decide_dealt,
}

-- The steps of a round's status that time allows.
pub data Moves : SessionStatus → SessionStatus → Type 0 where
  stays : {s : SessionStatus} → Moves s s
  closes : Moves SessionStatus.active SessionStatus.tallying
  opens : Moves SessionStatus.pending SessionStatus.active
  fails : Moves SessionStatus.pending SessionStatus.ceremony_failed
  times_out : Moves SessionStatus.tallying SessionStatus.finalized

abbrev pub step_voting : ℕ → VoteRound → VoteRound
step_voting now r = if voting_ended now r then start_tallying now r else r

abbrev pub step_registering : ℕ → ℕ → ℕ → VoteRound → VoteRound
step_registering now h jailed r =
    if registering_timed_out now r then fail_registering h jailed r else r

abbrev pub step_dealt : ℕ → ℕ → VoteRound → VoteRound
step_dealt now h r = if dealt_timed_out now r then end_dealing h r else r

abbrev pub step_tally : ℕ → VoteRound → VoteRound
step_tally now r = if tally_timed_out now r then finalize_timed_out r else r

is_active-eq : (s : SessionStatus) → is_active s ≡ true → s ≡ SessionStatus.active
is_active-eq s h = ground arith

is_pending-eq : (s : SessionStatus) → is_pending s ≡ true → s ≡ SessionStatus.pending
is_pending-eq s h = ground arith

is_tallying-eq : (s : SessionStatus) → is_tallying s ≡ true → s ≡ SessionStatus.tallying
is_tallying-eq s h = ground arith

voting_ended-active :
    (now : ℕ) (r : VoteRound) → voting_ended now r ≡ true → is_active r.status ≡ true
unfolding voting_ended
voting_ended-active now r h = ground arith

-- An active round whose voting has not ended is before its end.
still_voting :
    (now : ℕ) (r : VoteRound)
    → voting_ended now r ≡ false
    → is_active r.status ≡ true
    → now < r.vote_end_time
unfolding voting_ended
still_voting now r h k = ground arith

registering-pending :
    (now : ℕ) (r : VoteRound) → registering_timed_out now r ≡ true → is_pending r.status ≡ true
unfolding registering_timed_out
registering-pending now r h = ground arith

dealt-pending :
    (now : ℕ) (r : VoteRound) → dealt_timed_out now r ≡ true → is_pending r.status ≡ true
unfolding dealt_timed_out
dealt-pending now r h = ground arith

tally-tallying :
    (now : ℕ) (r : VoteRound) → tally_timed_out now r ≡ true → is_tallying r.status ≡ true
unfolding tally_timed_out
tally-tallying now r h = ground arith

-- A round that turned to tallying in this block has not timed out.
tallying-fresh :
    (now : ℕ) (r : VoteRound)
    → now + default_tally_timeout < 2 ^ 64
    → tally_timed_out now (start_tallying now r) ≡ false
unfolding tally_timed_out start_tallying
tallying-fresh now r h = ground arith

-- The statuses after each change.
fail-status :
    (h jailed : ℕ) (r : VoteRound)
    → (fail_registering h jailed r).status ≡ SessionStatus.ceremony_failed
unfolding fail_registering
fail-status h jailed r = refl

decide-status :
    (h : ℕ) (q : Result ℕ) (r : VoteRound)
    → ((decide_dealt h q r).status ≡ SessionStatus.active)
      ⊎ ((decide_dealt h q r).status ≡ SessionStatus.ceremony_failed)
unfolding append_ceremony_log
decide-status h (err e) r = inr refl
decide-status h (ok required) r = elim (Bool-cases (leb required (length r.ceremony_acks))) [
  | inl e ↦ inl (rw e refl)
  | inr e ↦ inr (rw e refl)
]

end_dealing-status :
    (h : ℕ) (r : VoteRound)
    → ((end_dealing h r).status ≡ SessionStatus.active)
      ⊎ ((end_dealing h r).status ≡ SessionStatus.ceremony_failed)
unfolding end_dealing
end_dealing-status h r =
    decide-status h (required_ceremony_quorum_for_n (length r.ceremony_validators)) r

-- Each phase leaves a round alone that is not in its status.
quiet_registering :
    (now h j : ℕ) (r : VoteRound) → is_pending r.status ≡ false → step_registering now h j r ≡ r
quiet_registering now h j r p = ground (arith, registering-pending now r)

quiet_dealt : (now h : ℕ) (r : VoteRound) → is_pending r.status ≡ false → step_dealt now h r ≡ r
quiet_dealt now h r p = ground (arith, dealt-pending now r)

quiet_tally : (now : ℕ) (r : VoteRound) → is_tallying r.status ≡ false → step_tally now r ≡ r
quiet_tally now r p = ground (arith, tally-tallying now r)

-- What a block's time makes of a round: a step, and active only where it was not yet over or has
-- just opened.
abbrev pub Advances : ℕ → VoteRound → VoteRound → Type 0
Advances now r r' =
    Moves r.status r'.status
    × (r'.status ≡ SessionStatus.active
        → (r.status ≡ SessionStatus.pending) ⊎ (now < r.vote_end_time))

tally_not_pending : (now : ℕ) (r : VoteRound) → is_pending (start_tallying now r).status ≡ false
unfolding start_tallying
tally_not_pending now r = refl

tallying_advances :
    (now : ℕ) (r : VoteRound) → is_active r.status ≡ true → Advances now r (start_tallying now r)
unfolding start_tallying
tallying_advances now r h = (rw (is_active-eq r.status h) Moves.closes, λ k. cc k)

-- A round in none of the statuses that a phase changes.
stays_put : (now : ℕ) (r : VoteRound) → voting_ended now r ≡ false → Advances now r r
stays_put now r e = (Moves.stays, λ k. inr (still_voting now r e (rw k refl)))

-- From a pending round to one that is active or has failed.
opened :
    (now : ℕ) (r r' : VoteRound)
    → is_pending r.status ≡ true
    → r'.status ≡ SessionStatus.active
    → Advances now r r'
opened now r r' p k =
    (rw (is_pending-eq r.status p, k) Moves.opens, λ _. inl (is_pending-eq r.status p))

failed :
    (now : ℕ) (r r' : VoteRound)
    → is_pending r.status ≡ true
    → r'.status ≡ SessionStatus.ceremony_failed
    → Advances now r r'
failed now r r' p k =
    (rw (is_pending-eq r.status p, k) Moves.fails, λ _. inl (is_pending-eq r.status p))

finalized :
    (now : ℕ) (r : VoteRound) → is_tallying r.status ≡ true → Advances now r (finalize_timed_out r)
unfolding finalize_timed_out
finalized now r p = (rw (is_tallying-eq r.status p) Moves.times_out, λ k. cc k)

-- The last phase, on a round that was not changed before it.
tally_step :
    (now : ℕ) (r : VoteRound) → voting_ended now r ≡ false → Advances now r (step_tally now r)
tally_step now r e = elim (Bool-cases (tally_timed_out now r)) [
  | inl k ↦ rw k (finalized now r (tally-tallying now r k))
  | inr k ↦ rw k (stays_put now r e)
]

dealt_step :
    (now h : ℕ) (r : VoteRound)
    → voting_ended now r ≡ false
    → Advances now r (step_tally now (step_dealt now h r))
dealt_step now h r e = elim (Bool-cases (dealt_timed_out now r)) [
  | inl k ↦ ended k (end_dealing-status h r)
  | inr k ↦ rw k (tally_step now r e)
]
  where
    ended :
        dealt_timed_out now r ≡ true
        → ((end_dealing h r).status ≡ SessionStatus.active)
          ⊎ ((end_dealing h r).status ≡ SessionStatus.ceremony_failed)
        → Advances now r (step_tally now (step_dealt now h r))
    ended k (inl a) =
        rw (k, quiet_tally now (end_dealing h r) (rw a refl))
          (opened now r (end_dealing h r) (dealt-pending now r k) a)
    ended k (inr a) =
        rw (k, quiet_tally now (end_dealing h r) (rw a refl))
          (failed now r (end_dealing h r) (dealt-pending now r k) a)

pending_steps :
    (now h jailed : ℕ) (r : VoteRound)
    → voting_ended now r ≡ false
    → Advances now r (step_tally now (step_dealt now h (step_registering now h jailed r)))
pending_steps now h jailed r e = elim (Bool-cases (registering_timed_out now r)) [
  | inl k ↦
      let x = fail_registering h jailed r in
      let s = fail-status h jailed r in
      rw (k, quiet_dealt now h x (rw s refl), quiet_tally now x (rw s refl))
        (failed now r x (registering-pending now r k) s)
  | inr k ↦ rw k (dealt_step now h r e)
]

-- One round through the phases that read the time.
pub step-Advances :
    (now h jailed : ℕ) (r : VoteRound)
    → now + default_tally_timeout < 2 ^ 64
    → Advances now r
        (step_tally now (step_dealt now h (step_registering now h jailed (step_voting now r))))
step-Advances now h jailed r room = elim (Bool-cases (voting_ended now r)) [
  | inl e ↦
      let x = start_tallying now r in
      let q : step_tally now (step_dealt now h (step_registering now h jailed (step_voting now r)))
          ≡ x =
        rw
          (
            e,
            quiet_registering now h jailed x (tally_not_pending now r),
            quiet_dealt now h x (tally_not_pending now r),
            tallying-fresh now r room,
          )
          refl in
      rw q (tallying_advances now r (voting_ended-active now r e))
  | inr e ↦ rw e (pending_steps now h jailed r e)
]
