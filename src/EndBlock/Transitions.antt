-- ===== src/EndBlock/Transitions.antt =====
-- The phases of a block over the list of rounds (x/vote/module.go).
use vote_sdk.Base.{
  ℕ, ◌+◌, ◌^◌, ◌<◌, ◌≡◌, refl, sym, inl, inr, Bool, true, false, List, [], ◌∷◌, Bytes, ok, Action,
  pure, ◌>>=◌, >>=-eq-ok, Bool-cases, if◌then◌else◌, to_uint64, length,
}
use mathlib.Core.Path.{subst}
use vote_sdk.Types.{VoteRound, Context, default_tally_timeout}
use vote_sdk.Kv.{KvStore}
use vote_sdk.Keeper.Rounds.{set_vote_round}
use vote_sdk.Keeper.Ceremony.{missing_ceremony_contributors}
use vote_sdk.EndBlock.Steps.{
  Advances, step_voting, step_registering, step_dealt, step_tally, step-Advances,
}
use vote_sdk.EndBlock.{
  Slashing, voting_ended, start_tallying, registering_timed_out, fail_registering, dealt_timed_out,
  end_dealing, tally_timed_out, finalize_timed_out, each_round, when_due, jail_ceremony_validators,
  root_phase, voting_phase, registering_phase, dealt_phase, tally_phase, advance_rounds,
}

-- Two lists of the same length, related place by place.
abbrev pub Pointwise : (VoteRound → VoteRound → Type 0) → List VoteRound → List VoteRound → Type 0
Pointwise R [] [] = Unit
Pointwise R [] (y ∷ ys) = ⊥
Pointwise R (x ∷ xs) [] = ⊥
Pointwise R (x ∷ xs) (y ∷ ys) = R x y × Pointwise R xs ys

Pointwise-compose :
    {R Q T : VoteRound → VoteRound → Type 0} (f : (x y z : VoteRound) → R x y → Q y z → T x z)
    (xs ys zs : List VoteRound)
    → Pointwise R xs ys
    → Pointwise Q ys zs
    → Pointwise T xs zs
Pointwise-compose f [] [] [] h k = tt
Pointwise-compose f [] [] (z ∷ zs) h k = absurd k
Pointwise-compose f [] (y ∷ ys) zs h k = absurd h
Pointwise-compose f (x ∷ xs) [] zs h k = absurd h
Pointwise-compose f (x ∷ xs) (y ∷ ys) [] h k = absurd k
Pointwise-compose f (x ∷ xs) (y ∷ ys) (z ∷ zs) h k =
    (f x y z h.0 k.0, Pointwise-compose f xs ys zs h.1 k.1)

-- What the third phase makes of a round, for some number of newly jailed validators.
abbrev Registered : ℕ → Context → VoteRound → VoteRound → Type 0
Registered now ctx r r' =
    (jailed : ℕ) × (r'
      ≡ (if registering_timed_out now r then fail_registering ctx.block_height jailed r else r))

module _ {S : Type 0} where
  -- What a call returns, when it returns, has a property.
  record Yields {A : Type 0} (Q : A → Type 0) (m : Action S A) : Type 0 where
    pub result : (s t : S) (a : A) → m s ≡ (ok a, t) → Q a

  Yields-pure : {A : Type 0} {Q : A → Type 0} (a : A) → Q a → Yields Q (pure a)
  unfolding pure
  Yields-pure {A} {Q} a h = record { result = λ s t b e. let q : a ≡ b = cc e in subst Q q h }

  Yields-bind :
      {A B : Type 0} {Q : B → Type 0} (m : Action S A) (f : A → Action S B)
      → ((a : A) → Yields Q (f a))
      → Yields Q (m >>= f)
  Yields-bind m f h = record {
    result = λ s t b e. let (a, u, e1, k) = >>=-eq-ok m f s t e in (h a).result u t b k;
  }

  Yields-if :
      {A : Type 0} {Q : A → Type 0} (b : Bool) (m n : Action S A)
      → Yields Q m
      → Yields Q n
      → Yields Q (if b then m else n)
  Yields-if true m n hm hn = hm
  Yields-if false m n hm hn = hn

  ruleset yields_rules = (Yields-pure, Yields-bind, Yields-if)

  pub pure-eq : {A : Type 0} (a b : A) (s t : S) → pure a s ≡ (ok b, t) → a ≡ b
  unfolding pure
  pure-eq a b s t h = cc h

module _ {S : Type 0} ⦃kv : KvStore S⦄ where
  each_round-Pointwise :
      (R : VoteRound → VoteRound → Type 0) (body : VoteRound → Action S VoteRound)
      → ((r r' : VoteRound) (s t : S) → body r s ≡ (ok r', t) → R r r')
      → (rs out : List VoteRound) (s t : S) → each_round body rs s ≡ (ok out, t)
      → Pointwise R rs out
  unfolding each_round
  each_round-Pointwise R body f [] out s t h = rw (← pure-eq [] out s t h) tt
  each_round-Pointwise R body f (r ∷ rs) out s t h =
      let (r', u, e1, k1) = >>=-eq-ok (body r) _ s t h in
      let (rs', v, e2, k2) = >>=-eq-ok (each_round body rs) _ u t k1 in
      rw (← pure-eq (r' ∷ rs') out v t k2)
        (f r r' s u e1, each_round-Pointwise R body f rs rs' u v e2)

  when_due-eq :
      (due : Bool) (round changed out : VoteRound) (s t : S)
      → when_due due round changed s ≡ (ok out, t)
      → out ≡ (if due then changed else round)
  unfolding when_due
  when_due-eq false round changed out s t h = sym (pure-eq round out s t h)
  when_due-eq true round changed out s t h =
      let (_, u, e, k) = >>=-eq-ok (set_vote_round changed) _ s t h in
      sym (pure-eq changed out u t k)

  root_phase-eq :
      (root : Bytes → ℕ → ℕ → Action S Bytes) (ctx : Context) (r : VoteRound)
      → Yields (λ r'. r' ≡ r) (root_phase root ctx r)
  unfolding root_phase
  root_phase-eq root ctx r = search yields_rules depth 20

  registering_phase-eq :
      (slashing : Slashing S) (now : ℕ) (ctx : Context) (r : VoteRound)
      → Yields (Registered now ctx r) (registering_phase slashing now ctx r)
  unfolding registering_phase when_due
  registering_phase-eq slashing now ctx r = elim (Bool-cases (registering_timed_out now r)) [
    | inl e ↦ rw e (
        Yields-bind (jail_ceremony_validators slashing (missing_ceremony_contributors r)) _
          (λ jailed.
            Yields-bind (set_vote_round (fail_registering ctx.block_height (length jailed) r)) _
              (λ _. Yields-pure _ (length jailed, rw e refl))))
    | inr e ↦ rw e (Yields-pure r (0, rw e refl))
  ]

  pub advance_rounds-Pointwise :
      (slashing : Slashing S) (root : Bytes → ℕ → ℕ → Action S Bytes) (ctx : Context)
      (rounds out : List VoteRound) (s t : S)
      → to_uint64 ctx.block_time + default_tally_timeout < 2 ^ 64
      → advance_rounds slashing root ctx rounds s ≡ (ok out, t)
      → Pointwise (Advances (to_uint64 ctx.block_time)) rounds out
  unfolding advance_rounds voting_phase dealt_phase tally_phase
  advance_rounds-Pointwise slashing root ctx rounds out s t room h =
      let now = to_uint64 ctx.block_time in
      let height = ctx.block_height in
      let (r1, s1, e1, k1) = >>=-eq-ok (each_round (root_phase root ctx) rounds) _ s t h in
      let (r2, s2, e2, k2) = >>=-eq-ok (each_round (voting_phase now) r1) _ s1 t k1 in
      let (r3, s3, e3, k3) =
        >>=-eq-ok (each_round (registering_phase slashing now ctx) r2) _ s2 t k2 in
      let (r4, s4, e4, k4) = >>=-eq-ok (each_round (dealt_phase now ctx) r3) _ s3 t k3 in
      let p1 =
        each_round-Pointwise (λ r r'. r' ≡ r) (root_phase root ctx)
          (λ r r' u v e. (root_phase-eq root ctx r).result u v r' e) rounds r1 s s1 e1 in
      let p2 =
        each_round-Pointwise (λ r r'. r' ≡ step_voting now r) (voting_phase now)
          (λ r r' u v e. when_due-eq (voting_ended now r) r (start_tallying now r) r' u v e) r1 r2
          s1 s2 e2 in
      let p3 =
        each_round-Pointwise (Registered now ctx) (registering_phase slashing now ctx)
          (λ r r' u v e. (registering_phase-eq slashing now ctx r).result u v r' e) r2 r3 s2 s3
          e3 in
      let p4 =
        each_round-Pointwise (λ r r'. r' ≡ step_dealt now height r) (dealt_phase now ctx)
          (λ r r' u v e. when_due-eq (dealt_timed_out now r) r (end_dealing height r) r' u v e) r3
          r4 s3 s4 e4 in
      let p5 =
        each_round-Pointwise (λ r r'. r' ≡ step_tally now r) (tally_phase now)
          (λ r r' u v e. when_due-eq (tally_timed_out now r) r (finalize_timed_out r) r' u v e) r4
          out s4 t k4 in
      let p12 =
        Pointwise-compose {T = λ r r'. r' ≡ step_voting now r} (λ x y z a b. rw a at b) rounds r1 r2
          p1 p2 in
      let p13 =
        Pointwise-compose
          {T = λ r r'. (j : ℕ) × (r' ≡ step_registering now height j (step_voting now r))}
          (λ x y z a b. (b.0, rw a at b.1)) rounds r2 r3 p12 p3 in
      let p14 =
        Pointwise-compose
          {T = λ r r'.
            (j : ℕ) × (r'
              ≡ step_dealt now height (step_registering now height j (step_voting now r)))}
          (λ x y z a b. (a.0, rw a.1 at b)) rounds r3 r4 p13 p4 in
      Pointwise-compose
        (λ x y z a b.
          subst (Advances now x) (sym (rw a.1 at b)) (step-Advances now height a.0 x room))
        rounds r4 out p14 p5
