-- ===== src/EndBlock/Stored.antt =====
-- The rounds of a block as they stand in the store, through its phases (x/vote/module.go).
use vote_sdk.Base.{
  ℕ, ◌≡◌, ◌≢◌, sym, ap, ◌∙◌, subst, Bool, true, false, List, Bytes, ok, Action, pure, ◌>>=◌, ◌>>◌,
  >>=-eq-ok, if◌then◌else◌, map, Preserves, arith,
}
use vote_sdk.Types.{VoteRound}
use vote_sdk.Kv.{KvStore}
use vote_sdk.Keeper.Rounds.{get_vote_round, set_vote_round}
use vote_sdk.Keeper.Rounds.Stored.{get-set_vote_round, read_after}
use vote_sdk.Keeper.Ceremony.{append_ceremony_log, strip_non_ackers_from_round}
use vote_sdk.EndBlock.Transitions.{pure-eq}
use vote_sdk.EndBlock.{Slashing, fail_registering, end_dealing, when_due}

abbrev pub ids_of : List VoteRound → List Bytes
ids_of rs = map (λ r. r.vote_round_id) rs

-- The phases keep a round's id.
pub fail_registering-id :
    (height n : ℕ) (r : VoteRound) → (fail_registering height n r).vote_round_id ≡ r.vote_round_id
unfolding fail_registering append_ceremony_log
fail_registering-id height n r = ground arith

pub end_dealing-id :
    (height : ℕ) (r : VoteRound) → (end_dealing height r).vote_round_id ≡ r.vote_round_id
unfolding end_dealing append_ceremony_log strip_non_ackers_from_round
end_dealing-id height r = ground arith

module _ {S : Type 0} ⦃kv : KvStore S⦄ where
  -- The store's round under an id.
  abbrev pub Reads : Bytes → VoteRound → S → Type 0
  Reads id x u = get_vote_round id u ≡ (ok x, u)

  -- A call that leaves the stored rounds as they are.
  abbrev pub Quiet : {A : Type 0} → Action S A → Type 0
  Quiet m = (id : Bytes) (x : VoteRound) → Preserves (Reads id x) m

  -- What the phases rely on of the staking and slashing modules, and of the tree's root: they write
  -- to stores of their own.
  pub record Apart (slashing : Slashing S) (root : Bytes → ℕ → ℕ → Action S Bytes) : Type 0 where
    pub duration : Quiet slashing.downtime_jail_duration
    pub jailed : (addr : Bytes) → Quiet (slashing.is_jailed addr)
    pub jail : (addr : Bytes) (n : ℕ) → Quiet (slashing.jail addr n)
    pub roots : (id : Bytes) (n height : ℕ) → Quiet (root id n height)

  -- A call that may replace the stored round `r` by the one that it returns, and no other.
  pub record Replaces (r : VoteRound) (m : Action S VoteRound) : Type 0 where
    pub same_id : (s u : S) (r' : VoteRound) → m s ≡ (ok r', u) → r'.vote_round_id ≡ r.vote_round_id
    pub stores :
        (s u : S) (r' : VoteRound)
        → m s ≡ (ok r', u)
        → Reads r.vote_round_id r s
        → Reads r.vote_round_id r' u
    pub frame :
        (s u : S) (r' : VoteRound)
        → m s ≡ (ok r', u)
        → (id : Bytes) (x : VoteRound) → id ≢ r.vote_round_id
        → Reads id x s
        → Reads id x u

  pub pure-state : {A : Type 0} (a b : A) (s t : S) → pure a s ≡ (ok b, t) → s ≡ t
  unfolding pure
  pure-state a b s t h = ap (λ x. x.1) h

  pub Replaces-pure : (r : VoteRound) → Replaces r (pure r)
  Replaces-pure r = record {
    same_id = λ s u r' e. ap (λ (x : VoteRound). x.vote_round_id) (sym (pure-eq r r' s u e));
    stores = λ s u r' e h.
        subst (λ x. Reads r.vote_round_id x u) (pure-eq r r' s u e)
          (subst (Reads r.vote_round_id r) (pure-state r r' s u e) h);
    frame = λ s u r' e id x ne h. subst (Reads id x) (pure-state r r' s u e) h;
  }

  pub Replaces-bind :
      {A : Type 0} (r : VoteRound) (m : Action S A) (f : A → Action S VoteRound)
      → Quiet m
      → ((a : A) → Replaces r (f a))
      → Replaces r (m >>= f)
  Replaces-bind r m f q h = record {
    same_id = λ s u r' e. let (a, v, e1, k) = >>=-eq-ok m f s u e in (h a).same_id v u r' k;
    stores = λ s u r' e p.
        let (a, v, e1, k) = >>=-eq-ok m f s u e in
        (h a).stores v u r' k
          (subst (Reads r.vote_round_id r) (ap (λ y. y.1) e1) ((q r.vote_round_id r).after s p));
    frame = λ s u r' e id x ne p.
        let (a, v, e1, k) = >>=-eq-ok m f s u e in
        (h a).frame v u r' k id x ne (subst (Reads id x) (ap (λ y. y.1) e1) ((q id x).after s p));
  }

  -- The write of a changed round, which has the same id.
  Replaces-set :
      (r changed : VoteRound)
      → changed.vote_round_id ≡ r.vote_round_id
      → Replaces r (set_vote_round changed >> pure changed)
  Replaces-set r changed i = record {
    same_id = λ s u r' e.
        let (_, v, e1, k) = >>=-eq-ok (set_vote_round changed) _ s u e in
        ap (λ (x : VoteRound). x.vote_round_id) (sym (pure-eq changed r' v u k)) ∙ i;
    stores = λ s u r' e p.
        let (_, v, e1, k) = >>=-eq-ok (set_vote_round changed) _ s u e in
        subst (λ x. Reads r.vote_round_id x u) (pure-eq changed r' v u k)
          (subst (Reads r.vote_round_id changed) (pure-state changed r' v u k)
            (subst (λ id. Reads id changed v) i (get-set_vote_round changed s v e1)));
    frame = λ s u r' e id x ne p.
        let (_, v, e1, k) = >>=-eq-ok (set_vote_round changed) _ s u e in
        subst (Reads id x) (pure-state changed r' v u k)
          (read_after changed id s v x (λ q. ne (q ∙ i)) e1 p);
  }

  pub Replaces-when_due :
      (due : Bool) (r changed : VoteRound)
      → changed.vote_round_id ≡ r.vote_round_id
      → Replaces r (when_due due r changed)
  unfolding when_due
  Replaces-when_due false r changed i = Replaces-pure r
  Replaces-when_due true r changed i = Replaces-set r changed i

  pub Replaces-if :
      (r : VoteRound) (b : Bool) (m n : Action S VoteRound)
      → Replaces r m
      → Replaces r n
      → Replaces r (if b then m else n)
  Replaces-if r true m n hm hn = hm
  Replaces-if r false m n hm hn = hn
