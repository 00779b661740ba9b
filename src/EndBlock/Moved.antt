-- ===== src/EndBlock/Moved.antt =====
-- The stored rounds after the phases of a block (x/vote/module.go).
use vote_sdk.Base.{
  ℕ, ◌+◌, ◌^◌, ◌<◌, ◌≡◌, ◌≢◌, sym, ap, ◌∙◌, subst, inl, inr, List, [], ◌∷◌, Bytes, ok, Action,
  >>=-eq-ok, to_uint64, In, Distinct, All,
}
use vote_sdk.Types.{VoteRound, Context, default_tally_timeout}
use vote_sdk.Kv.{KvStore}
use vote_sdk.EndBlock.Steps.{Advances}
use vote_sdk.EndBlock.Transitions.{Pointwise, advance_rounds-Pointwise, pure-eq}
use vote_sdk.EndBlock.Stored.{ids_of, Reads, Apart, Replaces, pure-state}
use vote_sdk.EndBlock.Phases.{
  root_phase-Replaces, voting_phase-Replaces, registering_phase-Replaces, dealt_phase-Replaces,
  tally_phase-Replaces,
}
use vote_sdk.EndBlock.{
  Slashing, each_round, root_phase, voting_phase, registering_phase, dealt_phase, tally_phase,
  advance_rounds,
}

module _ {S : Type 0} ⦃kv : KvStore S⦄ where
  -- Each round of the list is the store's round under its id.
  abbrev pub Stored : List VoteRound → S → Type 0
  Stored rs s = All (λ r. Reads {S = S} r.vote_round_id r s) rs

  Stored-keeps :
      (id : Bytes) (rs : List VoteRound) (s u : S)
      → ((other : Bytes) (x : VoteRound) → other ≢ id → Reads other x s → Reads other x u)
      → (In id (ids_of rs) → ⊥)
      → Stored rs s
      → Stored rs u
  Stored-keeps id [] s u f n h = tt
  Stored-keeps id (r ∷ rs) s u f n h = (
    f r.vote_round_id r (λ e. n (inl (sym e))) h.0,
    Stored-keeps id rs s u f (λ m. n (inr m)) h.1,
  )

  -- What a loop over stored rounds leaves.
  record Left (rs out : List VoteRound) (s t : S) : Type 0 where
    pub same_ids : ids_of out ≡ ids_of rs
    pub frame : (id : Bytes) (x : VoteRound) → (In id (ids_of rs) → ⊥) → Reads id x s → Reads id x t
    pub stored : Distinct (ids_of rs) → Stored rs s → Stored out t

  each_round-Left :
      (body : VoteRound → Action S VoteRound)
      → ((r : VoteRound) → Replaces r (body r))
      → (rs out : List VoteRound) (s t : S) → each_round body rs s ≡ (ok out, t)
      → Left rs out s t
  unfolding each_round
  each_round-Left body f [] out s t h =
      let same : s ≡ t = pure-state [] out s t h in
      let none_left : [] ≡ out = pure-eq [] out s t h in
      record {
        same_ids = ap ids_of (sym none_left);
        frame = λ id x n p. subst (Reads id x) same p;
        stored = λ d p. subst (λ rs. Stored rs t) none_left tt;
      }
  each_round-Left body f (r ∷ rs) out s t h =
      let (r', u, e1, k1) = >>=-eq-ok (body r) _ s t h in
      let (rs', v, e2, k2) = >>=-eq-ok (each_round body rs) _ u t k1 in
      let same : v ≡ t = pure-state (r' ∷ rs') out v t k2 in
      let result : r' ∷ rs' ≡ out = pure-eq (r' ∷ rs') out v t k2 in
      let left : Left rs rs' u v = each_round-Left body f rs rs' u v e2 in
      let same_id = (f r).same_id s u r' e1 in
      record {
        same_ids =
            ap ids_of (sym result)
            ∙ ap (λ id. id ∷ ids_of rs') same_id
            ∙ ap (λ ids. r.vote_round_id ∷ ids) left.same_ids;
        frame = λ id x n p.
            subst (Reads id x) same
              (left.frame id x (λ m. n (inr m)) ((f r).frame s u r' e1 id x (λ e. n (inl e)) p));
        stored = λ d p. subst (Stored out) same (
            subst (λ rs. Stored rs v) result
              (
                subst (λ id. Reads id r' v) (sym same_id)
                    (left.frame r.vote_round_id r' d.0 ((f r).stores s u r' e1 p.0)),
                left.stored d.1
                    (Stored-keeps r.vote_round_id rs s u ((f r).frame s u r' e1) d.0 p.1),
              ));
      }

  Left-then :
      (rs ms out : List VoteRound) (s u t : S) → Left rs ms s u → Left ms out u t → Left rs out s t
  Left-then rs ms out s u t a b = record {
    same_ids = b.same_ids ∙ a.same_ids;
    frame = λ id x n p. b.frame id x (λ m. n (subst (In id) a.same_ids m)) (a.frame id x n p);
    stored = λ d p. b.stored (subst Distinct (sym a.same_ids) d) (a.stored d p);
  }

  advance_rounds-Left :
      (slashing : Slashing S) (root : Bytes → ℕ → ℕ → Action S Bytes) (ctx : Context)
      (rounds out : List VoteRound) (s t : S)
      → Apart slashing root
      → advance_rounds slashing root ctx rounds s ≡ (ok out, t)
      → Left rounds out s t
  unfolding advance_rounds
  advance_rounds-Left slashing root ctx rounds out s t apart h =
      let now = to_uint64 ctx.block_time in
      let (r1, s1, e1, k1) = >>=-eq-ok (each_round (root_phase root ctx) rounds) _ s t h in
      let (r2, s2, e2, k2) = >>=-eq-ok (each_round (voting_phase now) r1) _ s1 t k1 in
      let (r3, s3, e3, k3) =
        >>=-eq-ok (each_round (registering_phase slashing now ctx) r2) _ s2 t k2 in
      let (r4, s4, e4, k4) = >>=-eq-ok (each_round (dealt_phase now ctx) r3) _ s3 t k3 in
      let l1 =
        each_round-Left (root_phase root ctx) (λ r. root_phase-Replaces slashing root ctx r apart)
          rounds r1 s s1 e1 in
      let l2 = each_round-Left (voting_phase now) (voting_phase-Replaces now) r1 r2 s1 s2 e2 in
      let l3 =
        each_round-Left (registering_phase slashing now ctx)
          (λ r. registering_phase-Replaces slashing root now ctx r apart) r2 r3 s2 s3 e3 in
      let l4 =
        each_round-Left (dealt_phase now ctx) (dealt_phase-Replaces now ctx) r3 r4 s3 s4 e4 in
      let l5 = each_round-Left (tally_phase now) (tally_phase-Replaces now) r4 out s4 t k4 in
      Left-then rounds r1 out s s1 t l1 (
        Left-then r1 r2 out s1 s2 t l2
          (Left-then r2 r3 out s2 s3 t l3 (Left-then r3 r4 out s3 s4 t l4 l5)))

  -- The store's round under the id of `r` is one step on from it at most.
  abbrev pub Moved : ℕ → S → VoteRound → Type 0
  Moved now t r = (r' : VoteRound) × Reads {S = S} r.vote_round_id r' t × Advances now r r'

  gather_steps :
      (now : ℕ) (rs out : List VoteRound) (t : S)
      → ids_of out ≡ ids_of rs
      → Pointwise (Advances now) rs out
      → Stored out t
      → All (Moved now t) rs
  gather_steps now [] out t e p h = tt
  gather_steps now (r ∷ rs) [] t e p h = absurd p
  gather_steps now (r ∷ rs) (r' ∷ out) t e p h = (
    (r', subst (λ id. Reads id r' t) (head_eq e) h.0, p.0),
    gather_steps now rs out t (tail_eq e) p.1 h.1,
  )
    where
      head_eq : {x y : Bytes} {xs ys : List Bytes} → x ∷ xs ≡ y ∷ ys → x ≡ y
      head_eq e = cc e

      tail_eq : {x y : Bytes} {xs ys : List Bytes} → x ∷ xs ≡ y ∷ ys → xs ≡ ys
      tail_eq e = cc e

  -- Take rounds with different ids as they stand in the store, and slashing, staking and tree calls
  -- that leave the stored rounds alone. Where the block advances these rounds without an error (and
  -- the block time is below 2^64 by the tally timeout at least), the store afterwards holds under
  -- the id of each a round in the status that it had or one step on: active to tallying, pending to
  -- active or to failed, tallying to finalized; and a round that is then active was pending before,
  -- or is before the end of its voting.
  pub advance_rounds-Advances :
      (slashing : Slashing S) (root : Bytes → ℕ → ℕ → Action S Bytes) (ctx : Context)
      (rounds out : List VoteRound) (s t : S)
      → Apart slashing root
      → to_uint64 ctx.block_time + default_tally_timeout < 2 ^ 64
      → Distinct (ids_of rounds)
      → Stored rounds s
      → advance_rounds slashing root ctx rounds s ≡ (ok out, t)
      → All (Moved (to_uint64 ctx.block_time) t) rounds
  advance_rounds-Advances slashing root ctx rounds out s t apart room d p h =
      let left = advance_rounds-Left slashing root ctx rounds out s t apart h in
      gather_steps (to_uint64 ctx.block_time) rounds out t left.same_ids
        (advance_rounds-Pointwise slashing root ctx rounds out s t room h) (left.stored d p)
