-- ===== src/Server/Deliver/Guards.antt =====
-- Calls that succeed only where a key is absent, and calls that leave a key present: rules for the
-- `do` blocks of the handlers.
use vote_sdk.Base.{
  ◌≡◌, refl, ap, inl, inr, false, some, List, [], ◌∷◌, Bytes, Error, Result, ok, err, Action, Done,
  raise_if, or_raise, lift, ◌>>=◌, ◌>>◌, for_each, is_some, In, Preserves, Preserves-for_each,
  arith, >>=-eq-ok, Bool-cases, bytes_eq_refl,
}
use vote_sdk.Types.{Value}
use vote_sdk.Keys.{NullifierType, nullifier_key}
use vote_sdk.Kv.{KvStore, kv_set, kv_has}
use vote_sdk.Keeper.Nullifiers.{
  has_nullifier, set_nullifier, check_and_set_nullifier, check_nullifiers_unique,
}
use vote_sdk.Msgs.{MsgCastVote}
use vote_sdk.Server.Voting.{apply_votes}
use vote_sdk.Server.Deliver.Presence.{Present, call_rules}

module _ {S : Type 0} ⦃kv : KvStore S⦄ where
  unfoldable pub Absent : Result Bytes → S → Type 0
  Absent (ok k) s = is_some (kv.get s k) ≡ false
  Absent (err _) s = ⊥

  pub Absent-Present : (key : Result Bytes) (s : S) → Absent key s → Present key s → ⊥
  unfolding Absent Present
  Absent-Present (ok k) s h p = cc
  Absent-Present (err e) s h p = p

  -- A key that is present later, unless it was absent, was present before.
  Absent-before :
      (key : Result Bytes) (s t : S) → (Present key s → Present key t) → Absent key t → Absent key s
  unfolding Absent Present
  Absent-before (ok k) s t f h = elim (Bool-cases (is_some (kv.get s k))) [
    | inl e ↦ absurd (let p = f e in cc (p, h))
    | inr e ↦ e
  ]
  Absent-before (err e) s t f h = h

  -- A call that succeeds only if a key is absent, and one that leaves it present.
  pub record Checks {A : Type 0} (key : Result Bytes) (m : Action S A) : Type 0 where
    pub before : (s t : S) (a : A) → m s ≡ (ok a, t) → Absent key s

  pub record Writes {A : Type 0} (key : Result Bytes) (m : Action S A) : Type 0 where
    pub after : (s t : S) (a : A) → m s ≡ (ok a, t) → Present key t

  module _ {A B : Type 0} {key : Result Bytes} where
    pub Checks-left : (m : Action S A) (f : A → Action S B) → Checks key m → Checks key (m >>= f)
    Checks-left m f h = record {
      before = λ s t b e. let r = >>=-eq-ok m f s t e in h.before s r.1 r.0 r.2;
    }

    pub Checks-right :
        (m : Action S A) (f : A → Action S B)
        → Preserves (Present key) m
        → ((a : A) → Checks key (f a))
        → Checks key (m >>= f)
    Checks-right m f hm hf = record {
      before = λ s t b e.
          let r = >>=-eq-ok m f s t e in
          Absent-before key s r.1 (λ p. let q = hm.after s p in rw (ap (λ x. x.1) r.2) at q)
            ((hf r.0).before r.1 t b r.3);
    }

    pub Writes-left :
        (m : Action S A) (f : A → Action S B)
        → Writes key m
        → ((a : A) → Preserves (Present key) (f a))
        → Writes key (m >>= f)
    Writes-left m f hm hf = record {
      after = λ s t b e.
          let r = >>=-eq-ok m f s t e in
          let p = (hf r.0).after r.1 (hm.after s r.1 r.0 r.2) in rw (ap (λ x. x.1) r.3) at p;
    }

    pub Writes-right :
        (m : Action S A) (f : A → Action S B) → ((a : A) → Writes key (f a)) → Writes key (m >>= f)
    Writes-right m f hf = record {
      after = λ s t b e. let r = >>=-eq-ok m f s t e in (hf r.0).after r.1 t b r.3;
    }

    pub Checks-or_raise-some :
        (a : A) (e : Error) (f : A → Action S B)
        → Checks key (f a)
        → Checks key (or_raise (some a) e >>= f)
    unfolding or_raise ◌>>=◌
    Checks-or_raise-some a e f h = record { before = λ s t b q. h.before s t b q }

    pub Writes-or_raise-some :
        (a : A) (e : Error) (f : A → Action S B)
        → Writes key (f a)
        → Writes key (or_raise (some a) e >>= f)
    unfolding or_raise ◌>>=◌
    Writes-or_raise-some a e f h = record { after = λ s t b q. h.after s t b q }

  module _ {A : Type 0} {key : Result Bytes} where
    pub Checks-for_each :
        (body : A → Action S Done) (xs : List A) (a : A)
        → In a xs
        → Checks key (body a)
        → ((b : A) → Preserves (Present key) (body b))
        → Checks key (for_each body xs)
    unfolding for_each
    Checks-for_each body [] a m h hp = absurd m
    Checks-for_each body (x ∷ xs) a (inl e) h hp =
        Checks-left (body x) (λ _. for_each body xs) (rw e at h)
    Checks-for_each body (x ∷ xs) a (inr m) h hp =
        Checks-right (body x) (λ _. for_each body xs) (hp x) (λ _. Checks-for_each body xs a m h hp)

    pub Writes-for_each :
        (body : A → Action S Done) (xs : List A) (a : A)
        → In a xs
        → Writes key (body a)
        → ((b : A) → Preserves (Present key) (body b))
        → Writes key (for_each body xs)
    unfolding for_each
    Writes-for_each body [] a m h hp = absurd m
    Writes-for_each body (x ∷ xs) a (inl e) h hp =
        Writes-left (body x) (λ _. for_each body xs) (rw e at h)
          (λ _. Preserves-for_each body xs hp)
    Writes-for_each body (x ∷ xs) a (inr m) h hp =
        Writes-right (body x) (λ _. for_each body xs) (λ _. Writes-for_each body xs a m h hp)

  -- The two uses of a computed key.
  Checks-has :
      (key : Result Bytes)
      → Checks key (lift key >>= (λ k. kv_has k) >>= λ has. raise_if has Error.duplicate_nullifier)
  unfolding ◌>>=◌ kv_has Absent
  Checks-has (ok k) = record { before = λ s t a e. ground arith }
  Checks-has (err x) = record { before = λ s t a e. cc }

  Checks-has_then :
      (key : Result Bytes) (rest : Action S Done)
      → Checks key
          (lift key >>= (λ k. kv_has k) >>= λ has. raise_if has Error.duplicate_nullifier >> rest)
  unfolding ◌>>=◌ kv_has Absent
  Checks-has_then (ok k) rest = record {
    before = λ s t a e. elim (Bool-cases (is_some (kv.get s k))) [
      | inl p ↦ absurd (let q = rw p at e in cc q)
      | inr p ↦ p
    ];
  }
  Checks-has_then (err x) rest = record { before = λ s t a e. cc }

  Writes-set : (key : Result Bytes) (v : Value) → Writes key (lift key >>= λ k. kv_set k v)
  unfolding ◌>>=◌ kv_set Present
  Writes-set (ok k) v = record {
    after =
        λ s t a e. let g = kv.get-set s k k v in rw (← ap (λ x. x.1) e, g, bytes_eq_refl k) refl;
  }
  Writes-set (err x) v = record { after = λ s t a e. cc }

  module _ (nf_type : NullifierType) (id n : Bytes) where
    Checks-unique :
        Checks
          (nullifier_key nf_type id n)
          (has_nullifier nf_type id n >>= λ has. raise_if has Error.duplicate_nullifier)
    unfolding has_nullifier
    Checks-unique = Checks-has (nullifier_key nf_type id n)

    pub Writes-set_nullifier : Writes (nullifier_key nf_type id n) (set_nullifier nf_type id n)
    unfolding set_nullifier
    Writes-set_nullifier = Writes-set (nullifier_key nf_type id n) _

    pub Checks-check_and_set :
        Checks (nullifier_key nf_type id n) (check_and_set_nullifier nf_type id n)
    unfolding check_and_set_nullifier has_nullifier
    Checks-check_and_set = Checks-has_then (nullifier_key nf_type id n) _

    pub Writes-check_and_set :
        Writes (nullifier_key nf_type id n) (check_and_set_nullifier nf_type id n)
    unfolding check_and_set_nullifier
    Writes-check_and_set =
        Writes-right (has_nullifier nf_type id n) _ (λ has.
          Writes-right (raise_if has Error.duplicate_nullifier) _ (λ _. Writes-set_nullifier))

  module _ (id : Bytes) where
    -- The shared writes of a batch use every nullifier of its votes.
    pub Writes-apply_votes :
        (votes : List MsgCastVote) (v : MsgCastVote)
        → In v votes
        → Writes
            (nullifier_key NullifierType.vote_authority_note id v.van_nullifier)
            (apply_votes id votes)
    unfolding apply_votes
    Writes-apply_votes votes v m =
        Writes-left _ _
          (Writes-for_each (λ w. set_nullifier NullifierType.vote_authority_note id w.van_nullifier)
            votes v m (Writes-set_nullifier NullifierType.vote_authority_note id v.van_nullifier)
            (λ w. search call_rules depth 20))
          (λ _. search call_rules depth 20)

    pub Checks-check_nullifiers_unique :
        (t : NullifierType) (ns : List Bytes) (n : Bytes)
        → In n ns
        → Checks (nullifier_key t id n) (check_nullifiers_unique t id ns)
    unfolding check_nullifiers_unique
    Checks-check_nullifiers_unique t ns n m =
        Checks-for_each
          (λ w. has_nullifier t id w >>= λ has. raise_if has Error.duplicate_nullifier) ns n m
          (Checks-unique t id n) (λ w. search call_rules depth 20)
