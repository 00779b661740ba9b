-- ===== src/Keeper/Tally/Complete.antt =====
-- The completeness check of a tally (x/vote/keeper/keeper_tally.go).
use vote_sdk.Base.{
  ℕ, ◌-◌, ◌^◌, ◌<◌, ◌≡◌, refl, sym, ap, ◌∙◌, inl, inr, Bool, true, false, not, Option, none, some,
  List, [], ◌∷◌, ◌++◌, Bytes, Error, Result, ok, err, lift, or_raise, pure, raise_if, ◌>>=◌, arith,
  length, length-append, drop, drop_append_left, any_sound, Option-cases, pair_eq, all_sound, all,
  In, In-map, map-In, In-append_left, In-append_right, Preserves, preserves_rules, >>=-eq-ok,
  Preserves-bind, Preserves-pure, ◌&&◌, ◌==◌,
}
use vote_sdk.Keys.{
  tally_key, tally_prefix_for_proposal, prefix_end_bytes, put_uint32_be, append_uint32_be,
  get_uint32_be, validate_round_id,
}
use vote_sdk.Keys.Range.{IsBytes, in_range, has_prefix, prefix_end_bytes-range}
use vote_sdk.Keys.Injective.{get-put_uint32}
use vote_sdk.Types.{PartialDecryptionEntry, VoteRound, Proposal, TallyEntry, Value}
use vote_sdk.Kv.{KvStore, kv_iterator}
use vote_sdk.Keeper.Tally.{
  decisions, covers, tally_keys, partial_keys, validate_partial_decryption_completeness,
  get_proposal_tally, collect_from, collect_non_empty_accumulators, validate_tally_completeness,
}

has_prefix-append : (p k : Bytes) → has_prefix p (p ++ k) ≡ true
has_prefix-append [] k = refl
has_prefix-append (x ∷ xs) k = ground (arith, has_prefix-append xs k)

IsBytes-append : (a b : Bytes) → IsBytes a → IsBytes b → IsBytes (a ++ b)
IsBytes-append [] b ha hb = hb
IsBytes-append (x ∷ xs) b ha hb = (ha.0, IsBytes-append xs b ha.1 hb)

put_uint32-IsBytes : (v : ℕ) → IsBytes (put_uint32_be v)
unfolding put_uint32_be
put_uint32-IsBytes v = (omega arith, (omega arith, (omega arith, (omega arith, tt))))

-- The prefix of a proposal's accumulators, and the key of one.
abbrev proposal_prefix : Bytes → ℕ → Bytes
proposal_prefix id p = (0x05 ∷ id) ++ put_uint32_be p

pub tally_keys-ok :
    (id key : Bytes) (p d : ℕ)
    → tally_key id p d ≡ ok key
    → (length id ≡ 32) × (key ≡ proposal_prefix id p ++ put_uint32_be d)
unfolding tally_key append_uint32_be validate_round_id
tally_keys-ok id key p d h = ground arith

tally_prefix-ok :
    (id prefix : Bytes) (p : ℕ)
    → tally_prefix_for_proposal id p ≡ ok prefix
    → prefix ≡ proposal_prefix id p
unfolding tally_prefix_for_proposal append_uint32_be validate_round_id
tally_prefix-ok id prefix p h = ground arith

tally_key-in_range :
    (id : Bytes) (p d : ℕ)
    → IsBytes id
    → in_range
        (proposal_prefix id p)
        (prefix_end_bytes (proposal_prefix id p))
        (proposal_prefix id p ++ put_uint32_be d)
      ≡ true
tally_key-in_range id p d h =
    let front = proposal_prefix id p in
    let b : IsBytes front =
      IsBytes-append (0x05 ∷ id) (put_uint32_be p) (omega arith, h) (put_uint32-IsBytes p) in
    prefix_end_bytes-range front (front ++ put_uint32_be d) b
      (IsBytes-append front (put_uint32_be d) b (put_uint32-IsBytes d))
    ∙ has_prefix-append front (put_uint32_be d)

put_uint32-length : (v : ℕ) → length (put_uint32_be v) ≡ 4
unfolding put_uint32_be
put_uint32-length v = refl

last_four :
    (front : Bytes) (d : ℕ)
    → d < 2 ^ 32
    → get_uint32_be (drop (length (front ++ put_uint32_be d) - 4) (front ++ put_uint32_be d))
      ≡ some d
last_four front d h =
    let n : length (front ++ put_uint32_be d) - 4 ≡ length front =
      omega (arith, length-append front (put_uint32_be d), put_uint32-length d) in
    rw (n, drop_append_left front (put_uint32_be d)) (get-put_uint32 d h)

decisions-head :
    (k : Bytes) (d : ℕ) (v : Value) (rest : List (Bytes × Value))
    → get_uint32_be (drop (length k - 4) k) ≡ some d
    → In (d, v) (decisions ((k, v) ∷ rest))
decisions-head k d v rest e = rw (e, In) (inl refl)

decisions-In :
    (front : Bytes) (d : ℕ) (v : Value) (entries : List (Bytes × Value))
    → d < 2 ^ 32
    → In (front ++ put_uint32_be d, v) entries
    → In (d, v) (decisions entries)
decisions-In front d v [] h m = absurd m
decisions-In front d v (e ∷ rest) h (inl q) =
    rw (← q) (decisions-head (front ++ put_uint32_be d) d v rest (last_four front d h))
decisions-In front d v ((k, w) ∷ rest) h (inr m) =
    elim (Option-cases (get_uint32_be (drop (length k - 4) k))) [
      | inl e ↦ rw (e, In) (decisions-In front d v rest h m)
      | inr (x, e) ↦ rw (e, In) (inr (decisions-In front d v rest h m))
    ]

module _ {S : Type 0} ⦃kv : KvStore S⦄ where
  -- The scan of a proposal finds each accumulator of it.
  get_proposal_tally_complete :
      (id : Bytes) (p d : ℕ) (v : Value) (key : Bytes) (s t : S) {out : List (ℕ × Value)}
      → IsBytes id
      → d < 2 ^ 32
      → tally_key id p d ≡ ok key
      → kv.get s key ≡ some v
      → get_proposal_tally id p s ≡ (ok out, t)
      → (t ≡ s) × In (d, v) out
  unfolding get_proposal_tally kv_iterator ◌>>=◌
  get_proposal_tally_complete id p d v key s t {out} hid hd hk hv h =
      found (tally_prefix_for_proposal id p) refl h
    where
      found :
          (r : Result Bytes)
          → tally_prefix_for_proposal id p ≡ r
          → (lift r >>= λ prefix. kv_iterator prefix (prefix_end_bytes prefix) >>= λ entries.
                pure (decisions entries))
              s
            ≡ (ok out, t)
          → (t ≡ s) × In (d, v) out
      found (ok prefix) e q =
          let a = tally_prefix-ok id prefix p e in
          let k = (tally_keys-ok id key p d hk).1 in
          let m =
            kv.iterator_complete s prefix (prefix_end_bytes prefix) key v hv
              (rw (a, k) (tally_key-in_range id p d hid)) in
          let i =
            decisions-In (proposal_prefix id p) d v (kv.iterator s prefix (prefix_end_bytes prefix))
              hd (rw k at m) in
          let o : decisions (kv.iterator s prefix (prefix_end_bytes prefix)) ≡ out = cc q in
          (sym (ap (λ x. x.1) q), rw o at i)
      found (err x) e q = cc

  -- Collecting reads the store and writes nothing.
  module _ {P : S → Type 0} where
    get_proposal_tally-Preserves : (id : Bytes) (p : ℕ) → Preserves P (get_proposal_tally id p)
    unfolding get_proposal_tally kv_iterator
    get_proposal_tally-Preserves id p = search preserves_rules depth 20

    pub collect_from-Preserves :
        (id : Bytes) (ps : List (Option Proposal)) → Preserves P (collect_from id ps)
    unfolding collect_from
    collect_from-Preserves id [] = Preserves-pure []
    collect_from-Preserves id (p ∷ rest) =
        Preserves-bind (or_raise p Error.panicked) _ (search preserves_rules) (λ proposal.
          Preserves-bind (get_proposal_tally id proposal.id) _
            (get_proposal_tally-Preserves id proposal.id)
            (λ tally_map.
              Preserves-bind (collect_from id rest) _ (collect_from-Preserves id rest)
                (λ others. Preserves-pure _)))

  or_raise-ok :
      {A : Type 0} (o : Option A) (e : Error) (s u : S) {a : A}
      → or_raise o e s ≡ (ok a, u)
      → (o ≡ some a) × (u ≡ s)
  unfolding or_raise
  or_raise-ok none e s u h = cc
  or_raise-ok (some b) e s u h = (cc h, sym (ap (λ x. x.1) h))

  pub raise_if-ok : (b : Bool) (e : Error) (s t : S) → raise_if (not b) e s ≡ (ok tt, t) → b ≡ true
  unfolding raise_if
  raise_if-ok true e s t h = refl
  raise_if-ok false e s t h = cc

  pure-ok : {A : Type 0} (a b : A) (s t : S) → pure a s ≡ (ok b, t) → (a ≡ b) × (s ≡ t)
  unfolding pure
  pure-ok a b s t h = (cc h, ap (λ x. x.1) h)

  -- What collecting finds: the accumulators of the first proposal, and those of the later ones.
  collect_from-In :
      (id : Bytes) (ps : List (Option Proposal)) (p : Proposal) (d : ℕ) (v : Value) (key : Bytes)
      (s t : S) (out : List (ℕ × ℕ))
      → IsBytes id
      → d < 2 ^ 32
      → tally_key id p.id d ≡ ok key
      → In (some p) ps
      → kv.get s key ≡ some v
      → collect_from id ps s ≡ (ok out, t)
      → In (p.id, d) out
  unfolding collect_from
  collect_from-In id [] p d v key s t out hid hd hk m hv h = absurd m
  collect_from-In id (q ∷ rest) p d v key s t out hid hd hk m hv h =
      let (proposal, u, e1, k1) = >>=-eq-ok (or_raise q Error.panicked) _ s t h in
      let (tally_map, w, e2, k2) = >>=-eq-ok (get_proposal_tally id proposal.id) _ u t k1 in
      let (others, x, e3, k3) = >>=-eq-ok (collect_from id rest) _ w t k2 in
      let (eq, us) = or_raise-ok q Error.panicked s u e1 in
      let hu : kv.get u key ≡ some v = rw us hv in
      let (eo, ex) = pure-ok _ out x t k3 in
      elim m [
        | inl n ↦
            let pp : p ≡ proposal = cc (n, eq) in
            let g =
              get_proposal_tally_complete id p.id d v key u w hid hd hk hu (rw (← pp) at e2) in
            rw (← eo, ← pp)
              (In-append_left _ others (p.id, d) (map-In (λ e. (p.id, e.0)) tally_map (d, v) g.1))
        | inr n ↦
            let hw : kv.get w key ≡ some v =
              (let a =
                  (get_proposal_tally-Preserves {P = λ y. kv.get y key ≡ some v} id
                      proposal.id).after
                    u hu in
                rw (ap (λ y. y.1) e2) at a) in
            let i = collect_from-In id rest p d v key w x others hid hd hk n hw e3 in
            rw (← eo) (In-append_right _ others (p.id, d) i)
      ]

  -- Where the completeness check passes, each stored accumulator of each proposal of the round has
  -- an entry in the tally with its proposal and its decision (round ids and keys are byte strings;
  -- a decision is a uint32).
  pub validate_tally_completeness-covers :
      (round : VoteRound) (entries : List TallyEntry) (p : Proposal) (d : ℕ) (v : Value)
      (key : Bytes) (s : S)
      → IsBytes round.vote_round_id
      → d < 2 ^ 32
      → In (some p) round.proposals
      → tally_key round.vote_round_id p.id d ≡ ok key
      → kv.get s key ≡ some v
      → (validate_tally_completeness round entries s).0 ≡ ok tt
      → (e : TallyEntry) × In e entries × (e.proposal_id ≡ p.id) × (e.vote_decision ≡ d)
  unfolding validate_tally_completeness collect_non_empty_accumulators
  validate_tally_completeness-covers round entries p d v key s hid hd m hk hv h =
      let (expected, u, e1, k1) =
        >>=-eq-ok (collect_from round.vote_round_id round.proposals) _ s _
          (pair_eq (validate_tally_completeness round entries s) tt h) in
      let i =
        collect_from-In round.vote_round_id round.proposals p d v key s u expected hid hd hk m hv
          e1 in
      let covered =
        raise_if-ok (all (covers (tally_keys entries)) expected) Error.tally_mismatch u _ k1 in
      let (x, xm, xe) =
        any_sound (λ e. e.0 == p.id && e.1 == d) (tally_keys entries)
          (all_sound (covers (tally_keys entries)) expected covered (p.id, d) i) in
      let (e, em, ee) = In-map (λ e. (e.proposal_id, e.vote_decision)) entries x xm in
      (e, em, ground (arith, ee, xe), ground (arith, ee, xe))

  -- Where the completeness check of partial decryptions passes, each stored accumulator has an entry.
  pub validate_partial_decryption_completeness-covers :
      (round : VoteRound) (entries : List PartialDecryptionEntry) (p : Proposal) (d : ℕ) (v : Value)
      (key : Bytes) (s t : S)
      → IsBytes round.vote_round_id
      → d < 2 ^ 32
      → In (some p) round.proposals
      → tally_key round.vote_round_id p.id d ≡ ok key
      → kv.get s key ≡ some v
      → validate_partial_decryption_completeness round entries s ≡ (ok tt, t)
      → (e : PartialDecryptionEntry) × In e entries × (e.proposal_id ≡ p.id) × (e.vote_decision ≡ d)
  unfolding validate_partial_decryption_completeness collect_non_empty_accumulators
  validate_partial_decryption_completeness-covers round entries p d v key s t hid hd m hk hv h =
      let (expected, u, e1, k1) =
        >>=-eq-ok (collect_from round.vote_round_id round.proposals) _ s t h in
      let i =
        collect_from-In round.vote_round_id round.proposals p d v key s u expected hid hd hk m hv
          e1 in
      let covered =
        raise_if-ok (all (covers (partial_keys entries)) expected) Error.invalid_field u t k1 in
      let (x, xm, xe) =
        any_sound (λ e. e.0 == p.id && e.1 == d) (partial_keys entries)
          (all_sound (covers (partial_keys entries)) expected covered (p.id, d) i) in
      let (e, em, ee) = In-map (λ e. (e.proposal_id, e.vote_decision)) entries x xm in
      (e, em, ground (arith, ee, xe), ground (arith, ee, xe))
