-- ===== src/Keeper/Rounds/Stored.antt =====
-- Rounds as they stand in the store (x/vote/keeper/keeper.go).
use vote_sdk.Base.{
  some_inj, ◌≡◌, ◌≢◌, refl, sym, ap, ◌∙◌, subst, inl, inr, true, false, some, List, [], ◌∷◌, Bytes,
  bytes_eq, bytes_eq_refl, bytes_eq_ne, Result, ok, err, lift, ◌>>=◌, Preserves, preserves_rules,
  In, length, ◌==◌, arith, Bool-cases, Option-cases,
}
use vote_sdk.Types.{Value, VoteRound, as_vote_round, is_pending}
use vote_sdk.Keys.{vote_round_key, validate_round_id, prefix_end_bytes}
use vote_sdk.Keys.Range.{IsBytes, in_range, prefix_end_bytes-range}
use vote_sdk.Kv.{KvStore, kv_get, kv_set, kv_iterator}
use vote_sdk.Keeper.Rounds.{
  get_vote_round, set_vote_round, has_pending_round, iterate_pending_rounds, iterate_rounds,
  scan_rounds,
}

scan-none :
    (entries : List (Bytes × Value)) (k : Bytes) (v : Value) (r : VoteRound)
    → scan_rounds (λ r. is_pending r.status) (λ _ _. (true, true)) false entries ≡ ok false
    → In (k, v) entries
    → as_vote_round v ≡ some r
    → is_pending r.status ≡ false
unfolding scan_rounds
scan-none [] k v r h m e = absurd m
scan-none ((j, w) ∷ rest) k v r h m e = elim (Option-cases (as_vote_round w)) [
  | inl a ↦ absurd (let z = rw (a, scan_rounds) at h in cc z)
  | inr (q, a) ↦ elim (Bool-cases (is_pending q.status)) [
    | inl p ↦ absurd (let z = rw (a, p, scan_rounds) at h in cc z)
    | inr p ↦ elim m [
      | inl same ↦
          let f = ap (λ x. as_vote_round (x.1)) same in
          subst (λ (x : VoteRound). is_pending x.status ≡ false) (some_inj (sym a ∙ sym f ∙ e)) p
      | inr n ↦ scan-none rest k v r (rw (a, p, scan_rounds) at h) n e
    ]
  ]
]

module _ {S : Type 0} ⦃kv : KvStore S⦄ where
  -- A round that was stored is read back.
  pub get-set_vote_round :
      (round : VoteRound) (s t : S)
      → set_vote_round round s ≡ (ok tt, t)
      → get_vote_round round.vote_round_id t ≡ (ok round, t)
  unfolding get_vote_round set_vote_round kv_get kv_set ◌>>=◌
  get-set_vote_round round s t h = with_key (vote_round_key round.vote_round_id) refl h
    where
      with_key :
          (k : Result Bytes)
          → vote_round_key round.vote_round_id ≡ k
          → (lift k >>= λ key. kv_set key (Value.vote_round round)) s ≡ (ok tt, t)
          → get_vote_round round.vote_round_id t ≡ (ok round, t)
      with_key (ok key) e q =
          let u : kv.set s key (Value.vote_round round) ≡ t = ap (λ x. x.1) q in
          rw (e, ← u, kv.get-set s key key (Value.vote_round round), bytes_eq_refl key) refl
      with_key (err x) e q = cc

  pub round-keeps : {Q : S → Type 0} (id : Bytes) → Preserves Q (get_vote_round id)
  unfolding get_vote_round kv_get
  round-keeps id = search preserves_rules depth 20

  -- The entry behind a round that is read.
  pub round_entry :
      (id : Bytes) (s t : S) (r : VoteRound)
      → get_vote_round id s ≡ (ok r, t)
      → (v : Value) × (vote_round_key id ≡ ok (0x04 ∷ id))
        × (kv.get s (0x04 ∷ id) ≡ some v)
        × (as_vote_round v ≡ some r)
  unfolding get_vote_round kv_get ◌>>=◌ vote_round_key validate_round_id
  round_entry id s t r h = elim (Bool-cases (length id == 32)) [
    | inl e ↦ elim (Option-cases (kv.get s (0x04 ∷ id))) [
      | inl g ↦ absurd (let z = rw (e, g) at h in cc z)
      | inr (v, g) ↦ elim (Option-cases (as_vote_round v)) [
        | inl a ↦ absurd (let z = rw (e, g, a) at h in cc z)
        | inr (q, a) ↦ let z = rw (e, g, a) at h in (v, rw e refl, g, a ∙ ap some (cc z))
      ]
    ]
    | inr e ↦ absurd (let z = rw e at h in cc z)
  ]

  -- Where the scan for a pending round finds none, no stored round is pending.
  pub none_pending :
      (s t u : S) (id : Bytes) (r : VoteRound)
      → has_pending_round s ≡ (ok false, t)
      → IsBytes id
      → get_vote_round id s ≡ (ok r, u)
      → is_pending r.status ≡ false
  unfolding has_pending_round iterate_pending_rounds iterate_rounds kv_iterator ◌>>=◌
  none_pending s t u id r h b g =
      let (v, _, e, a) = round_entry id s u r g in
      let range : in_range (0x04 ∷ []) (prefix_end_bytes (0x04 ∷ [])) (0x04 ∷ id) ≡ true =
        prefix_end_bytes-range (0x04 ∷ []) (0x04 ∷ id) (omega arith, tt) (omega arith, b) in
      scan-none (kv.iterator s (0x04 ∷ []) (prefix_end_bytes (0x04 ∷ []))) (0x04 ∷ id) v r
        (ap (λ x. x.0) h)
        (kv.iterator_complete s (0x04 ∷ []) (prefix_end_bytes (0x04 ∷ [])) (0x04 ∷ id) v e range) a

  entry_round :
      (id : Bytes) (s : S) (v : Value) (r : VoteRound)
      → vote_round_key id ≡ ok (0x04 ∷ id)
      → kv.get s (0x04 ∷ id) ≡ some v
      → as_vote_round v ≡ some r
      → get_vote_round id s ≡ (ok r, s)
  unfolding get_vote_round kv_get ◌>>=◌
  entry_round id s v r e g a = rw (e, g, a) refl

  set_entry :
      (round : VoteRound) (s t : S)
      → set_vote_round round s ≡ (ok tt, t)
      → t ≡ kv.set s (0x04 ∷ round.vote_round_id) (Value.vote_round round)
  unfolding set_vote_round kv_set ◌>>=◌ vote_round_key validate_round_id
  set_entry round s t h = elim (Bool-cases (length round.vote_round_id == 32)) [
    | inl e ↦ let z = rw e at h in sym (ap (λ x. x.1) z)
    | inr e ↦ absurd (let z = rw e at h in cc z)
  ]

  -- A write of one round leaves the others as they were.
  pub read_before :
      (round : VoteRound) (id : Bytes) (s t : S) (r : VoteRound)
      → id ≢ round.vote_round_id
      → set_vote_round round s ≡ (ok tt, t)
      → get_vote_round id t ≡ (ok r, t)
      → get_vote_round id s ≡ (ok r, s)
  unfolding bytes_eq
  read_before round id s t r ne w h =
      let (v, k, g, a) = round_entry id t t r h in
      let x = kv.get-set s (0x04 ∷ round.vote_round_id) (0x04 ∷ id) (Value.vote_round round) in
      let y = rw (bytes_eq_ne round.vote_round_id id (λ q. ne (sym q))) at x in
      entry_round id s v r k
        (sym y ∙ ap (λ z. kv.get z (0x04 ∷ id)) (sym (set_entry round s t w)) ∙ g) a

  -- A round that was stored before a write of another one is still read after it.
  pub read_after :
      (round : VoteRound) (id : Bytes) (s t : S) (r : VoteRound)
      → id ≢ round.vote_round_id
      → set_vote_round round s ≡ (ok tt, t)
      → get_vote_round id s ≡ (ok r, s)
      → get_vote_round id t ≡ (ok r, t)
  unfolding bytes_eq
  read_after round id s t r ne w h =
      let (v, k, g, a) = round_entry id s s r h in
      let x = kv.get-set s (0x04 ∷ round.vote_round_id) (0x04 ∷ id) (Value.vote_round round) in
      let y = rw (bytes_eq_ne round.vote_round_id id (λ q. ne (sym q))) at x in
      entry_round id t v r k (ap (λ z. kv.get z (0x04 ∷ id)) (set_entry round s t w) ∙ y ∙ g) a

  -- A round is read as before after a write under a key of another kind.
  pub read_beside :
      (id key : Bytes) (v : Value) (s : S) (r : VoteRound)
      → bytes_eq key (0x04 ∷ id) ≡ false
      → get_vote_round id s ≡ (ok r, s)
      → get_vote_round id (kv.set s key v) ≡ (ok r, kv.set s key v)
  read_beside id key v s r ne h =
      let (w, k, g, a) = round_entry id s s r h in
      let x = kv.get-set s key (0x04 ∷ id) v in
      let y = rw ne at x in entry_round id (kv.set s key v) w r k (y ∙ g) a
