-- ===== src/Server/Decrypt/Written.antt =====
-- What `SetPartialDecryptions` leaves in the store (x/vote/keeper/keeper_partial_decrypt.go).
use vote_sdk.Base.{
  ℕ, ◌≡◌, refl, ap, inl, inr, some, List, [], ◌∷◌, Bytes, bytes_eq, Result, ok, lift, ◌>>=◌,
  for_each, In, >>=-eq-ok, lift-ok, pure-ok, Bool-cases, bytes_eq_iff, bytes_eq_refl,
}
use vote_sdk.Types.{Value, PartialDecryptionEntry}
use vote_sdk.Keys.{partial_decryption_key}
use vote_sdk.Kv.{KvStore, kv_set}
use vote_sdk.Server.Tally.{set_partial_decryptions}

abbrev key_of : Bytes → ℕ → PartialDecryptionEntry → Result Bytes
key_of id i e = partial_decryption_key id i e.proposal_id e.vote_decision

module _ {S : Type 0} ⦃kv : KvStore S⦄ where
  -- Under this key the store holds one of the entries, whose key it is.
  abbrev HeldAt : Bytes → ℕ → List PartialDecryptionEntry → Bytes → S → Type 0
  HeldAt id i all key t =
      (held : PartialDecryptionEntry) × In held all
      × (key_of id i held ≡ ok key)
      × (kv.get t key ≡ some (Value.partial_decryption held))

  abbrev pub WrittenIn :
      Bytes → ℕ → List PartialDecryptionEntry → PartialDecryptionEntry → S → Type 0
  WrittenIn id i all e t = (key : Bytes) × (key_of id i e ≡ ok key) × HeldAt id i all key t

  write_one :
      (id : Bytes) (i : ℕ) (e : PartialDecryptionEntry) (s t : S)
      → (lift (key_of id i e) >>= λ key. kv_set key (Value.partial_decryption e)) s ≡ (ok tt, t)
      → (key : Bytes) × (key_of id i e ≡ ok key) × (kv.set s key (Value.partial_decryption e) ≡ t)
  unfolding kv_set lift
  write_one id i e s t h =
      let (key, u, a, k) = >>=-eq-ok (lift (key_of id i e)) _ s t h in
      let q = lift-ok (key_of id i e) key s u a in
      (key, q, ap (λ x. x.1) (subst_state u key (ap (λ x. x.1) a) k))
    where
      subst_state :
          (u : S) (key : Bytes)
          → (lift (key_of id i e) s).1 ≡ u
          → kv_set key (Value.partial_decryption e) u ≡ (ok tt, t)
          → kv_set key (Value.partial_decryption e) s ≡ (ok tt, t)
      subst_state u key same k = rw (← same) at k

  HeldAt-set :
      (id : Bytes) (i : ℕ) (all : List PartialDecryptionEntry) (e : PartialDecryptionEntry)
      (k key : Bytes) (s : S)
      → In e all
      → key_of id i e ≡ ok k
      → HeldAt id i all key s
      → HeldAt id i all key (kv.set s k (Value.partial_decryption e))
  HeldAt-set id i all e k key s m q (held, hm, hq, hg) = elim (Bool-cases (bytes_eq k key)) [
    | inl same ↦
        let eq = (bytes_eq_iff k key).0 same in
        (e, m, rw eq at q, rw (kv.get-set s k key (Value.partial_decryption e), same) refl)
    | inr other ↦ (held, hm, hq, rw (kv.get-set s k key (Value.partial_decryption e), other) hg)
  ]

  loop_keeps :
      (id : Bytes) (i : ℕ) (all es : List PartialDecryptionEntry) (key : Bytes) (s t : S)
      → ((e : PartialDecryptionEntry) → In e es → In e all)
      → HeldAt id i all key s
      → for_each (λ e. lift (key_of id i e) >>= λ key. kv_set key (Value.partial_decryption e)) es s
        ≡ (ok tt, t)
      → HeldAt id i all key t
  unfolding for_each
  loop_keeps id i all [] key s t sub h e = rw (pure-ok tt tt s t e).1 h
  loop_keeps id i all (x ∷ es) key s t sub h e =
      let (_, u, a, k) =
        >>=-eq-ok (lift (key_of id i x) >>= λ key. kv_set key (Value.partial_decryption x)) _ s t
          e in
      let (kx, q, w) = write_one id i x s u a in
      loop_keeps id i all es key u t (λ y m. sub y (inr m))
        (rw (← w) (HeldAt-set id i all x kx key s (sub x (inl refl)) q h)) k

  loop_writes :
      (id : Bytes) (i : ℕ) (all es : List PartialDecryptionEntry) (e : PartialDecryptionEntry)
      (s t : S)
      → ((e : PartialDecryptionEntry) → In e es → In e all)
      → for_each (λ e. lift (key_of id i e) >>= λ key. kv_set key (Value.partial_decryption e)) es s
        ≡ (ok tt, t)
      → In e es
      → WrittenIn id i all e t
  unfolding for_each
  loop_writes id i all [] e s t sub h m = absurd m
  loop_writes id i all (x ∷ es) e s t sub h (inl same) =
      let (_, u, a, k) =
        >>=-eq-ok (lift (key_of id i x) >>= λ key. kv_set key (Value.partial_decryption x)) _ s t
          h in
      let (kx, q, w) = write_one id i x s u a in
      let held : HeldAt id i all kx u = (
        x,
        sub x (inl refl),
        q,
        rw (← w, kv.get-set s kx kx (Value.partial_decryption x), bytes_eq_refl kx) refl,
      ) in
      (kx, rw same q, loop_keeps id i all es kx u t (λ y n. sub y (inr n)) held k)
  loop_writes id i all (x ∷ es) e s t sub h (inr m) =
      let (_, u, a, k) =
        >>=-eq-ok (lift (key_of id i x) >>= λ key. kv_set key (Value.partial_decryption x)) _ s t
          h in
      loop_writes id i all es e u t (λ y n. sub y (inr n)) k m

  pub set_partial_decryptions-Written :
      (id : Bytes) (i : ℕ) (es : List PartialDecryptionEntry) (e : PartialDecryptionEntry) (s t : S)
      → set_partial_decryptions id i es s ≡ (ok tt, t)
      → In e es
      → WrittenIn id i es e t
  unfolding set_partial_decryptions
  set_partial_decryptions-Written id i es e s t h m = loop_writes id i es es e s t (λ y n. n) h m
