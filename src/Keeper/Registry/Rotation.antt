-- ===== src/Keeper/Registry/Rotation.antt =====
-- What a rotation leaves in the registry (`RotatePallasKeyCore`).
use vote_sdk.Base.{
  ◌≡◌, ◌≢◌, sym, ap, ◌∙◌, inl, inr, false, none, some, Bytes, bytes_eq, ok, ◌>>=◌, Bool-cases,
  Option-cases, bytes_eq_refl, bytes_eq_ne,
}
use vote_sdk.Types.{Value, ValidatorPallasKey}
use vote_sdk.Keys.{pallas_key_reverse_lookup_key}
use vote_sdk.Kv.{KvStore, kv_get, kv_set, kv_delete}
use vote_sdk.Keeper.Registry.{
  rotate_pallas_key_core, get_pallas_key, get_pallas_key_owner, set_pallas_key,
  delete_pallas_key_reverse,
}
use vote_sdk.Keeper.Registry.Indexes.{
  Agree, forward, reverse, write_key, forward-write_key, reverse-write_key, forward-delete,
  reverse-delete, owner_named, Agree-key, absurd_test,
}

module _ {S : Type 0} ⦃kv : KvStore S⦄ where
  abbrev pub rotated : S → Bytes → Bytes → Bytes → S
  rotated s a old pk =
      write_key (kv.delete s (pallas_key_reverse_lookup_key old))
        (record { validator_address = a; pallas_pk = pk; shamir_index = 0 })

  -- A rotation that succeeds replaced the key of a registered validator by a free one.
  rotate-ok :
      (s t : S) (a pk old : Bytes)
      → Agree s
      → rotate_pallas_key_core a pk s ≡ (ok old, t)
      → (k : ValidatorPallasKey) × (forward s a ≡ some (Value.pallas_key k))
        × (k.pallas_pk ≡ old)
        × (bytes_eq old pk ≡ false)
        × (reverse s pk ≡ none)
        × (t ≡ rotated s a old pk)
  unfolding rotate_pallas_key_core get_pallas_key delete_pallas_key_reverse get_pallas_key_owner
      set_pallas_key kv_delete kv_get kv_set ◌>>=◌ forward reverse
  rotate-ok s t a pk old g e = elim (Option-cases (forward s a)) [
    | inl f ↦ absurd (let z = rw f at e in cc z)
    | inr (v, f) ↦
        let (k, m, _, _) = g.to_reverse a v f in
        let h : forward s a ≡ some (Value.pallas_key k) = f ∙ ap some m in
        elim (Bool-cases (bytes_eq k.pallas_pk pk)) [
          | inl q ↦ absurd (let z = rw (h, q) at e in cc z)
          | inr q ↦ elim (Option-cases (reverse s pk)) [
            | inr (w, r) ↦
                let (b, o, n) = owner_named s pk w g r in
                absurd (let z = rw (h, q, r, o, n) at e in cc z)
            | inl r ↦
                let z = rw (h, q, r) at e in
                let o : k.pallas_pk ≡ old = cc z in
                (
                  k,
                  h,
                  o,
                  ap (λ x. bytes_eq x pk) (sym o) ∙ q,
                  r,
                  sym (ap (λ x. x.1) z) ∙ ap (λ x. rotated s a x pk) o,
                )
          ]
        ]
  ]

  -- A rotation that succeeds frees the validator's old key; the new one, which nobody held, leads to
  -- the validator, whose own entry holds it; every other validator's entry stays.
  pub rotate_pallas_key_core-moves :
      (s t : S) (a pk old : Bytes)
      → Agree s
      → rotate_pallas_key_core a pk s ≡ (ok old, t)
      → (b : Bytes) → b ≢ a
      → (reverse s old ≡ some (Value.raw a))
        × (reverse s pk ≡ none)
        × (reverse t old ≡ none)
        × (reverse t pk ≡ some (Value.raw a))
        × (forward t a
            ≡ some (
                Value.pallas_key
                  (record { validator_address = a; pallas_pk = pk; shamir_index = 0 })))
        × (forward t b ≡ forward s b)
  rotate_pallas_key_core-moves s t a pk old g e b ne =
      let (k, h, o, q, r, u) = rotate-ok s t a pk old g e in
      let back = (Agree-key s a k g h).1 in
      let new : ValidatorPallasKey = record {
        validator_address = a;
        pallas_pk = pk;
        shamir_index = 0;
      } in
      let base = kv.delete s (pallas_key_reverse_lookup_key old) in
      let w1 = reverse-write_key base new old in
      let w2 = rw (bytes_eq_ne pk old (λ x. absurd_test old pk (sym x) q)) at w1 in
      let d1 = reverse-delete s old old in
      let d2 = rw (bytes_eq_refl old) at d1 in
      let v1 = reverse-write_key base new pk in
      let v2 = rw (bytes_eq_refl pk) at v1 in
      (
        ap (reverse s) (sym o) ∙ back,
        r,
        ap (λ x. reverse x old) u ∙ w2 ∙ d2,
        ap (λ x. reverse x pk) u ∙ v2,
        ap (λ x. forward x a) u ∙ rw (bytes_eq_refl a) at (forward-write_key base new a),
        let f1 = forward-write_key base new b in
            let f2 = rw (bytes_eq_ne a b (λ x. ne (sym x))) at f1 in
            ap (λ x. forward x b) u ∙ f2 ∙ forward-delete s old b,
      )
