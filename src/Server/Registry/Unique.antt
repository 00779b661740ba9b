-- ===== src/Server/Registry/Unique.antt =====
-- Keys and validators stay in step through registry messages.
use vote_sdk.Base.{
  some_inj, some_ne_none, ◌≡◌, ◌≢◌, sym, ap, ◌∙◌, inl, inr, Option, none, some, List, [], ◌∷◌,
  Bytes, bytes_eq, Result, ok, err, Done, raise_if, lift, ◌>>=◌, Preserves, preserves_rules,
  Preserves-bind, Preserves-lift, Preserves-raise_if, Preserves-or_raise_then, Preserves-pure,
  Bool-cases, Option-cases,
}
use vote_sdk.Types.{Value, ValidatorPallasKey}
use vote_sdk.Keys.{pallas_key_reverse_lookup_key}
use vote_sdk.Kv.{KvStore, kv_get, kv_set, kv_has, kv_delete, kv_iterator}
use vote_sdk.Crypto.{Curve}
use vote_sdk.Keeper.Rounds.{iterate_pending_rounds, iterate_rounds}
use vote_sdk.Keeper.Ceremony.{is_validator_in_pending_ceremony}
use vote_sdk.Keeper.Registry.{
  register_pallas_key_core, rotate_pallas_key_core, has_pallas_key, get_pallas_key_owner,
  set_pallas_key, get_pallas_key, delete_pallas_key_reverse,
}
use vote_sdk.Keeper.Registry.Indexes.{
  Agree, owner_named, forward, reverse, Agree-write_key, AgreeBut-absent, AgreeBut-delete,
  Agree-key, reverse-delete-none, raw_inj,
}
use vote_sdk.Server.Registry.{
  RegistryMsg, MsgRegisterPallasKey, MsgRotatePallasKey, register_pallas_key, rotate_pallas_key,
  handle_registry, commit_registry, run_registry,
}

module _ {S : Type 0} ⦃kv : KvStore S⦄ where
  pub register-Agree :
      (a pk : Bytes) → a ≢ [] → Preserves {S = S} Agree (register_pallas_key_core a pk)
  unfolding register_pallas_key_core has_pallas_key get_pallas_key_owner set_pallas_key kv_has
      kv_get kv_set ◌>>=◌ forward reverse
  register-Agree a pk ne = record {
    after = λ s g. elim (Option-cases (forward s a)) [
      | inr (v, e) ↦ rw e g
      | inl e ↦ elim (Option-cases (reverse s pk)) [
        | inl f ↦
            rw (e, f)
              (Agree-write_key s
                (record { validator_address = a; pallas_pk = pk; shamir_index = 0 })
                (AgreeBut-absent s a g e) ne f)
        | inr (v, f) ↦ let (b, m, n) = owner_named s pk v g f in rw (e, f, m, n) g
      ]
    ];
  }

  rotate-Agree : (a pk : Bytes) → a ≢ [] → Preserves {S = S} Agree (rotate_pallas_key_core a pk)
  unfolding rotate_pallas_key_core get_pallas_key delete_pallas_key_reverse get_pallas_key_owner
      set_pallas_key kv_delete kv_get kv_set ◌>>=◌ forward reverse
  rotate-Agree a pk ne = record {
    after = λ s g. elim (Option-cases (forward s a)) [
      | inl e ↦ rw e g
      | inr (v, e) ↦
          let (k, m, _, _) = g.to_reverse a v e in
          let h : forward s a ≡ some (Value.pallas_key k) = e ∙ ap some m in
          elim (Bool-cases (bytes_eq k.pallas_pk pk)) [
            | inl q ↦ rw (h, q) g
            | inr q ↦ elim (Option-cases (reverse s pk)) [
              | inl f ↦
                  rw (h, q, f)
                    (Agree-write_key (kv.delete s (pallas_key_reverse_lookup_key k.pallas_pk))
                      (record { validator_address = a; pallas_pk = pk; shamir_index = 0 })
                      (AgreeBut-delete s a k g h) ne (reverse-delete-none s k.pallas_pk pk f))
              | inr (w, f) ↦ let (b, o, n) = owner_named s pk w g f in rw (h, q, f, o, n) g
            ]
          ]
    ];
  }

-- A store without registry entries.
unfoldable pub Unregistered : {S : Type 0} ⦃kv : KvStore S⦄ → S → Type 0
Unregistered {S} s = ((a : Bytes) → forward s a ≡ none) × ((pk : Bytes) → reverse s pk ≡ none)

module _ {S P F : Type 0} ⦃kv : KvStore S⦄ (c : Curve P F) (val_address_of : Bytes → Option Bytes)
    (named : (x a : Bytes) → val_address_of x ≡ some a → a ≢ []) where
  keeps-register :
      (m : MsgRegisterPallasKey) → Preserves {S = S} Agree (register_pallas_key c val_address_of m)
  unfolding register_pallas_key
  keeps-register m = Preserves-bind (lift _) _ (Preserves-lift _) (λ _.
      Preserves-or_raise_then (val_address_of m.creator) _ _
        (λ a e. register-Agree a m.pallas_pk (named m.creator a e)))

  keeps-pending : (a : Bytes) → Preserves {S = S} Agree (is_validator_in_pending_ceremony a)
  unfolding is_validator_in_pending_ceremony iterate_pending_rounds iterate_rounds kv_iterator
  keeps-pending a = search preserves_rules depth 20

  keeps-rotate :
      (m : MsgRotatePallasKey) → Preserves {S = S} Agree (rotate_pallas_key c val_address_of m)
  unfolding rotate_pallas_key
  keeps-rotate m = Preserves-bind (lift _) _ (Preserves-lift _) (λ _.
      Preserves-or_raise_then (val_address_of m.creator) _ _ (λ a e.
        Preserves-bind (is_validator_in_pending_ceremony a) _ (keeps-pending a) (λ b.
          Preserves-bind (raise_if b _) _ (Preserves-raise_if b _) (λ _.
            Preserves-bind (rotate_pallas_key_core a m.new_pallas_pk) _
              (rotate-Agree a m.new_pallas_pk (named m.creator a e)) (λ _. Preserves-pure tt)))))

  keeps-commit : (s : S) (r : Result Done × S) → Agree s → Agree (r.1) → Agree (commit_registry s r)
  keeps-commit s (ok _, t) g h = h
  keeps-commit s (err _, t) g h = g

  keeps-handle : (m : RegistryMsg) → Preserves {S = S} Agree (handle_registry c val_address_of m)
  unfolding handle_registry
  keeps-handle (RegistryMsg.register m) = keeps-register m
  keeps-handle (RegistryMsg.rotate m) = keeps-rotate m

  keeps-run : (ms : List RegistryMsg) (s : S) → Agree s → Agree (run_registry c val_address_of ms s)
  unfolding run_registry
  keeps-run [] s g = g
  keeps-run (m ∷ rest) s g =
      keeps-run rest _
        (keeps-commit s (handle_registry c val_address_of m s) g ((keeps-handle m).after s g))

  pub Agree-empty : (s : S) → Unregistered s → Agree s
  unfolding Unregistered
  Agree-empty s (n, r) = record {
    to_reverse = λ a v e. absurd (some_ne_none (sym e ∙ n a));
    to_forward = λ pk v e. absurd (some_ne_none (sym e ∙ r pk));
  }

  -- However validators register and rotate keys, from a store without registry entries, a stored
  -- key leads back to its validator, and two validators that hold the same key are one.
  pub run_registry_unique :
      (ms : List RegistryMsg) (s : S)
      → Unregistered s
      → (a b : Bytes) (k l : ValidatorPallasKey)
      → forward (run_registry c val_address_of ms s) a ≡ some (Value.pallas_key k)
      → forward (run_registry c val_address_of ms s) b ≡ some (Value.pallas_key l)
      → k.pallas_pk ≡ l.pallas_pk
      → (reverse (run_registry c val_address_of ms s) k.pallas_pk ≡ some (Value.raw a)) × (a ≡ b)
  run_registry_unique ms s u a b k l e f h =
      let t = run_registry c val_address_of ms s in
      let g = keeps-run ms s (Agree-empty s u) in
      let p = (Agree-key t a k g e).1 in
      (p, raw_inj a b (some_inj (sym p ∙ ap (reverse t) h ∙ (Agree-key t b l g f).1)))
