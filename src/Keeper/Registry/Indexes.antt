-- ===== src/Keeper/Registry/Indexes.antt =====
-- The two indexes of the registry, from validators to keys and back.
use vote_sdk.Base.{
  some_inj, some_ne_none, ◌≡◌, ◌≢◌, refl, sym, ap, ◌∙◌, inl, inr, Bool, true, false, Option, none,
  some, [], ◌∷◌, Bytes, bytes_eq, bytes_eq_iff, bytes_eq_refl, bytes_eq_ne, if◌then◌else◌,
  Bool-cases, suc_eq_zero, length, ◌==◌,
}
use vote_sdk.Keys.{pallas_key_key, pallas_key_reverse_lookup_key}
use vote_sdk.Types.{Value, ValidatorPallasKey}
use vote_sdk.Kv.{KvStore}

pub absurd_test : (a b : Bytes) → a ≡ b → bytes_eq a b ≡ false → ⊥
absurd_test a b e h = cc (h, (bytes_eq_iff a b).1 e)

pub raw_inj : (a b : Bytes) → Value.raw a ≡ Value.raw b → a ≡ b
raw_inj a b e = cc e

pallas_key_inj : (k l : ValidatorPallasKey) → Value.pallas_key k ≡ Value.pallas_key l → k ≡ l
pallas_key_inj k l e = cc e

both_none : (b : Bool) → ◌≡◌ {A = Option Value} (if b then none else none) none
both_none true = refl
both_none false = refl

nonempty : (a : Bytes) → a ≢ [] → (length a == 0) ≡ false
nonempty [] h = absurd (h refl)
nonempty (x ∷ xs) h = suc_eq_zero (length xs)

module _ {S : Type 0} ⦃kv : KvStore S⦄ where
  unfoldable pub forward : S → Bytes → Option Value
  forward s a = kv.get s (pallas_key_key a)

  unfoldable pub reverse : S → Bytes → Option Value
  reverse s pk = kv.get s (pallas_key_reverse_lookup_key pk)

  -- The registry's write: the two entries of one validator.
  abbrev pub write_key : S → ValidatorPallasKey → S
  write_key s k =
      kv.set (kv.set s (pallas_key_key k.validator_address) (Value.pallas_key k))
        (pallas_key_reverse_lookup_key k.pallas_pk) (Value.raw k.validator_address)

  -- The indexes are inverse to each other, and no validator has the empty address.
  pub record Agree (s : S) : Type 0 where
    pub to_reverse :
        (a : Bytes) (v : Value)
        → forward s a ≡ some v
        → (k : ValidatorPallasKey) × (v ≡ Value.pallas_key k)
          × (k.validator_address ≡ a)
          × (reverse s k.pallas_pk ≡ some (Value.raw a))
    pub to_forward :
        (pk : Bytes) (v : Value)
        → reverse s pk ≡ some v
        → (a : Bytes) × (k : ValidatorPallasKey) × (v ≡ Value.raw a)
          × (a ≢ [])
          × (forward s a ≡ some (Value.pallas_key k))
          × (k.pallas_pk ≡ pk)

  pub forward-write_key :
      (s : S) (k : ValidatorPallasKey) (b : Bytes)
      → forward (write_key s k) b
        ≡ (if bytes_eq k.validator_address b then some (Value.pallas_key k) else forward s b)
  unfolding forward pallas_key_key pallas_key_reverse_lookup_key bytes_eq
  forward-write_key s k b =
      kv.get-set (kv.set s (0x0C ∷ k.validator_address) (Value.pallas_key k)) (0x15 ∷ k.pallas_pk)
        (0x0C ∷ b) (Value.raw k.validator_address)
      ∙ kv.get-set s (0x0C ∷ k.validator_address) (0x0C ∷ b) (Value.pallas_key k)

  pub reverse-write_key :
      (s : S) (k : ValidatorPallasKey) (q : Bytes)
      → reverse (write_key s k) q
        ≡ (if bytes_eq k.pallas_pk q then some (Value.raw k.validator_address) else reverse s q)
  unfolding reverse pallas_key_key pallas_key_reverse_lookup_key bytes_eq
  reverse-write_key s k q =
      kv.get-set (kv.set s (0x0C ∷ k.validator_address) (Value.pallas_key k)) (0x15 ∷ k.pallas_pk)
        (0x15 ∷ q) (Value.raw k.validator_address)
      ∙ ap (λ r. if bytes_eq k.pallas_pk q then some (Value.raw k.validator_address) else r)
          (kv.get-set s (0x0C ∷ k.validator_address) (0x15 ∷ q) (Value.pallas_key k))

  pub forward-delete :
      (s : S) (pk b : Bytes)
      → forward (kv.delete s (pallas_key_reverse_lookup_key pk)) b ≡ forward s b
  unfolding forward pallas_key_key pallas_key_reverse_lookup_key bytes_eq
  forward-delete s pk b = kv.get-delete s (0x15 ∷ pk) (0x0C ∷ b)

  pub reverse-delete :
      (s : S) (pk q : Bytes)
      → reverse (kv.delete s (pallas_key_reverse_lookup_key pk)) q
        ≡ (if bytes_eq pk q then none else reverse s q)
  unfolding reverse pallas_key_reverse_lookup_key bytes_eq
  reverse-delete s pk q = kv.get-delete s (0x15 ∷ pk) (0x15 ∷ q)

  -- Only the entries of validator `a` may be missing from the reverse index.
  pub record AgreeBut (a : Bytes) (s : S) : Type 0 where
    pub to_reverse :
        (b : Bytes) (v : Value)
        → b ≢ a
        → forward s b ≡ some v
        → (k : ValidatorPallasKey) × (v ≡ Value.pallas_key k)
          × (k.validator_address ≡ b)
          × (reverse s k.pallas_pk ≡ some (Value.raw b))
    pub to_forward :
        (pk : Bytes) (v : Value)
        → reverse s pk ≡ some v
        → (b : Bytes) × (k : ValidatorPallasKey) × (v ≡ Value.raw b)
          × (b ≢ [])
          × (b ≢ a)
          × (forward s b ≡ some (Value.pallas_key k))
          × (k.pallas_pk ≡ pk)

  pub Agree-write_key :
      (s : S) (k : ValidatorPallasKey)
      → AgreeBut k.validator_address s
      → k.validator_address ≢ []
      → reverse s k.pallas_pk ≡ none
      → Agree (write_key s k)
  Agree-write_key s k g h n = record {
    to_reverse = λ b v e. elim (Bool-cases (bytes_eq k.validator_address b)) [
      | inl q ↦
          let f = forward-write_key s k b in
          let r = reverse-write_key s k k.pallas_pk in
          let f2 = rw q at f in
          let r2 = rw (bytes_eq_refl k.pallas_pk) at r in
          let p = (bytes_eq_iff k.validator_address b).0 q in
          (k, some_inj (sym e ∙ f2), p, r2 ∙ ap (λ x. some (Value.raw x)) p)
      | inr q ↦
          let f = forward-write_key s k b in
          let f2 = rw q at f in
          let (l, m, o, p) =
            g.to_reverse b v (λ x. absurd_test k.validator_address b (sym x) q) (sym f2 ∙ e) in
          let r = reverse-write_key s k l.pallas_pk in
          let d =
            bytes_eq_ne k.pallas_pk l.pallas_pk
              (λ x. some_ne_none (sym p ∙ ap (reverse s) (sym x) ∙ n)) in
          (l, m, o, (let r2 = rw d at r in r2 ∙ p))
    ];
    to_forward = λ pk v e. elim (Bool-cases (bytes_eq k.pallas_pk pk)) [
      | inl q ↦
          let r = reverse-write_key s k pk in
          let r2 = rw q at r in
          let f = forward-write_key s k k.validator_address in
          let f2 = rw (bytes_eq_refl k.validator_address) at f in
          (k.validator_address, k, some_inj (sym e ∙ r2), h, f2, (bytes_eq_iff k.pallas_pk pk).0 q)
      | inr q ↦
          let r = reverse-write_key s k pk in
          let r2 = rw q at r in
          let (b, l, m, o, p, w, x) = g.to_forward pk v (sym r2 ∙ e) in
          let f = forward-write_key s k b in
          let f2 = rw (bytes_eq_ne k.validator_address b (λ y. p (sym y))) at f in
          (b, l, m, o, f2 ∙ w, x)
    ];
  }

  -- Without an entry of `a`, nothing may be missing.
  pub AgreeBut-absent : (s : S) (a : Bytes) → Agree s → forward s a ≡ none → AgreeBut a s
  AgreeBut-absent s a g n = record {
    to_reverse = λ b v ne e. g.to_reverse b v e;
    to_forward = λ pk v e.
        let (b, l, m, o, w, x) = g.to_forward pk v e in
        (b, l, m, o, (λ y. some_ne_none (sym w ∙ ap (forward s) y ∙ n)), w, x);
  }

  -- A registered key leads back to its validator.
  pub Agree-key :
      (s : S) (a : Bytes) (k : ValidatorPallasKey)
      → Agree s
      → forward s a ≡ some (Value.pallas_key k)
      → (k.validator_address ≡ a) × (reverse s k.pallas_pk ≡ some (Value.raw a))
  Agree-key s a k g h =
      let (l, m, o, p) = g.to_reverse a (Value.pallas_key k) h in
      let q = pallas_key_inj k l m in
      (ap (λ x. x.validator_address) q ∙ o, ap (λ x. reverse s x.pallas_pk) q ∙ p)

  -- Deleting the index entry of a validator's key.
  pub AgreeBut-delete :
      (s : S) (a : Bytes) (k : ValidatorPallasKey)
      → Agree s
      → forward s a ≡ some (Value.pallas_key k)
      → AgreeBut a (kv.delete s (pallas_key_reverse_lookup_key k.pallas_pk))
  AgreeBut-delete s a k g h = record {
    to_reverse = λ b v ne e.
        let (l, m, o, p) = g.to_reverse b v (sym (forward-delete s k.pallas_pk b) ∙ e) in
        let r = reverse-delete s k.pallas_pk l.pallas_pk in
        let d = bytes_eq_ne k.pallas_pk l.pallas_pk (λ x.
          ne (raw_inj b a (some_inj (sym p ∙ ap (reverse s) (sym x) ∙ (Agree-key s a k g h).1)))) in
        (l, m, o, (let r2 = rw d at r in r2 ∙ p));
    to_forward = λ pk v e. elim (Bool-cases (bytes_eq k.pallas_pk pk)) [
      | inl q ↦
          let r = reverse-delete s k.pallas_pk pk in
          let r2 = rw q at r in absurd (some_ne_none (sym e ∙ r2))
      | inr q ↦
          let r = reverse-delete s k.pallas_pk pk in
          let r2 = rw q at r in
          let (b, l, m, o, w, x) = g.to_forward pk v (sym r2 ∙ e) in
          (
            b,
            l,
            m,
            o,
            (λ y.
                let z = pallas_key_inj k l (some_inj (sym h ∙ ap (forward s) (sym y) ∙ w)) in
                absurd_test k.pallas_pk pk (ap (λ t. t.pallas_pk) z ∙ x) q),
            forward-delete s k.pallas_pk b ∙ w,
            x,
          )
    ];
  }

  pub reverse-delete-none :
      (s : S) (pk q : Bytes)
      → reverse s q ≡ none
      → reverse (kv.delete s (pallas_key_reverse_lookup_key pk)) q ≡ none
  reverse-delete-none s pk q h =
      reverse-delete s pk q
      ∙ ap (λ r. if bytes_eq pk q then none else r) h
      ∙ both_none (bytes_eq pk q)

  -- The owner that the index gives for a taken key is not "".
  pub owner_named :
      (s : S) (pk : Bytes) (v : Value)
      → Agree s
      → reverse s pk ≡ some v
      → (a : Bytes) × (v ≡ Value.raw a) × ((length a == 0) ≡ false)
  owner_named s pk v g e = let (a, k, m, ne, _, _) = g.to_forward pk v e in (a, m, nonempty a ne)
