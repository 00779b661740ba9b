-- ===== src/Base/Call.antt =====
-- A call of the source that may fail: its result, and the store that it leaves, also after an
-- error, as in Go. `Result` is the outcome alone.
use mathlib.Core.Bool.{Bool, true, false}
use mathlib.Core.Option.{Option, none, some}
use mathlib.Core.Path.{◌≡◌, refl, sym, ap, subst}
use mathlib.Core.List.{List, [], ◌∷◌}
use vote_sdk.Base.Tests.{if◌then◌else◌}

-- The sentinel errors of x/vote/types/errors.go, and one name for each other kind of failure.
pub data Error : Type 0 where
  invalid_round_id_len : Error
  invalid_field : Error
  round_not_found : Error
  round_not_active : Error
  round_not_tallying : Error
  round_already_exists : Error
  duplicate_nullifier : Error
  invalid_proposal_id : Error
  invalid_anchor_height : Error
  tally_mismatch : Error
  ceremony_wrong_status : Error
  ceremony_session_active : Error
  insufficient_validators : Error
  not_registered_validator : Error
  duplicate_contribution : Error
  duplicate_ack : Error
  invalid_threshold : Error
  payload_mismatch : Error
  invalid_pallas_point : Error
  duplicate_registration : Error
  duplicate_pallas_key : Error
  no_pallas_key : Error
  same_key : Error
  ceremony_in_progress : Error
  no_vote_managers : Error
  not_authorized : Error
  empty_vote_manager_set : Error
  invalid_coordinator_action : Error
  coordinator_action_not_found : Error
  coordinator_action_expired : Error
  coordinator_already_approved : Error
  duplicate_vote_manager : Error
  upgrade_unavailable : Error
  upgrade_plan_exists : Error
  unsupported_coordinator_action : Error
  invalid_endorser_id : Error
  endorser_not_found : Error
  invalid_signature : Error
  invalid_proof : Error
  malformed : Error
  external : Error
  panicked : Error

pub data Result (A : Type 0) : Type 0 where
  ok : A → Result A
  err : Error → Result A

abbrev pub Action : Type 0 → Type 0 → Type 0
Action S A = S → Result A × S

-- Calls that return only an `error`.
abbrev pub Done : Type 0
Done = Unit

module _ {S A : Type 0} where
  unfoldable pub pure : A → Action S A
  pure a s = (ok a, s)

  unfoldable pub raise : Error → Action S A
  raise e s = (err e, s)

  unfoldable pub lift : Result A → Action S A
  lift r s = (r, s)

  unfoldable pub gets : (S → A) → Action S A
  gets f s = (ok (f s), s)

  unfoldable pub or_raise : Option A → Error → Action S A
  or_raise none e s = (err e, s)
  or_raise (some a) e s = (ok a, s)

-- `if cond { return err }`
unfoldable pub raise_if : {S : Type 0} → Bool → Error → Action S Done
raise_if true e s = (err e, s)
raise_if false e s = (ok tt, s)

unfoldable pub modify : {S : Type 0} → (S → S) → Action S Done
modify f s = (ok tt, f s)

-- An error ends the call; what was written before it stays written.
abbrev proceed : {S A B : Type 0} → (A → Action S B) → Result A → S → Result B × S
proceed f (ok a) t = f a t
proceed f (err e) t = (err e, t)

infixl 5 ◌>>=◌ ◌>>◌
unfoldable pub ◌>>=◌ : {S A B : Type 0} → Action S A → (A → Action S B) → Action S B
unfolding pure raise lift gets or_raise raise_if modify
◌>>=◌ m f s = let (r, t) = m s in proceed f r t

abbrev pub ◌>>◌ : {S A B : Type 0} → Action S A → Action S B → Action S B
m >> k = m >>= λ _. k

-- `for _, x := range xs { if err := body(x); err != nil { return err } }`
unfoldable pub for_each : {S A : Type 0} → (A → Action S Done) → List A → Action S Done
unfolding ◌>>=◌
for_each body [] = pure tt
for_each body (x ∷ xs) = body x >> for_each body xs

-- One check behind another, with no store.
abbrev pub then_check : {A B : Type 0} → Result A → Result B → Result B
then_check (ok _) r = r
then_check (err e) _ = err e

-- `if bad { return err }` in code that reads no store.
abbrev pub reject_if : Bool → Error → Result Done
reject_if true e = err e
reject_if false e = ok tt

-- Checks in order, up to the first that fails.
abbrev pub checks : List (Result Done) → Result Done
checks [] = ok tt
checks (c ∷ rest) = then_check c (checks rest)

-- A property of the store that a call keeps, whether it returns or fails.
pub record Preserves {S A : Type 0} (P : S → Type 0) (m : Action S A) : Type 0 where
  pub after : (s : S) → P s → P (m s).1

module _ {S A : Type 0} {P : S → Type 0} where
  pub Preserves-pure : (a : A) → Preserves P (pure a)
  unfolding pure
  Preserves-pure a = record { after = λ s h. h }

  pub Preserves-raise : (e : Error) → Preserves P (raise {A = A} e)
  unfolding raise
  Preserves-raise e = record { after = λ s h. h }

  pub Preserves-lift : (r : Result A) → Preserves P (lift r)
  unfolding lift
  Preserves-lift r = record { after = λ s h. h }

  pub Preserves-gets : (f : S → A) → Preserves P (gets f)
  unfolding gets
  Preserves-gets f = record { after = λ s h. h }

  pub Preserves-or_raise : (o : Option A) (e : Error) → Preserves P (or_raise o e)
  unfolding or_raise
  Preserves-or_raise none e = record { after = λ s h. h }
  Preserves-or_raise (some a) e = record { after = λ s h. h }

  pub Preserves-if :
      (b : Bool) (m n : Action S A)
      → Preserves P m
      → Preserves P n
      → Preserves P (if b then m else n)
  Preserves-if true m n hm hn = hm
  Preserves-if false m n hm hn = hn

module _ {S : Type 0} {P : S → Type 0} where
  pub Preserves-raise_if : (b : Bool) (e : Error) → Preserves P (raise_if b e)
  unfolding raise_if
  Preserves-raise_if true e = record { after = λ s h. h }
  Preserves-raise_if false e = record { after = λ s h. h }

module _ {S A B : Type 0} {P : S → Type 0} where
  proceed-P :
      (f : A → Action S B) (r : Result A) (s : S)
      → ((a : A) → Preserves P (f a))
      → P s
      → P (proceed f r s).1
  proceed-P f (ok a) s hf h = (hf a).after s h
  proceed-P f (err e) s hf h = h

  pub Preserves-bind :
      (m : Action S A) (f : A → Action S B)
      → Preserves P m
      → ((a : A) → Preserves P (f a))
      → Preserves P (m >>= f)
  unfolding ◌>>=◌
  Preserves-bind m f hm hf = record { after = λ s h. proceed-P f (m s).0 (m s).1 hf (hm.after s h) }

module _ {S A : Type 0} {P : S → Type 0} where
  pub Preserves-for_each :
      (body : A → Action S Done) (xs : List A)
      → ((a : A) → Preserves P (body a))
      → Preserves P (for_each body xs)
  unfolding for_each
  Preserves-for_each body [] h = Preserves-pure tt
  Preserves-for_each body (x ∷ xs) h =
      Preserves-bind (body x) (λ _. for_each body xs) (h x) (λ _. Preserves-for_each body xs h)

module _ {S A B : Type 0} {P : S → Type 0} where
  -- The rest of a call may use what the option holds.
  pub Preserves-or_raise_then :
      (o : Option A) (e : Error) (f : A → Action S B)
      → ((a : A) → o ≡ some a → Preserves P (f a))
      → Preserves P (or_raise o e >>= f)
  unfolding ◌>>=◌
  Preserves-or_raise_then none e f h = record { after = λ s p. p }
  Preserves-or_raise_then (some a) e f h = record { after = λ s p. (h a refl).after s p }

-- `search preserves_rules` walks a `do` block.
pub ruleset preserves_rules = (
  Preserves-pure, Preserves-raise, Preserves-lift, Preserves-gets, Preserves-or_raise,
  Preserves-raise_if, Preserves-if, Preserves-bind, Preserves-for_each,
)

-- A call that returned went through its first part.
pub >>=-eq-ok :
    {S A B : Type 0} (m : Action S A) (f : A → Action S B) (s t : S) {b : B}
    → (m >>= f) s ≡ (ok b, t)
    → (a : A) × (u : S) × (m s ≡ (ok a, u)) × (f a u ≡ (ok b, t))
unfolding ◌>>=◌
>>=-eq-ok {S} {A} {B} m f s t {b} h = split (m s).0 (m s).1 refl h
  where
    split :
        (r : Result A) (u : S)
        → m s ≡ (r, u)
        → proceed f r u ≡ (ok b, t)
        → (a : A) × (u : S) × (m s ≡ (ok a, u)) × (f a u ≡ (ok b, t))
    split (ok a) u e k = (a, u, e, k)
    split (err x) u e k = cc

-- A call whose outcome is known, with the store that it leaves.
pub pair_eq : {S A : Type 0} (p : Result A × S) (a : A) → p.0 ≡ ok a → p ≡ (ok a, p.1)
pair_eq p a e = ap (λ r. (r, p.1)) e

pub raise_if-false :
    {S : Type 0} (b : Bool) (e : Error) (s t : S)
    → raise_if b e s ≡ (ok tt, t)
    → (b ≡ false) × (t ≡ s)
unfolding raise_if
raise_if-false true e s t h = cc
raise_if-false false e s t h = (refl, sym (ap (λ x. x.1) h))

pub lift-ok : {S A : Type 0} (r : Result A) (a : A) (s t : S) → lift r s ≡ (ok a, t) → r ≡ ok a
unfolding lift
lift-ok r a s t h = ap (λ x. x.0) h

-- A call that only reads, and the rest of the handler.
pub read_step :
    {S A B : Type 0} (m : Action S A) (f : A → Action S B) (s t : S) {b : B}
    → Preserves (λ u. u ≡ s) m
    → (m >>= f) s ≡ (ok b, t)
    → (a : A) × (m s ≡ (ok a, s)) × (f a s ≡ (ok b, t))
read_step {S} {A} {B} m f s t {b} keeps h =
    let (a, u, e, k) = >>=-eq-ok m f s t h in
    unmoved a u (subst (λ x. x ≡ s) (ap (λ y. y.1) e) (keeps.after s refl)) e k
  where
    unmoved :
        (a : A) (u : S)
        → u ≡ s
        → m s ≡ (ok a, u)
        → f a u ≡ (ok b, t)
        → (a : A) × (m s ≡ (ok a, s)) × (f a s ≡ (ok b, t))
    unmoved a u q e k = (a, rw q at e, rw q at k)

pub pure-ok : {S A : Type 0} (a b : A) (s t : S) → pure a s ≡ (ok b, t) → (b ≡ a) × (t ≡ s)
unfolding pure
pure-ok a b s t h = (sym (ok_inj a b (ap (λ x. x.0) h)), sym (ap (λ x. x.1) h))
  where
    ok_inj : {A : Type 0} (a b : A) → ◌≡◌ {A = Result A} (ok a) (ok b) → a ≡ b
    ok_inj a b e = cc e

pub or_raise-ok :
    {S A : Type 0} (o : Option A) (e : Error) (s t : S) (a : A)
    → or_raise o e s ≡ (ok a, t)
    → (o ≡ some a) × (t ≡ s)
unfolding or_raise
or_raise-ok none e s t a h = cc h
or_raise-ok (some b) e s t a h = (cc h, sym (ap (λ x. x.1) h))
