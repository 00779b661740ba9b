-- ===== src/Crypto/Bsgs/Solves.antt =====
-- The search finds every logarithm below its bound (crypto/elgamal/bsgs.go).
use vote_sdk.Base.{
  ℕ, zero, suc, ◌+◌, ◌-◌, ◌*◌, ◌%◌, ◌^◌, ◌≤◌, ◌<◌, ◌≡◌, ◌≢◌, refl, sym, ap, ◌∙◌, inl, inr, true,
  false, none, some, [], ◌∷◌, Bytes, bytes_eq, bytes_eq_ne, bytes_eq_iff, ok, ltb, leb, ◌==◌, add64,
  arith, Bool-cases, all, ◌⊎◌, some_inj,
}
use native.Mathlib.Nat.{zero-mul, suc-mul}
use vote_sdk.Crypto.{Curve}
use vote_sdk.Crypto.Bsgs.{
  Steps, find_key, looked_up, BsgsTable, ceil_sqrt, baby_steps, new_bsgs_table, giant_steps, solve,
}
use vote_sdk.Crypto.ElGamal.{value_point}

-- What the search relies on of the scalars: numbers count multiples of the generator, which are
-- pairwise different below the bound of the search, as the order of the curve is above 2^64.
pub record Counts {P F : Type 0} (c : Curve P F) (bound : ℕ) : Type 0 where
  pub at_zero : value_point c 0 ≡ c.identity
  pub at_one : value_point c 1 ≡ c.generator
  pub at_sum : (a b : ℕ) → value_point c (a + b) ≡ c.add (value_point c a) (value_point c b)
  pub apart : (a b : ℕ) → a < bound → b < bound → value_point c a ≡ value_point c b → a ≡ b

module _ {P F : Type 0} (c : Curve P F) where
  -- Compressed points tell points apart.
  compressed-injective : (p q : P) → c.to_affine_compressed p ≡ c.to_affine_compressed q → p ≡ q
  compressed-injective p q e = elim (Bool-cases (c.is_identity p)) [
    | inl i ↦
        let j : c.is_identity q ≡ true =
          sym (c.compressed_zero q) ∙ ap (all (λ b. b == 0)) (sym e) ∙ c.compressed_zero p ∙ i in
        (c.is_identity_iff p).0 i ∙ sym ((c.is_identity_iff q).0 j)
    | inr i ↦
        let j : c.is_identity q ≡ false =
          sym (c.compressed_zero q) ∙ ap (all (λ b. b == 0)) (sym e) ∙ c.compressed_zero p ∙ i in
        some_inj (
          sym (c.decompress_compress p i)
          ∙ ap c.from_affine_compressed e
          ∙ c.decompress_compress q j)
  ]

  module _ (n : ℕ) (small : n < 2 ^ 64) (counts : Counts c n) where
    abbrev key_of : ℕ → Bytes
    key_of r = c.to_affine_compressed (value_point c r)

    key-apart : (a b : ℕ) → a < n → b < n → a ≢ b → bytes_eq (key_of a) (key_of b) ≡ false
    key-apart a b ha hb ne = bytes_eq_ne _ _ (λ e.
        ne (counts.apart a b ha hb (compressed-injective (value_point c a) (value_point c b) e)))

    -- The next multiple, as the loop computes it.
    next :
        (k j : ℕ) (t : Steps)
        → j < n
        → baby_steps c k (add64 j 1) (c.add (value_point c j) c.generator) t
          ≡ baby_steps c k (j + 1) (value_point c (j + 1)) t
    next k j t h =
        let e : add64 j 1 ≡ j + 1 = omega (arith, small, h) in
        let f : c.add (value_point c j) c.generator ≡ value_point c (j + 1) =
          ap (c.add (value_point c j)) (sym counts.at_one) ∙ sym (counts.at_sum j 1) in
        ap (λ x. baby_steps c k x (c.add (value_point c j) c.generator) t) e
        ∙ ap (λ x. baby_steps c k (j + 1) x t) f

    -- A key that no baby step has is looked up in the entries before.
    miss :
        (k j r : ℕ) (t : Steps)
        → j + k ≤ n
        → r < n
        → (r < j) ⊎ (j + k ≤ r)
        → find_key (baby_steps c k j (value_point c j) t) (key_of r) ≡ find_key t (key_of r)
    unfolding baby_steps find_key
    miss zero j r t hj hr out = refl
    miss (suc k) j r t hj hr out =
        let ne : j ≢ r = λ e. omega (arith, e, out) in
        let d = key-apart j r (omega (arith, hj)) hr ne in
        let u : Steps = (key_of j, j) ∷ t in
        let one : find_key u (key_of r) ≡ find_key t (key_of r) = rw d refl in
        ap (λ x. find_key x (key_of r)) (next k j u (omega (arith, hj)))
        ∙ miss k (j + 1) r u (omega (arith, hj)) hr
            (elim out [ inl a ↦ inl (omega (arith, a)) | inr b ↦ inr (omega (arith, b)) ])
        ∙ one

    hit :
        (k j r : ℕ) (t : Steps)
        → j + k ≤ n
        → j ≤ r
        → r < j + k
        → find_key (baby_steps c k j (value_point c j) t) (key_of r) ≡ some r
    unfolding baby_steps find_key
    hit zero j r t hj lo hi = absurd (omega (arith, lo, hi))
    hit (suc k) j r t hj lo hi =
        let u : Steps = (key_of j, j) ∷ t in
        ap (λ x. find_key x (key_of r)) (next k j u (omega (arith, hj)))
        ∙ elim (Bool-cases (j == r)) [
          | inl e ↦
              let same : j ≡ r = ground (arith, e) in
              let b : bytes_eq (key_of j) (key_of r) ≡ true =
                (bytes_eq_iff (key_of j) (key_of r)).1 (ap key_of same) in
              let here : find_key u (key_of r) ≡ some j = rw b refl in
              miss k (j + 1) r u (omega (arith, hj)) (omega (arith, hj, hi))
                (inl (omega (arith, same)))
              ∙ here
              ∙ ap some same
          | inr e ↦ hit k (j + 1) r u (omega (arith, hj)) (ground (arith, lo)) (omega (arith, hi))
        ]

    module _ (m : ℕ) (positive : 1 ≤ m) (le : m ≤ n) where
      abbrev built : BsgsTable P
      built = record { table = baby_steps c m 0 c.identity []; m = m; m_g = value_point c m; n = n }

      found : (r : ℕ) → r < m → find_key (baby_steps c m 0 c.identity []) (key_of r) ≡ some r
      found r h =
          ap (λ p. find_key (baby_steps c m 0 p []) (key_of r)) (sym counts.at_zero)
          ∙ hit m 0 r [] (omega (arith, le)) (omega arith) (omega (arith, h))

      not_found :
          (r : ℕ) → m ≤ r → r < n → find_key (baby_steps c m 0 c.identity []) (key_of r) ≡ none
      unfolding find_key
      not_found r h hr =
          ap (λ p. find_key (baby_steps c m 0 p []) (key_of r)) (sym counts.at_zero)
          ∙ miss m 0 r [] (omega (arith, le)) hr (inr (omega (arith, h)))

      stride : (r : ℕ) → m ≤ r → c.sub (value_point c r) (value_point c m) ≡ value_point c (r - m)
      stride r h =
          let e : r ≡ (r - m) + m = omega (arith, h) in
          ap (λ x. c.sub x (value_point c m)) (ap (value_point c) e ∙ counts.at_sum (r - m) m)
          ∙ c.add_sub (value_point c (r - m)) (value_point c m)

      step :
          (k i r : ℕ)
          → giant_steps c built (suc k) i (value_point c r)
            ≡ looked_up built i
                (find_key (baby_steps c m 0 c.identity []) (key_of r))
                (giant_steps c built k (add64 i 1) (c.sub (value_point c r) (value_point c m)))
      unfolding giant_steps
      step k i r = refl

      -- With `k` giant steps left, a logarithm below k · m is found.
      giant :
          (k i r base : ℕ)
          → base ≡ i * m
          → i ≤ base
          → base + r < n
          → r < k * m
          → giant_steps c built k i (value_point c r) ≡ ok (base + r)
      giant zero i r base e le_base hn hk =
          absurd (let z = rw (zero-mul m) at hk in omega (arith, z))
      giant (suc k) i r base e le_base hn hk = elim (Bool-cases (ltb r m)) [
        | inl s ↦
            let f = found r (ground (arith, s)) in
            let q : (i * m + r) % 2 ^ 64 ≡ base + r = rw (← e) (omega (arith, hn, small)) in
            let b : ltb (base + r) n ≡ true = ground (arith, hn) in
            let hit_here : looked_up built i (some r)
                  (giant_steps c built k (add64 i 1) (c.sub (value_point c r) (value_point c m)))
                ≡ ok (base + r) =
              rw (q, b) refl in
            step k i r
            ∙ ap
                (λ o.
                  looked_up built i o
                    (giant_steps c built k (add64 i 1) (c.sub (value_point c r) (value_point c m))))
                f
            ∙ hit_here
        | inr s ↦
            let ge : m ≤ r = ground (arith, s) in
            let f = not_found r ge (omega (arith, hn)) in
            let z = rw (suc-mul k m) at hk in
            let a : add64 i 1 ≡ suc i = omega (arith, le_base, hn, small) in
            let p : base + m ≡ suc i * m = rw (suc-mul i m) (ap (λ x. x + m) e) in
            step k i r
            ∙ ap
                (λ o.
                  looked_up built i o
                    (giant_steps c built k (add64 i 1) (c.sub (value_point c r) (value_point c m))))
                f
            ∙ ap (λ x. giant_steps c built k x (c.sub (value_point c r) (value_point c m))) a
            ∙ ap (giant_steps c built k (suc i)) (stride r ge)
            ∙ (giant k (suc i) (r - m) (base + m) p (omega (arith, le_base, positive))
                  (omega (arith, hn, ge)) (omega (arith, z, ge))
                ∙ ap ok (omega (arith, ge)))
      ]

square_ge : (s : ℕ) → s ≤ s * s
square_ge zero = omega arith
square_ge (suc s) = let e = suc-mul s (suc s) in rw e (omega arith)

-- The square root is rounded up: its square reaches n, and it is at most n.
pub ceil_sqrt-bounds :
    (f : ℕ → ℕ) (n : ℕ)
    → n < 2 ^ 64
    → 1 ≤ n
    → f n ≤ n
    → n ≤ (f n + 1) * (f n + 1)
    → (n ≤ ceil_sqrt f n * ceil_sqrt f n) × (ceil_sqrt f n ≤ n) × (1 ≤ ceil_sqrt f n)
unfolding ceil_sqrt
ceil_sqrt-bounds f n small pos le near = elim (Bool-cases (leb n 1)) [
  | inl e ↦ rw e (square_ge n, omega arith, pos)
  | inr e ↦ elim (Bool-cases (ltb (f n * f n) n)) [
    | inl q ↦
        let s = f n in
        let below : f n * f n < n = ground (arith, q) in
        let up : add64 (f n) 1 ≡ f n + 1 = omega (arith, small, below, square_ge (f n)) in
        rw (e, q, up) (near, omega (arith, below, square_ge (f n)), omega arith)
    | inr q ↦
        let above : n ≤ f n * f n = ground (arith, q) in
        rw (e, q) (above, le, positive_root (f n) n pos above)
  ]
]
  where
    positive_root : (s n : ℕ) → 1 ≤ n → n ≤ s * s → 1 ≤ s
    positive_root zero n pos h = omega (arith, pos, h)
    positive_root (suc s) n pos h = omega arith

module _ {P F : Type 0} (c : Curve P F) where
  table-built :
      (f : ℕ → ℕ) (n : ℕ) (small : n < 2 ^ 64) (counts : Counts c n) (p : 1 ≤ ceil_sqrt f n)
      (l : ceil_sqrt f n ≤ n)
      → (n == 0) ≡ false
      → new_bsgs_table c f n ≡ built c n small counts (ceil_sqrt f n) p l
  unfolding new_bsgs_table value_point
  table-built f n small counts p l z = rw z refl

  solve-giant :
      (t : BsgsTable P) (h : P) → (t.n == 0) ≡ false → solve c t h ≡ giant_steps c t (suc t.m) 0 h
  unfolding solve
  solve-giant t h z = rw z refl

  -- The search finds every logarithm below its bound n, in at most m + 1 giant steps for m the
  -- rounded-up root of n, where the floating-point root is at most n and not more than 1 too small,
  -- and the multiples of the generator below n are pairwise different.
  pub solve-value_point :
      (float_ceil_sqrt : ℕ → ℕ) (n x : ℕ)
      → n < 2 ^ 64
      → float_ceil_sqrt n ≤ n
      → n ≤ (float_ceil_sqrt n + 1) * (float_ceil_sqrt n + 1)
      → Counts c n
      → x < n
      → solve c (new_bsgs_table c float_ceil_sqrt n) (value_point c x) ≡ ok x
  solve-value_point f n x small le near counts h =
      let pos : 1 ≤ n = omega (arith, h) in
      let (reach, at_most, positive) = ceil_sqrt-bounds f n small pos le near in
      let m = ceil_sqrt f n in
      let z : (n == 0) ≡ false = ground (arith, pos) in
      let k : x < suc m * m = rw (suc-mul m m) (omega (arith, reach, h)) in
      let t = built c n small counts m positive at_most in
      ap (λ t. solve c t (value_point c x)) (table-built f n small counts positive at_most z)
      ∙ solve-giant t (value_point c x) z
      ∙ giant c n small counts m positive at_most (suc m) 0 x 0 (sym (zero-mul m)) (omega arith)
          (omega (arith, h)) k
      ∙ ap ok (omega arith)
