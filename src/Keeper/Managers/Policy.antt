-- ===== src/Keeper/Managers/Policy.antt =====
-- What an admissible coordinator policy is (`ValidateAndNormalizeVoteManagerPolicy`).
use vote_sdk.Base.{
  ℕ, ◌≤◌, ◌≡◌, refl, sym, inl, inr, subst, ◌⊎◌, false, Option, some, List, [], ◌∷◌, Bytes, bytes_eq,
  Result, ok, err, length, any, In, Distinct, Bool-cases, Option-cases, arith, unlisted, uint32,
  ltb, ◌==◌, map,
}
use vote_sdk.Keeper.Managers.{
  normalize_managers, validate_and_normalize_vote_manager_policy, normalize_vote_manager_threshold,
  checked_policy, put_first,
}

-- The loop keeps the order and the number of the addresses, and refuses a repeated one.
record Normalized (normalize : Bytes → Option Bytes) (seen addrs ns : List Bytes) : Type 0 where
  canonical : map normalize addrs ≡ map some ns
  distinct : Distinct ns
  fresh : (a : Bytes) → In a ns → In a seen → ⊥

normalize_managers-Normalized :
    (normalize : Bytes → Option Bytes) (seen addrs ns : List Bytes)
    → normalize_managers normalize seen addrs ≡ ok ns
    → Normalized normalize seen addrs ns
unfolding normalize_managers
normalize_managers-Normalized normalize seen [] ns h =
    let e : ns ≡ [] = sym (cc h) in
    record {
      canonical = rw e refl;
      distinct = rw e tt;
      fresh = λ a m s. let z = rw e at m in absurd z;
    }
normalize_managers-Normalized normalize seen (addr ∷ rest) ns h =
    elim (Option-cases (normalize addr)) [
      | inl e ↦ absurd (let z = rw (e, normalize_managers) at h in cc z)
      | inr (c, e) ↦ elim (Bool-cases (any (bytes_eq c) seen)) [
        | inl q ↦ absurd (let z = rw (e, q, normalize_managers) at h in cc z)
        | inr q ↦
            with_rest c e q (normalize_managers normalize (c ∷ seen) rest)
              (normalize_managers-Normalized normalize (c ∷ seen) rest)
              (let z = rw (e, q, normalize_managers) at h in z)
      ]
    ]
  where
    with_rest :
        (c : Bytes)
        → normalize addr ≡ some c
        → any (bytes_eq c) seen ≡ false
        → (r : Result (List Bytes))
        → ((ms : List Bytes) → r ≡ ok ms → Normalized normalize (c ∷ seen) rest ms)
        → put_first c r ≡ ok ns
        → Normalized normalize seen (addr ∷ rest) ns
    with_rest c e q (err x) ih k = cc k
    with_rest c e q (ok ms) ih k =
        let g = ih ms refl in
        let p : ns ≡ c ∷ ms = sym (cc k) in
        record {
          canonical = rw (p, e, g.canonical) refl;
          distinct = rw p (λ m. g.fresh c m (inl refl), g.distinct);
          fresh = λ a m s. head_or_tail g a s (rw p at m);
        }
      where
        head_or_tail :
            Normalized normalize (c ∷ seen) rest ms
            → (a : Bytes) → In a seen
            → (a ≡ c) ⊎ In a ms
            → ⊥
        head_or_tail g a s (inl w) = unlisted c seen q (subst (λ x. In x seen) w s)
        head_or_tail g a s (inr m) = g.fresh a m (inr s)

policy-ok :
    (threshold t : ℕ) (ms ns : List Bytes)
    → checked_policy threshold (ok ms) ≡ ok (ns, t)
    → (ms ≡ ns) × (1 ≤ t) × (t ≤ length ns)
policy-ok threshold t ms ns h =
    let e = normalize_vote_manager_threshold threshold in
    elim (Bool-cases (ltb e 1)) [
      | inl a ↦ absurd (let z = rw a at h in cc z)
      | inr a ↦ elim (Bool-cases (ltb (uint32 (length ms)) e)) [
        | inl b ↦ absurd (let z = rw (a, b) at h in cc z)
        | inr b ↦
            let z = rw (a, b) at h in
            let p : ms ≡ ns = cc z in
            let q : e ≡ t = cc z in
            (
              p,
              subst (λ x. 1 ≤ x) q (ground arith),
              subst (λ x. x ≤ length ns) q (subst (λ x. e ≤ length x) p (ground arith)),
            )
      ]
    ]

-- A policy that is accepted lists the canonical forms of its addresses in order, each once, with
-- a threshold of at least 1 and at most their number.
pub validate_and_normalize_vote_manager_policy-bounds :
    (normalize : Bytes → Option Bytes) (addrs ns : List Bytes) (threshold t : ℕ)
    → validate_and_normalize_vote_manager_policy normalize addrs threshold ≡ ok (ns, t)
    → (map normalize addrs ≡ map some ns) × Distinct ns × (1 ≤ t) × (t ≤ length ns)
unfolding validate_and_normalize_vote_manager_policy
validate_and_normalize_vote_manager_policy-bounds normalize addrs ns threshold t h =
    elim (Bool-cases (length addrs == 0)) [
      | inl e ↦ absurd (let z = rw e at h in cc z)
      | inr e ↦
          with_list (normalize_managers normalize [] addrs)
            (λ ms. normalize_managers-Normalized normalize [] addrs ms) (let z = rw e at h in z)
    ]
  where
    with_list :
        (r : Result (List Bytes))
        → ((ms : List Bytes) → r ≡ ok ms → Normalized normalize [] addrs ms)
        → checked_policy threshold r ≡ ok (ns, t)
        → (map normalize addrs ≡ map some ns) × Distinct ns × (1 ≤ t) × (t ≤ length ns)
    with_list (err x) g k = cc k
    with_list (ok ms) g k =
        let (p, lo, hi) = policy-ok threshold t ms ns k in
        let n = g ms refl in
        (
          subst (λ x. map normalize addrs ≡ map some x) p n.canonical,
          subst Distinct p n.distinct,
          lo,
          hi,
        )
