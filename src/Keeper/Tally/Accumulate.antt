-- ===== src/Keeper/Tally/Accumulate.antt =====
-- Adding shares to accumulators (x/vote/keeper/keeper_tally.go, `AddToTally`).
use vote_sdk.Base.{◌≡◌, refl, sym, ap, ◌∙◌, some, Bytes, Result, ok, err, ℕ, bytes_eq_refl, ◌>>=◌}
use vote_sdk.Types.{Value}
use vote_sdk.Kv.{KvStore, kv_get, kv_set}
use vote_sdk.Keys.{tally_key}
use vote_sdk.Crypto.{Curve}
use vote_sdk.Crypto.ElGamal.{
  Ciphertext, and_then, homomorphic_add, marshal_ciphertext, unmarshal_ciphertext,
}
use vote_sdk.Crypto.ElGamal.Laws.{unmarshal-marshal}
use vote_sdk.Keeper.Tally.{accumulated, validate_non_identity_ciphertext, add_to_tally, get_tally}

module _ {P F : Type 0} (c : Curve P F) where
  unmarshal-of :
      (ct : Ciphertext P) (b : Bytes)
      → marshal_ciphertext c ct ≡ ok b
      → unmarshal_ciphertext c b ≡ ok ct
  unmarshal-of ct b h =
      sym (ap (λ r. and_then r (unmarshal_ciphertext c)) h) ∙ unmarshal-marshal c ct

  marshal-total : (ct : Ciphertext P) → (b : Bytes) × (marshal_ciphertext c ct ≡ ok b)
  marshal-total ct = marshalled (marshal_ciphertext c ct) (unmarshal-marshal c ct)
    where
      marshalled :
          (r : Result Bytes)
          → and_then r (unmarshal_ciphertext c) ≡ ok ct
          → (b : Bytes) × (r ≡ ok b)
      marshalled (ok b) h = (b, refl)
      marshalled (err e) h = cc

  -- Onto an accumulator that holds `acc`, a share whose sum with it has no identity component is
  -- added: the new bytes decode to the homomorphic sum.
  accumulated-sum :
      (acc share : Ciphertext P) (stored enc : Bytes)
      → unmarshal_ciphertext c stored ≡ ok acc
      → unmarshal_ciphertext c enc ≡ ok share
      → validate_non_identity_ciphertext c share ≡ ok tt
      → validate_non_identity_ciphertext c (homomorphic_add c acc share) ≡ ok tt
      → (b : Bytes) × (accumulated c (some (Value.raw stored)) enc ≡ ok b)
        × (unmarshal_ciphertext c b ≡ ok (homomorphic_add c acc share))
  unfolding accumulated
  accumulated-sum acc share stored enc h1 h2 h3 h4 =
      let (b, e) = marshal-total (homomorphic_add c acc share) in
      (b, rw (h1, h2, h3, h4) e, unmarshal-of (homomorphic_add c acc share) b e)

module _ {S P F : Type 0} ⦃kv : KvStore S⦄ (c : Curve P F) where
  -- Where the accumulator of a tuple decodes to `acc` and an encrypted share to `share`, neither the
  -- share nor the sum having an identity component, adding the share succeeds, and the accumulator
  -- then decodes to the homomorphic sum of the two.
  pub add_to_tally-sum :
      (round_id key stored enc : Bytes) (p d : ℕ) (acc share : Ciphertext P) (s : S)
      → tally_key round_id p d ≡ ok key
      → kv.get s key ≡ some (Value.raw stored)
      → unmarshal_ciphertext c stored ≡ ok acc
      → unmarshal_ciphertext c enc ≡ ok share
      → validate_non_identity_ciphertext c share ≡ ok tt
      → validate_non_identity_ciphertext c (homomorphic_add c acc share) ≡ ok tt
      → (b : Bytes) × (t : S) × (add_to_tally c round_id p d enc s ≡ (ok tt, t))
        × (get_tally round_id p d t ≡ (ok (some (Value.raw b)), t))
        × (unmarshal_ciphertext c b ≡ ok (homomorphic_add c acc share))
  unfolding add_to_tally get_tally kv_get kv_set ◌>>=◌
  add_to_tally-sum round_id key stored enc p d acc share s hk hs h1 h2 h3 h4 =
      let (b, e, u) = accumulated-sum c acc share stored enc h1 h2 h3 h4 in
      (
        b,
        kv.set s key (Value.raw b),
        rw (hk, hs, e) refl,
        rw (hk, kv.get-set s key key (Value.raw b), bytes_eq_refl key) refl,
        u,
      )
