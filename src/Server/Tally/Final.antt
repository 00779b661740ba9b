-- ===== src/Server/Tally/Final.antt =====
-- What an accepted tally has shown (x/vote/keeper/msg_server_tally_decrypt.go, `SubmitTally`).
use mathlib.Core.Path.{subst}
use vote_sdk.Base.{
  raise_if-false, lift-ok, read_step, ℕ, ◌^◌, ◌<◌, ◌≡◌, refl, sym, ap, ◌∙◌, inl, inr, false, not,
  Option, some, List, [], ◌∷◌, ◌++◌, Bytes, bytes_eq, bytes_eq_ne, Error, Result, ok, err, Action,
  Done, lift, raise_if, ◌>>=◌, ◌>>◌, for_each, >>=-eq-ok, pair_eq, arith, In, leb, Preserves,
  preserves_rules, Preserves-for_each,
}
use vote_sdk.Keys.{tally_key, tally_result_key, append_uint32_be, put_uint32_be, validate_round_id}
use vote_sdk.Keys.Range.{IsBytes}
use vote_sdk.Types.{
  Value, VoteRound, Proposal, TallyEntry, TallyResult, SessionStatus, Context, is_tallying,
  tally_bsgs_bound,
}
use vote_sdk.Kv.{KvStore, kv_get, kv_set, kv_iterator}
use vote_sdk.Crypto.{Curve}
use vote_sdk.Keeper.Rounds.{get_vote_round, set_vote_round}
use vote_sdk.Keeper.Voting.{validate_entry_bounds}
use vote_sdk.Keeper.Ceremony.{validate_proposer_is_creator}
use vote_sdk.Keeper.Tally.{
  get_tally, set_tally_result, validate_tally_completeness, collect_non_empty_accumulators,
}
use vote_sdk.Keeper.Tally.Complete.{
  tally_keys-ok, collect_from-Preserves, validate_tally_completeness-covers,
}
use vote_sdk.Msgs.{MsgSubmitTally}
use vote_sdk.Server.Tally.{
  PartialDecryptionWithIndex, partials_of, accumulator_key, verify_entry, submit_entry,
  submit_tally, get_partial_decryptions_for_round,
}

tally_result_key-ok :
    (id key : Bytes) (p d : ℕ)
    → tally_result_key id p d ≡ ok key
    → key ≡ ((0x07 ∷ id) ++ put_uint32_be p) ++ put_uint32_be d
unfolding tally_result_key append_uint32_be validate_round_id
tally_result_key-ok id key p d h = ground arith

tallying-eq : (s : SessionStatus) → not (is_tallying s) ≡ false → s ≡ SessionStatus.tallying
tallying-eq s h = ground arith

-- Accumulators and results have keys of their own.
result_ne_tally :
    (id jd key other : Bytes) (p d q e : ℕ)
    → tally_key id p d ≡ ok key
    → tally_result_key jd q e ≡ ok other
    → bytes_eq other key ≡ false
result_ne_tally id jd key other p d q e h k =
    bytes_eq_ne other key (λ eq.
      differ (sym (tally_result_key-ok jd other q e k) ∙ eq ∙ (tally_keys-ok id key p d h).1))
  where
    differ :
        ((0x07 ∷ jd) ++ put_uint32_be q) ++ put_uint32_be e
          ≡ ((0x05 ∷ id) ++ put_uint32_be p) ++ put_uint32_be d
        → ⊥
    differ x = cc x

lift-state : {S A : Type 0} (r : Result A) {a : A} (s t : S) → lift r s ≡ (ok a, t) → s ≡ t
unfolding lift
lift-state r s t h = ap (λ x. x.1) h

module _ {S : Type 0} ⦃kv : KvStore S⦄ where
  get_tally-reads :
      (id key : Bytes) (p d : ℕ) (v : Value) (s t : S) (out : Option Value)
      → tally_key id p d ≡ ok key
      → kv.get s key ≡ some v
      → get_tally id p d s ≡ (ok out, t)
      → out ≡ some v
  unfolding get_tally kv_get ◌>>=◌
  get_tally-reads id key p d v s t out hk hv h = let q = rw (hk, hv) at h in cc q

  -- A loop that returned ran each of its bodies, in a store with what all of them keep.
  for_each-ran :
      {A : Type 0} {P : S → Type 0} (body : A → Action S Done) (xs : List A) (a : A) (s t : S)
      → ((b : A) → Preserves P (body b))
      → In a xs
      → P s
      → for_each body xs s ≡ (ok tt, t)
      → (u : S) × (v : S) × P u × (body a u ≡ (ok tt, v))
  unfolding for_each
  for_each-ran body [] a s t keeps m h e = absurd m
  for_each-ran body (x ∷ xs) a s t keeps (inl q) h e =
      let (_, u, e1, k) = >>=-eq-ok (body x) _ s t e in (s, u, h, rw q e1)
  for_each-ran {A} {P} body (x ∷ xs) a s t keeps (inr m) h e =
      let (_, u, e1, k) = >>=-eq-ok (body x) _ s t e in
      for_each-ran body xs a u t keeps m (subst P (ap (λ y. y.1) e1) ((keeps x).after s h)) k

  -- Writing a result leaves an accumulator.
  set_tally_result-keeps :
      (id key : Bytes) (p d : ℕ) (v : Value) (r : TallyResult)
      → tally_key id p d ≡ ok key
      → Preserves (λ t. kv.get t key ≡ some v) (set_tally_result r)
  unfolding set_tally_result ◌>>=◌ kv_set
  set_tally_result-keeps id key p d v r hk =
      kept (tally_result_key r.vote_round_id r.proposal_id r.vote_decision) refl
    where
      kept :
          (k : Result Bytes)
          → tally_result_key r.vote_round_id r.proposal_id r.vote_decision ≡ k
          → Preserves
              (λ t. kv.get t key ≡ some v)
              (lift k >>= λ other. kv_set other (Value.tally_result r))
      kept (ok other) e = record {
        after = λ s h.
            rw
              (
                kv.get-set s other key (Value.tally_result r),
                result_ne_tally id r.vote_round_id key other p d r.proposal_id r.vote_decision hk e,
              )
              h;
      }
      kept (err x) e = record { after = λ s h. h }

module _ {S P F : Type 0} ⦃kv : KvStore S⦄ (c : Curve P F) where
  submit_entry-keeps :
      (round : VoteRound) (id key : Bytes) (p d : ℕ) (v : Value)
      (pds : List (ℕ × PartialDecryptionWithIndex)) (e : TallyEntry)
      → tally_key id p d ≡ ok key
      → Preserves (λ t. kv.get t key ≡ some v) (submit_entry c round id pds e)
  unfolding submit_entry get_tally kv_get
  submit_entry-keeps round id key p d v pds e hk =
      search (preserves_rules, set_tally_result-keeps id key p d v _ hk) depth 20

  -- A call that is one action, when it returns.
  submit_entry-verified :
      (round : VoteRound) (id key : Bytes) (v : Value) (pds : List (ℕ × PartialDecryptionWithIndex))
      (e : TallyEntry) (s t : S)
      → tally_key id e.proposal_id e.vote_decision ≡ ok key
      → kv.get s key ≡ some v
      → submit_entry c round id pds e s ≡ (ok tt, t)
      → (e.total_value < tally_bsgs_bound)
        × (verify_entry c round
              (partials_of pds (accumulator_key e.proposal_id e.vote_decision))
              (some v)
              e.total_value
            ≡ ok tt)
  unfolding submit_entry
  submit_entry-verified round id key v pds e s t hk hv h =
      let (_, u, e1, k1) =
        >>=-eq-ok (lift (validate_entry_bounds round e.proposal_id e.vote_decision)) _ s t h in
      let (_, w, e2, k2) =
        >>=-eq-ok (raise_if (leb tally_bsgs_bound e.total_value) Error.tally_mismatch) _ u t k1 in
      let (acc, x, e3, k3) = >>=-eq-ok (get_tally id e.proposal_id e.vote_decision) _ w t k2 in
      let (_, y, e4, k4) =
        >>=-eq-ok
          (lift (
            verify_entry c round (partials_of pds (accumulator_key e.proposal_id e.vote_decision))
              acc e.total_value))
          _ x t k3 in
      let us : u ≡ s = sym (lift-state _ s u e1) in
      let (small, wu) =
        raise_if-false (leb tally_bsgs_bound e.total_value) Error.tally_mismatch u w e2 in
      let a : acc ≡ some v =
        get_tally-reads id key e.proposal_id e.vote_decision v w x acc hk (rw (wu, us) hv) e3 in
      let checked : verify_entry c round
            (partials_of pds (accumulator_key e.proposal_id e.vote_decision)) acc e.total_value
          ≡ ok tt =
        lift-ok _ tt x y e4 in
      (ground (arith, small), rw a at checked)

  completeness-keeps :
      {Q : S → Type 0} (round : VoteRound) (entries : List TallyEntry)
      → Preserves Q (validate_tally_completeness round entries)
  unfolding validate_tally_completeness collect_non_empty_accumulators
  completeness-keeps round entries = search (preserves_rules, collect_from-Preserves) depth 20

  before_entries-keeps :
      {Q : S → Type 0} (op : Bytes → Option Bytes) (ctx : Context) (creator id : Bytes)
      → Preserves Q (validate_proposer_is_creator {S = S} op ctx creator)
        × Preserves Q (get_vote_round id)
  unfolding validate_proposer_is_creator get_vote_round kv_get
  before_entries-keeps op ctx creator id =
      (search preserves_rules depth 20, search preserves_rules depth 20)

  partials-keeps :
      {Q : S → Type 0} (id : Bytes) → Preserves Q (get_partial_decryptions_for_round id)
  unfolding get_partial_decryptions_for_round kv_iterator
  partials-keeps id = search preserves_rules depth 20

  -- What the handler does once it has the round.
  abbrev with_round : MsgSubmitTally → VoteRound → Action S Done
  with_round msg round =
      raise_if (not (is_tallying round.status)) Error.round_not_tallying
      >> (get_partial_decryptions_for_round msg.vote_round_id >>= λ pds.
          for_each (submit_entry c round msg.vote_round_id pds) msg.entries
          >> (validate_tally_completeness round msg.entries
              >> set_vote_round (record round { status = SessionStatus.finalized })))

  -- The facts that an accepted tally leaves: the partial decryptions, and the store behind the entries.
  record Accepted (msg : MsgSubmitTally) (round : VoteRound) (s : S) : Type 0 where
    pub tallying : not (is_tallying round.status) ≡ false
    pub pds : List (ℕ × PartialDecryptionWithIndex)
    pub mid : S
    pub partials : get_partial_decryptions_for_round msg.vote_round_id s ≡ (ok pds, s)
    pub entries : for_each (submit_entry c round msg.vote_round_id pds) msg.entries s ≡ (ok tt, mid)
    pub complete : (validate_tally_completeness round msg.entries mid).0 ≡ ok tt

  with_round-Accepted :
      (msg : MsgSubmitTally) (round : VoteRound) (s t : S)
      → with_round msg round s ≡ (ok tt, t)
      → Accepted msg round s
  with_round-Accepted msg round s t h =
      let (_, e1, k1) =
        read_step (raise_if (not (is_tallying round.status)) Error.round_not_tallying) _ s t
          (search preserves_rules) h in
      let (pds, e2, k2) =
        read_step (get_partial_decryptions_for_round msg.vote_round_id) _ s t
          (partials-keeps msg.vote_round_id) k1 in
      let (_, u, e3, k3) =
        >>=-eq-ok (for_each (submit_entry c round msg.vote_round_id pds) msg.entries) _ s t k2 in
      let (_, w, e4, k4) = >>=-eq-ok (validate_tally_completeness round msg.entries) _ u t k3 in
      record {
        tallying =
            (raise_if-false (not (is_tallying round.status)) Error.round_not_tallying s s e1).0;
        pds = pds;
        mid = u;
        partials = e2;
        entries = e3;
        complete = ap (λ y. y.0) e4;
      }

  submit_tally-Accepted :
      (op : Bytes → Option Bytes) (ctx : Context) (msg : MsgSubmitTally) (round : VoteRound) (s : S)
      → get_vote_round msg.vote_round_id s ≡ (ok round, s)
      → (submit_tally c op ctx msg s).0 ≡ ok tt
      → Accepted msg round s
  unfolding submit_tally
  submit_tally-Accepted op ctx msg round s hr h =
      let t = (submit_tally c op ctx msg s).1 in
      let keeps = before_entries-keeps {Q = λ u. u ≡ s} op ctx msg.creator msg.vote_round_id in
      let (_, _, k1) =
        read_step (validate_proposer_is_creator op ctx msg.creator) _ s t keeps.0
          (pair_eq (submit_tally c op ctx msg s) tt h) in
      let (r, e2, k2) =
        read_step (get_vote_round msg.vote_round_id) (with_round msg) s t keeps.1 k1 in
      same_round r (cc (e2, hr)) k2
    where
      same_round :
          (r : VoteRound)
          → r ≡ round
          → with_round msg r s ≡ (ok tt, (submit_tally c op ctx msg s).1)
          → Accepted msg round s
      same_round r e k =
          with_round-Accepted msg round s (submit_tally c op ctx msg s).1
            (subst (λ x. with_round msg x s ≡ (ok tt, (submit_tally c op ctx msg s).1)) e k)

  -- Where a tally is accepted for a round stored under its own id, the round was tallying; and for
  -- each accumulator that the store holds for a proposal of the round there is an entry, below the
  -- search bound, whose total passed the check against that accumulator and the stored partial
  -- decryptions.
  pub submit_tally-verified :
      (op : Bytes → Option Bytes) (ctx : Context) (msg : MsgSubmitTally) (round : VoteRound)
      (p : Proposal) (d : ℕ) (v : Value) (key : Bytes) (s : S)
      → get_vote_round msg.vote_round_id s ≡ (ok round, s)
      → round.vote_round_id ≡ msg.vote_round_id
      → IsBytes round.vote_round_id
      → d < 2 ^ 32
      → In (some p) round.proposals
      → tally_key round.vote_round_id p.id d ≡ ok key
      → kv.get s key ≡ some v
      → (submit_tally c op ctx msg s).0 ≡ ok tt
      → (round.status ≡ SessionStatus.tallying)
        × (pds : List (ℕ × PartialDecryptionWithIndex)) × (e : TallyEntry)
        × (get_partial_decryptions_for_round msg.vote_round_id s ≡ (ok pds, s))
        × In e msg.entries
        × (e.proposal_id ≡ p.id)
        × (e.vote_decision ≡ d)
        × (e.total_value < tally_bsgs_bound)
        × (verify_entry c round (partials_of pds (accumulator_key p.id d)) (some v) e.total_value
            ≡ ok tt)
  submit_tally-verified op ctx msg round p d v key s hr hid hb hd hm hk hv h =
      let a = submit_tally-Accepted op ctx msg round s hr h in
      let hk' : tally_key msg.vote_round_id p.id d ≡ ok key = rw hid at hk in
      let body = submit_entry c round msg.vote_round_id a.pds in
      let keeps : (b : TallyEntry) → Preserves (λ t. kv.get t key ≡ some v) (body b) =
        λ b. submit_entry-keeps round msg.vote_round_id key p.id d v a.pds b hk' in
      let mid : kv.get a.mid key ≡ some v =
        subst (λ t. kv.get t key ≡ some v) (ap (λ y. y.1) a.entries)
          ((Preserves-for_each body msg.entries keeps).after s hv) in
      let (e, em, ep, ed) =
        validate_tally_completeness-covers round msg.entries p d v key a.mid hb hd hm hk mid
          a.complete in
      let (u, w, hu, ran) = for_each-ran body msg.entries e s a.mid keeps em hv a.entries in
      let (small, checked) =
        submit_entry-verified round msg.vote_round_id key v a.pds e u w (rw (← ep, ← ed) at hk') hu
          ran in
      (
        tallying-eq round.status a.tallying,
        a.pds,
        e,
        a.partials,
        em,
        ep,
        ed,
        small,
        rw (ep, ed) at checked,
      )
