-- ===== src/Ante/Checked.antt =====
-- Accepted transactions that cast votes (x/vote/ante/validate.go, `ValidateVoteTx`).
use mathlib.Core.Option
use vote_sdk.Server.Deliver.Guards.{Absent, Checks-check_nullifiers_unique}
use vote_sdk.Server.Voting.Reveal.{validate_round_for_voting-ok}
use vote_sdk.Base.{
  Option, none, Result, err, refl, sym, ◌∙◌, subst, inl, ◌≤◌, ◌<◌, length, is_some, is_negative,
  to_uint64, raise_if-false, >>=-eq-ok, arith, ℕ, ◌≡◌, true, false, some, [], ◌∷◌, Bytes, Error, ok,
  or_raise, or_raise-ok, for_each, read_step, lift-ok,
}
use vote_sdk.Types.{Value, VoteRound, SessionStatus, Context, as_raw}
use vote_sdk.Kv.{KvStore, kv_get}
use vote_sdk.Keys.{NullifierType, nullifier_key, commitment_root_key}
use vote_sdk.Keeper.Tree.{get_commitment_root_at_height}
use vote_sdk.Crypto.{Curve}
use vote_sdk.Keeper.Rounds.{get_vote_round}
use vote_sdk.Keeper.Voting.{validate_proposal_id, bad_proposal_id}
use vote_sdk.Msgs.{MsgCastVote}
use vote_sdk.Msgs.Sighash.{cast_vote_payload, compute_cast_vote_sighash}
use vote_sdk.Ante.{
  VoteMessage, Verifiers, commitment_inputs, verify_signature, anchor_root,
  verify_vote_commitment_proof, verify_cast_vote, verify_proofs, validate_round,
  validate_nullifiers, validate_vote_tx,
}
use vote_sdk.Ante.Reads.{reads-round, reads-root, reads-anchor, reads-signature}
use vote_sdk.Ante.Chain.{proof-ok, verify_signature-ok}
use vote_sdk.Ante.Reads.{steps}

as_raw-eq :
    (v : Value) (root : Bytes)
    → as_raw v ≡ some root
    → ◌≡◌ {A = Option Value} (some v) (some (Value.raw root))
as_raw-eq v root h = ground (arith, h)

raw_found :
    (found : Option Value) (root : Bytes)
    → Option.bind found as_raw ≡ some root
    → found ≡ some (Value.raw root)
unfolding Option.bind
raw_found none root h = cc
raw_found (some v) root h = as_raw-eq v root h

is_some-false : {A : Type 0} (o : Option A) → is_some o ≡ false → o ≡ none
is_some-false none h = refl
is_some-false (some a) h = cc

module _ {S P F : Type 0} ⦃kv : KvStore S⦄ (c : Curve P F) (v : Verifiers) where
  anchor_root-stored :
      (id : Bytes) (height : ℕ) (e : Error) (root : Bytes) (s t : S)
      → anchor_root c v id height e s ≡ (ok root, t)
      → kv.get s (commitment_root_key id height) ≡ some (Value.raw root)
  unfolding anchor_root get_commitment_root_at_height kv_get
  anchor_root-stored id height e root s t h =
      let (found, a, k) =
        read_step (get_commitment_root_at_height id height)
          (λ found. or_raise (Option.bind found as_raw) e) s t (reads-root id height) h in
      let q = (or_raise-ok (Option.bind found as_raw) e s t root k).0 in
      sym (get-found found a) ∙ raw_found found root q
    where
      get-found :
          (f : Option Value)
          → get_commitment_root_at_height id height s ≡ (ok f, s)
          → f ≡ kv.get s (commitment_root_key id height)
      get-found f a = cc a

  proposal_exists :
      (id : Bytes) (p : ℕ) (round : VoteRound) (s t : S)
      → get_vote_round id s ≡ (ok round, s)
      → validate_proposal_id id p s ≡ (ok tt, t)
      → (1 ≤ p) × (p ≤ length round.proposals)
  unfolding validate_proposal_id
  proposal_exists id p round s t g h =
      let (r, e1, k1) = read_step (get_vote_round id) _ s t (reads-round id) h in
      let same : r ≡ round = cc (g, e1) in
      let (a, _) = raise_if-false (bad_proposal_id r p) Error.invalid_proposal_id s t k1 in
      let b = rw same at a in (ground (arith, b), ground (arith, b))

  first_of_one :
      (msg : MsgCastVote) (s t : S)
      → for_each (λ vote. validate_proposal_id vote.vote_round_id vote.proposal_id) (msg ∷ []) s
        ≡ (ok tt, t)
      → (u : S) × (validate_proposal_id msg.vote_round_id msg.proposal_id s ≡ (ok tt, u))
  unfolding for_each
  first_of_one msg s t h =
      let (_, u, e, _) =
        >>=-eq-ok (validate_proposal_id msg.vote_round_id msg.proposal_id) _ s t h in
      (u, e)

  -- What holds for an accepted vote, of its round and of what the store has under the keys of its
  -- nullifier and of the root at its anchor.
  pub record CastChecked (ctx : Context) (msg : MsgCastVote) (s : S) : Type 0 where
    pub round : VoteRound
    pub current : get_vote_round msg.vote_round_id s ≡ (ok round, s)
    pub active : round.status ≡ SessionStatus.active
    pub in_time : to_uint64 ctx.block_time < round.vote_end_time
    pub proposal : (1 ≤ msg.proposal_id) × (msg.proposal_id ≤ length round.proposals)
    pub nullifier_stored_at : Bytes
    pub at_key :
        nullifier_key NullifierType.vote_authority_note msg.vote_round_id msg.van_nullifier
        ≡ ok nullifier_stored_at
    pub unspent : kv.get s nullifier_stored_at ≡ none
    pub signed :
        v.signature msg.r_vpk (v.blake2b_256 (cast_vote_payload msg)) msg.vote_auth_sig ≡ true
    pub root : Bytes
    pub anchored :
        kv.get s (commitment_root_key msg.vote_round_id msg.vote_comm_tree_anchor_height)
        ≡ some (Value.raw root)
    pub proven : v.vote_commitment msg.proof (commitment_inputs msg root round.ea_pk) ≡ true

  no_entry :
      (key : Result Bytes) (s : S) → Absent key s → (k : Bytes) × (key ≡ ok k) × (kv.get s k ≡ none)
  unfolding Absent
  no_entry (ok k) s h = (k, refl, is_some-false (kv.get s k) h)
  no_entry (err e) s h = absurd h

  pub validate_vote_tx-CastChecked :
      (ctx : Context) (msg : MsgCastVote) (s t : S)
      → is_negative ctx.block_time ≡ false
      → validate_vote_tx c v false ctx (VoteMessage.cast msg) s ≡ (ok tt, t)
      → CastChecked ctx msg s
  unfolding validate_round validate_nullifiers verify_proofs verify_cast_vote
      compute_cast_vote_sighash
  validate_vote_tx-CastChecked ctx msg s t set h =
      let (a, b, n, p) = steps c v ctx (VoteMessage.cast msg) s t h in
      let (round, g, active, in_time, _) =
        validate_round_for_voting-ok ctx msg.vote_round_id s s set a in
      let (u, checked_proposal) = first_of_one msg s s b in
      let (key, at_key, unspent) =
        no_entry
          (nullifier_key NullifierType.vote_authority_note msg.vote_round_id msg.van_nullifier) s
          ((Checks-check_nullifiers_unique msg.vote_round_id NullifierType.vote_authority_note
              (msg.van_nullifier ∷ []) msg.van_nullifier (inl refl)).before
            s s tt n) in
      let digest = compute_cast_vote_sighash v.blake2b_256 msg in
      let (_, b1, k1) =
        read_step (verify_signature c v msg.r_vpk digest msg.vote_auth_sig) _ s t
          (reads-signature c v _ _ _) p in
      let (root, b2, k2) =
        read_step
          (anchor_root c v msg.vote_round_id msg.vote_comm_tree_anchor_height
            Error.invalid_anchor_height)
          _ s t (reads-anchor c v _ _ _) k1 in
      let (r, b3, k3) =
        read_step (get_vote_round msg.vote_round_id) _ s t (reads-round msg.vote_round_id) k2 in
      let same : r ≡ round = cc (g, b3) in
      record {
        round = round;
        current = g;
        active = active;
        in_time = in_time;
        proposal = proposal_exists msg.vote_round_id msg.proposal_id round s u g checked_proposal;
        nullifier_stored_at = key;
        at_key = at_key;
        unspent = unspent;
        signed = verify_signature-ok c v msg.r_vpk digest msg.vote_auth_sig s s b1;
        root = root;
        anchored =
            anchor_root-stored msg.vote_round_id msg.vote_comm_tree_anchor_height
              Error.invalid_anchor_height root s s b2;
        proven =
            subst (λ x. v.vote_commitment msg.proof (commitment_inputs msg root x.ea_pk) ≡ true)
              same
              (proof-ok v msg root r.ea_pk
                (lift-ok (verify_vote_commitment_proof v msg root r.ea_pk) tt s t k3));
      }
