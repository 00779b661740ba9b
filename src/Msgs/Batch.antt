-- ===== src/Msgs/Batch.antt =====
-- Batches of votes (x/vote/types/msgs.go, `MsgCastVoteBatch`).
use vote_sdk.Base.{
  Distinct, ℕ, ◌≤◌, ◌≡◌, refl, sym, inl, inr, Bool, not, List, [], ◌∷◌, map, Bytes, bytes_eq,
  bytes_eq_iff, bytes_eq_refl, Error, Result, ok, err, In, any, any_complete, arith, then_check,
  reject_if, checks, ◌==◌, length,
}
use vote_sdk.Types.{max_proposals}
use vote_sdk.Msgs.{MsgCastVote, validate_cast_vote, validate_votes, validate_cast_vote_batch}

-- Every vote of the list passes the check of a single vote and agrees with `first`.
abbrev pub Agree : Bool → MsgCastVote → List MsgCastVote → Type 0
Agree allow first [] = Unit
Agree allow first (v ∷ rest) =
    (validate_cast_vote allow v ≡ ok tt)
    × (v.vote_round_id ≡ first.vote_round_id)
    × (v.vote_comm_tree_anchor_height ≡ first.vote_comm_tree_anchor_height)
    × Agree allow first rest

abbrev pub proposals_of : List MsgCastVote → List ℕ
proposals_of = map (λ v. v.proposal_id)

abbrev pub nullifiers_of : List MsgCastVote → List Bytes
nullifiers_of = map (λ v. v.van_nullifier)

-- No member of the first list is in the second.
abbrev Apart : {A : Type 0} → List A → List A → Type 0
Apart [] ys = Unit
Apart (x ∷ xs) ys = (In x ys → ⊥) × Apart xs ys

record Valid (allow : Bool) (first : MsgCastVote) (ps : List ℕ) (ns : List Bytes)
    (votes : List MsgCastVote) : Type 0 where
  pub agree : Agree allow first votes
  pub proposals : Distinct (proposals_of votes)
  pub nullifiers : Distinct (nullifiers_of votes)
  pub proposals_new : Apart (proposals_of votes) ps
  pub nullifiers_new : Apart (nullifiers_of votes) ns

Apart-In :
    {A : Type 0} (xs : List A) (y : A) (ys : List A)
    → Apart xs (y ∷ ys)
    → (In y xs → ⊥) × Apart xs ys
Apart-In [] y ys h = (λ m. m, tt)
Apart-In (x ∷ xs) y ys h =
    let r = Apart-In xs y ys h.1 in
    (λ m. elim m [ inl e ↦ h.0 (inl (sym e)) | inr k ↦ r.0 k ], (λ k. h.0 (inr k), r.1))

-- The parts of a sequence of two checks, and of the check of one vote.
then_check-ok :
    {A B : Type 0} (r : Result A) (q : Result B) {b : B}
    → then_check r q ≡ ok b
    → (a : A) × (r ≡ ok a) × (q ≡ ok b)
then_check-ok (ok a) q h = (a, refl, h)
then_check-ok (err e) q h = cc

vote_checks :
    (allow : Bool) (first v : MsgCastVote) (ps : List ℕ) (ns : List Bytes)
    → checks (
        validate_cast_vote allow v
        ∷ reject_if (not (bytes_eq v.vote_round_id first.vote_round_id)) Error.invalid_field
        ∷ reject_if
            (not (v.vote_comm_tree_anchor_height == first.vote_comm_tree_anchor_height))
            Error.invalid_field
        ∷ reject_if (any (λ p. v.proposal_id == p) ps) Error.invalid_field
        ∷ reject_if (any (bytes_eq v.van_nullifier) ns) Error.invalid_field
        ∷ [])
      ≡ ok tt
    → (validate_cast_vote allow v ≡ ok tt)
      × (v.vote_round_id ≡ first.vote_round_id)
      × (v.vote_comm_tree_anchor_height ≡ first.vote_comm_tree_anchor_height)
      × (In v.proposal_id ps → ⊥)
      × (In v.van_nullifier ns → ⊥)
vote_checks allow first v ps ns h = (
  ground arith,
  (bytes_eq_iff v.vote_round_id first.vote_round_id).0 (ground arith),
  ground arith,
  λ m.
      let k = any_complete (λ p. v.proposal_id == p) ps v.proposal_id m (ground arith) in
      ground (arith, k),
  λ m.
      let k =
        any_complete (bytes_eq v.van_nullifier) ns v.van_nullifier m
          (bytes_eq_refl v.van_nullifier) in
      ground (arith, k),
)

validate_votes-Valid :
    (allow : Bool) (first : MsgCastVote) (ps : List ℕ) (ns : List Bytes) (votes : List MsgCastVote)
    → validate_votes allow first ps ns votes ≡ ok tt
    → Valid allow first ps ns votes
unfolding validate_votes
validate_votes-Valid allow first ps ns [] h = record {
  agree = tt;
  proposals = tt;
  nullifiers = tt;
  proposals_new = tt;
  nullifiers_new = tt;
}
validate_votes-Valid allow first ps ns (v ∷ rest) h =
    let (_, h1, h2) = then_check-ok _ _ h in
    let (a, b, c, d, e) = vote_checks allow first v ps ns h1 in
    let r = validate_votes-Valid allow first (v.proposal_id ∷ ps) (v.van_nullifier ∷ ns) rest h2 in
    let p = Apart-In (proposals_of rest) v.proposal_id ps r.proposals_new in
    let n = Apart-In (nullifiers_of rest) v.van_nullifier ns r.nullifiers_new in
    record {
      agree = (a, b, c, r.agree);
      proposals = (p.0, r.proposals);
      nullifiers = (n.0, r.nullifiers);
      proposals_new = (d, p.1);
      nullifiers_new = (e, n.1);
    }

-- A batch that passes has between 1 and 50 votes; each passes the check of a single vote and has
-- the round and the anchor height of the first, and no two have one proposal or one nullifier.
pub validate_cast_vote_batch-valid :
    (allow : Bool) (votes : List MsgCastVote)
    → validate_cast_vote_batch allow (record { votes = votes }) ≡ ok tt
    → (first : MsgCastVote) × (rest : List MsgCastVote) × (votes ≡ first ∷ rest)
      × (length votes ≤ max_proposals)
      × Agree allow first votes
      × Distinct (proposals_of votes)
      × Distinct (nullifiers_of votes)
unfolding validate_cast_vote_batch
validate_cast_vote_batch-valid allow [] h = absurd (cc h)
validate_cast_vote_batch-valid allow (first ∷ rest) h =
    let (_, h1, h2) = then_check-ok _ _ h in
    let r = validate_votes-Valid allow first [] [] (first ∷ rest) h2 in
    (first, rest, refl, ground arith, r.agree, r.proposals, r.nullifiers)
