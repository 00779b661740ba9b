-- ===== src/Msgs/Sighash/BindsBatch.antt =====
-- The payload of a delegation with votes
-- (x/vote/types/sighash.go, `ComputeDelegateAndCastVoteBatchSighash`).
use vote_sdk.Base.{
  ℕ, suc, ◌<◌, ◌^◌, ◌≡◌, refl, sym, ◌∙◌, Bytes, List, [], ◌∷◌, ◌++◌, map, All, length, arith,
  uint32,
}
use vote_sdk.Keys.Injective.{append_inj}
use vote_sdk.Msgs.{MsgCastVote, MsgDelegateAndCastVoteBatch}
use vote_sdk.Msgs.Sighash.{
  delegate_and_cast_vote_batch_sighash_domain, write32, write_u32_as32, votes_payload,
  delegate_and_cast_payload,
}
use vote_sdk.Msgs.Sighash.Binds.{Framed, field_inj, write_u32_as32-injective, u32_length}

-- What a batch signs of a vote: the key, the nullifier, the new note, the commitment, the proposal.
abbrev pub effects_of : MsgCastVote → Bytes × Bytes × Bytes × Bytes × ℕ
effects_of v =
    (v.r_vpk, v.van_nullifier, v.vote_authority_note_new, v.vote_commitment, v.proposal_id)

-- The payload of a vote and of the rest, from each field on.
abbrev from_proposal : MsgCastVote → Bytes → Bytes
from_proposal m rest = write_u32_as32 m.proposal_id ++ rest

abbrev from_commitment : MsgCastVote → Bytes → Bytes
from_commitment m rest = write32 m.vote_commitment ++ from_proposal m rest

abbrev from_note : MsgCastVote → Bytes → Bytes
from_note m rest = write32 m.vote_authority_note_new ++ from_commitment m rest

abbrev from_nullifier : MsgCastVote → Bytes → Bytes
from_nullifier m rest = write32 m.van_nullifier ++ from_note m rest

abbrev from_key : MsgCastVote → Bytes → Bytes
from_key m rest = write32 m.r_vpk ++ from_nullifier m rest

vote_inj :
    (a b : MsgCastVote) (us vs : Bytes)
    → Framed a
    → Framed b
    → from_key a us ≡ from_key b vs
    → (effects_of a ≡ effects_of b) × (us ≡ vs)
vote_inj a b us vs fa fb h =
    let (e1, h1) =
      field_inj a.r_vpk b.r_vpk (from_nullifier a us) (from_nullifier b vs) fa.key_len fb.key_len
        h in
    let (e2, h2) =
      field_inj a.van_nullifier b.van_nullifier (from_note a us) (from_note b vs) fa.nullifier_len
        fb.nullifier_len h1 in
    let (e3, h3) =
      field_inj a.vote_authority_note_new b.vote_authority_note_new (from_commitment a us)
        (from_commitment b vs) fa.note_len fb.note_len h2 in
    let (e4, h4) =
      field_inj a.vote_commitment b.vote_commitment (from_proposal a us) (from_proposal b vs)
        fa.commitment_len fb.commitment_len h3 in
    let (e5, h5) =
      append_inj (write_u32_as32 a.proposal_id) (write_u32_as32 b.proposal_id) us vs
        (u32_length a.proposal_id ∙ sym (u32_length b.proposal_id)) h4 in
    let e6 =
      write_u32_as32-injective a.proposal_id b.proposal_id fa.proposal_bound fb.proposal_bound e5 in
    (cc (e1, e2, e3, e4, e6), h5)

votes_payload-injective :
    (i : ℕ) (xs ys : List MsgCastVote)
    → All Framed xs
    → All Framed ys
    → length xs ≡ length ys
    → votes_payload i xs ≡ votes_payload i ys
    → map effects_of xs ≡ map effects_of ys
unfolding votes_payload
votes_payload-injective i [] [] fa fb n h = refl
votes_payload-injective i [] (b ∷ ys) fa fb n h = absurd (omega (arith, n))
votes_payload-injective i (a ∷ xs) [] fa fb n h = absurd (omega (arith, n))
votes_payload-injective i (a ∷ xs) (b ∷ ys) fa fb n h =
    let (_, h1) =
      append_inj (write_u32_as32 (uint32 i)) (write_u32_as32 (uint32 i))
        (from_key a (votes_payload (suc i) xs)) (from_key b (votes_payload (suc i) ys)) refl h in
    let (e, h2) = vote_inj a b (votes_payload (suc i) xs) (votes_payload (suc i) ys) fa.0 fb.0 h1 in
    let r = votes_payload-injective (suc i) xs ys fa.1 fb.1 (omega (arith, n)) h2 in cc (e, r)

-- A message of fields of their fixed sizes, with fewer votes than 2^32.
pub record FramedBatch (msg : MsgDelegateAndCastVoteBatch) : Type 0 where
  pub round_len : length msg.delegation.vote_round_id ≡ 32
  pub note_len : length msg.delegation.van_cmx ≡ 32
  pub votes : All Framed msg.batch.votes
  pub count_bound : length msg.batch.votes < 2 ^ 32

-- Two delegations with votes, with fields of their fixed sizes and the same payload, agree in the
-- round, in the delegation's new note, and in the signed fields of their votes, in order.
pub delegate_and_cast_payload-injective :
    (a b : MsgDelegateAndCastVoteBatch)
    → FramedBatch a
    → FramedBatch b
    → delegate_and_cast_payload a ≡ delegate_and_cast_payload b
    → (a.delegation.vote_round_id ≡ b.delegation.vote_round_id)
      × (a.delegation.van_cmx ≡ b.delegation.van_cmx)
      × (map effects_of a.batch.votes ≡ map effects_of b.batch.votes)
unfolding delegate_and_cast_payload
delegate_and_cast_payload-injective a b fa fb h =
    let av = votes_payload 0 a.batch.votes in
    let bv = votes_payload 0 b.batch.votes in
    let an = write_u32_as32 (uint32 (length a.batch.votes)) in
    let bn = write_u32_as32 (uint32 (length b.batch.votes)) in
    let domain = delegate_and_cast_vote_batch_sighash_domain in
    let (_, h0) =
      append_inj domain domain
        (write32 a.delegation.vote_round_id ++ (write32 a.delegation.van_cmx ++ (an ++ av)))
        (write32 b.delegation.vote_round_id ++ (write32 b.delegation.van_cmx ++ (bn ++ bv))) refl
        h in
    let (e1, h1) =
      field_inj a.delegation.vote_round_id b.delegation.vote_round_id
        (write32 a.delegation.van_cmx ++ (an ++ av)) (write32 b.delegation.van_cmx ++ (bn ++ bv))
        fa.round_len fb.round_len h0 in
    let (e2, h2) =
      field_inj a.delegation.van_cmx b.delegation.van_cmx (an ++ av) (bn ++ bv) fa.note_len
        fb.note_len h1 in
    let (e3, h3) =
      append_inj an bn av bv
        (u32_length (uint32 (length a.batch.votes))
          ∙ sym (u32_length (uint32 (length b.batch.votes))))
        h2 in
    let count =
      write_u32_as32-injective (uint32 (length a.batch.votes)) (uint32 (length b.batch.votes))
        (omega arith) (omega arith) e3 in
    let n : length a.batch.votes ≡ length b.batch.votes =
      omega (arith, fa.count_bound, fb.count_bound, count) in
    (e1, e2, votes_payload-injective 0 a.batch.votes b.batch.votes fa.votes fb.votes n h3)
