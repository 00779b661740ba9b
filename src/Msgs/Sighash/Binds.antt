-- ===== src/Msgs/Sighash/Binds.antt =====
-- The payload of a single vote (x/vote/types/sighash.go, `ComputeCastVoteSighash`).
use vote_sdk.Base.{
  ℕ, ◌<◌, ◌^◌, ◌≡◌, refl, sym, ap, ◌∙◌, true, Bytes, [], ◌∷◌, ◌++◌, leb, length, arith, take,
}
use vote_sdk.Keys.{byte_at}
use vote_sdk.Keys.Injective.{append_inj}
use vote_sdk.Msgs.{MsgCastVote}
use vote_sdk.Msgs.Sighash.{
  cast_vote_sighash_domain, write32, write_u32_as32, write_u64_as32, cast_vote_payload,
}

write32_exact : (b : Bytes) → length b ≡ 32 → write32 b ≡ b
unfolding write32
write32_exact b h = let e : leb 32 (length b) ≡ true = rw h refl in rw e (take_all b 32 h)
  where
    take_all : (xs : Bytes) (n : ℕ) → length xs ≡ n → take n xs ≡ xs
    take_all [] n h = rw (← h) refl
    take_all (x ∷ xs) n h = rw (← h) (ap (λ ys. x ∷ ys) (take_all xs (length xs) refl))

pub field_inj :
    (a b us vs : Bytes)
    → length a ≡ 32
    → length b ≡ 32
    → write32 a ++ us ≡ write32 b ++ vs
    → (a ≡ b) × (us ≡ vs)
field_inj a b us vs ha hb h =
    append_inj a b us vs (ha ∙ sym hb) (rw (write32_exact a ha, write32_exact b hb) at h)

pub write_u32_as32-injective :
    (m n : ℕ) → m < 2 ^ 32 → n < 2 ^ 32 → write_u32_as32 m ≡ write_u32_as32 n → m ≡ n
unfolding write_u32_as32
write_u32_as32-injective m n hm hn h =
    let a : byte_at m 0 ≡ byte_at n 0 = cc h in
    let b : byte_at m 8 ≡ byte_at n 8 = cc h in
    let c : byte_at m 16 ≡ byte_at n 16 = cc h in
    let d : byte_at m 24 ≡ byte_at n 24 = cc h in omega (arith, hm, hn, a, b, c, d)

write_u64_as32-injective :
    (m n : ℕ) → m < 2 ^ 64 → n < 2 ^ 64 → write_u64_as32 m ≡ write_u64_as32 n → m ≡ n
unfolding write_u64_as32
write_u64_as32-injective m n hm hn h =
    let a : byte_at m 0 ≡ byte_at n 0 = cc h in
    let b : byte_at m 8 ≡ byte_at n 8 = cc h in
    let c : byte_at m 16 ≡ byte_at n 16 = cc h in
    let d : byte_at m 24 ≡ byte_at n 24 = cc h in
    let e : byte_at m 32 ≡ byte_at n 32 = cc h in
    let f : byte_at m 40 ≡ byte_at n 40 = cc h in
    let g : byte_at m 48 ≡ byte_at n 48 = cc h in
    let k : byte_at m 56 ≡ byte_at n 56 = cc h in omega (arith, hm, hn, a, b, c, d, e, f, g, k)

pub u32_length : (n : ℕ) → length (write_u32_as32 n) ≡ 32
unfolding write_u32_as32
u32_length n = refl

-- Fields with the lengths that the stateless checks ask for, and numbers that fit their Go types.
pub record Framed (msg : MsgCastVote) : Type 0 where
  pub round_len : length msg.vote_round_id ≡ 32
  pub key_len : length msg.r_vpk ≡ 32
  pub nullifier_len : length msg.van_nullifier ≡ 32
  pub note_len : length msg.vote_authority_note_new ≡ 32
  pub commitment_len : length msg.vote_commitment ≡ 32
  pub proposal_bound : msg.proposal_id < 2 ^ 32
  pub height_bound : msg.vote_comm_tree_anchor_height < 2 ^ 64

-- The payload from each field on.
abbrev from_height : MsgCastVote → Bytes
from_height m = write_u64_as32 m.vote_comm_tree_anchor_height

abbrev from_proposal : MsgCastVote → Bytes
from_proposal m = write_u32_as32 m.proposal_id ++ from_height m

abbrev from_commitment : MsgCastVote → Bytes
from_commitment m = write32 m.vote_commitment ++ from_proposal m

abbrev from_note : MsgCastVote → Bytes
from_note m = write32 m.vote_authority_note_new ++ from_commitment m

abbrev from_nullifier : MsgCastVote → Bytes
from_nullifier m = write32 m.van_nullifier ++ from_note m

abbrev from_key : MsgCastVote → Bytes
from_key m = write32 m.r_vpk ++ from_nullifier m

-- Two votes with fields of their fixed sizes and the same payload agree in all that is signed: the
-- round, the key, the nullifier, the new note, the commitment, the proposal and the anchor.
pub cast_vote_payload-injective :
    (a b : MsgCastVote)
    → Framed a
    → Framed b
    → cast_vote_payload a ≡ cast_vote_payload b
    → (a.vote_round_id ≡ b.vote_round_id)
      × (a.r_vpk ≡ b.r_vpk)
      × (a.van_nullifier ≡ b.van_nullifier)
      × (a.vote_authority_note_new ≡ b.vote_authority_note_new)
      × (a.vote_commitment ≡ b.vote_commitment)
      × (a.proposal_id ≡ b.proposal_id)
      × (a.vote_comm_tree_anchor_height ≡ b.vote_comm_tree_anchor_height)
unfolding cast_vote_payload
cast_vote_payload-injective a b fa fb h =
    let (_, h0) =
      append_inj cast_vote_sighash_domain cast_vote_sighash_domain
        (write32 a.vote_round_id ++ from_key a) (write32 b.vote_round_id ++ from_key b) refl h in
    let (e1, h1) =
      field_inj a.vote_round_id b.vote_round_id (from_key a) (from_key b) fa.round_len fb.round_len
        h0 in
    let (e2, h2) =
      field_inj a.r_vpk b.r_vpk (from_nullifier a) (from_nullifier b) fa.key_len fb.key_len h1 in
    let (e3, h3) =
      field_inj a.van_nullifier b.van_nullifier (from_note a) (from_note b) fa.nullifier_len
        fb.nullifier_len h2 in
    let (e4, h4) =
      field_inj a.vote_authority_note_new b.vote_authority_note_new (from_commitment a)
        (from_commitment b) fa.note_len fb.note_len h3 in
    let (e5, h5) =
      field_inj a.vote_commitment b.vote_commitment (from_proposal a) (from_proposal b)
        fa.commitment_len fb.commitment_len h4 in
    let (e6, h6) =
      append_inj (write_u32_as32 a.proposal_id) (write_u32_as32 b.proposal_id) (from_height a)
        (from_height b) (u32_length a.proposal_id ∙ sym (u32_length b.proposal_id)) h5 in
    (
      e1,
      e2,
      e3,
      e4,
      e5,
      write_u32_as32-injective a.proposal_id b.proposal_id fa.proposal_bound fb.proposal_bound e6,
      write_u64_as32-injective a.vote_comm_tree_anchor_height b.vote_comm_tree_anchor_height
          fa.height_bound fb.height_bound h6,
    )
