-- ===== src/Msgs/Sighash.antt =====
-- The signed payloads of votes (x/vote/types/sighash.go), before they are hashed by BLAKE2b-256.
pub mod Binds
pub mod BindsBatch
use vote_sdk.Base.{
  ℕ, suc, ◌-◌, List, [], ◌∷◌, ◌++◌, Bytes, leb, length, take, replicate, if◌then◌else◌, uint32,
}
use vote_sdk.Keys.{byte_at}
use vote_sdk.Msgs.{MsgCastVote, MsgCastVoteBatch, MsgDelegateAndCastVoteBatch}

abbrev pub cast_vote_sighash_domain : Bytes
cast_vote_sighash_domain =
    b'S' ∷ b'V' ∷ b'O' ∷ b'T' ∷ b'E' ∷ b'_' ∷ b'C' ∷ b'A' ∷ b'S' ∷ b'T' ∷ b'_' ∷ b'V' ∷ b'O' ∷ b'T'
    ∷ b'E' ∷ b'_' ∷ b'S' ∷ b'I' ∷ b'G' ∷ b'H' ∷ b'A' ∷ b'S' ∷ b'H' ∷ b'_' ∷ b'V' ∷ b'0' ∷ []

abbrev cast_vote_batch_sighash_domain : Bytes
cast_vote_batch_sighash_domain =
    b'S' ∷ b'V' ∷ b'O' ∷ b'T' ∷ b'E' ∷ b'_' ∷ b'C' ∷ b'A' ∷ b'S' ∷ b'T' ∷ b'_' ∷ b'V' ∷ b'O' ∷ b'T'
    ∷ b'E' ∷ b'_' ∷ b'B' ∷ b'A' ∷ b'T' ∷ b'C' ∷ b'H' ∷ b'_' ∷ b'S' ∷ b'I' ∷ b'G' ∷ b'H' ∷ b'A'
    ∷ b'S' ∷ b'H' ∷ b'_' ∷ b'V' ∷ b'1' ∷ []

abbrev pub delegate_and_cast_vote_batch_sighash_domain : Bytes
delegate_and_cast_vote_batch_sighash_domain =
    b'S' ∷ b'V' ∷ b'O' ∷ b'T' ∷ b'E' ∷ b'_' ∷ b'D' ∷ b'E' ∷ b'L' ∷ b'E' ∷ b'G' ∷ b'A' ∷ b'T' ∷ b'E'
    ∷ b'_' ∷ b'A' ∷ b'N' ∷ b'D' ∷ b'_' ∷ b'C' ∷ b'A' ∷ b'S' ∷ b'T' ∷ b'_' ∷ b'V' ∷ b'O' ∷ b'T'
    ∷ b'E' ∷ b'_' ∷ b'B' ∷ b'A' ∷ b'T' ∷ b'C' ∷ b'H' ∷ b'_' ∷ b'S' ∷ b'I' ∷ b'G' ∷ b'H' ∷ b'A'
    ∷ b'S' ∷ b'H' ∷ b'_' ∷ b'V' ∷ b'1' ∷ []

-- `b` cut to 32 bytes, or with zeros behind it.
unfoldable pub write32 : Bytes → Bytes
write32 b = if leb 32 (length b) then take 32 b else b ++ replicate (32 - length b) 0

unfoldable pub write_u32_as32 : ℕ → Bytes
write_u32_as32 value =
    (byte_at value 0 ∷ byte_at value 8 ∷ byte_at value 16 ∷ byte_at value 24 ∷ []) ++ replicate 28 0

unfoldable pub write_u64_as32 : ℕ → Bytes
write_u64_as32 value =
    (byte_at value 0
      ∷ byte_at value 8
      ∷ byte_at value 16
      ∷ byte_at value 24
      ∷ byte_at value 32
      ∷ byte_at value 40
      ∷ byte_at value 48
      ∷ byte_at value 56
      ∷ [])
    ++ replicate 24 0

unfoldable pub cast_vote_payload : MsgCastVote → Bytes
unfolding write32 write_u32_as32 write_u64_as32
cast_vote_payload msg =
    cast_vote_sighash_domain
    ++ (write32 msg.vote_round_id
        ++ (write32 msg.r_vpk
            ++ (write32 msg.van_nullifier
                ++ (write32 msg.vote_authority_note_new
                    ++ (write32 msg.vote_commitment
                        ++ (write_u32_as32 msg.proposal_id
                            ++ write_u64_as32 msg.vote_comm_tree_anchor_height))))))

-- The loop over the votes from position `i`.
unfoldable pub votes_payload : ℕ → List MsgCastVote → Bytes
unfolding write32 write_u32_as32
votes_payload i [] = []
votes_payload i (vote ∷ rest) =
    write_u32_as32 (uint32 i)
    ++ (write32 vote.r_vpk
        ++ (write32 vote.van_nullifier
            ++ (write32 vote.vote_authority_note_new
                ++ (write32 vote.vote_commitment
                    ++ (write_u32_as32 vote.proposal_id ++ votes_payload (suc i) rest)))))

unfoldable pub delegate_and_cast_payload : MsgDelegateAndCastVoteBatch → Bytes
unfolding votes_payload
delegate_and_cast_payload msg =
    delegate_and_cast_vote_batch_sighash_domain
    ++ (write32 msg.delegation.vote_round_id
        ++ (write32 msg.delegation.van_cmx
            ++ (write_u32_as32 (uint32 (length msg.batch.votes))
                ++ votes_payload 0 msg.batch.votes)))

module _ (blake2b_256 : Bytes → Bytes) where
  unfoldable pub compute_cast_vote_sighash : MsgCastVote → Bytes
  unfolding cast_vote_payload
  compute_cast_vote_sighash msg = blake2b_256 (cast_vote_payload msg)

  -- A batch without votes has no digest.
  abbrev batch_sighash : List MsgCastVote → Bytes
  batch_sighash [] = []
  batch_sighash (first ∷ rest) = blake2b_256 (
      cast_vote_batch_sighash_domain
      ++ write32 first.vote_round_id
      ++ write_u64_as32 first.vote_comm_tree_anchor_height
      ++ write_u32_as32 (uint32 (length (first ∷ rest)))
      ++ votes_payload 0 (first ∷ rest))

  unfoldable pub compute_cast_vote_batch_sighash : MsgCastVoteBatch → Bytes
  unfolding votes_payload
  compute_cast_vote_batch_sighash msg = batch_sighash msg.votes

  unfoldable pub compute_delegate_and_cast_vote_batch_sighash : MsgDelegateAndCastVoteBatch → Bytes
  unfolding delegate_and_cast_payload
  compute_delegate_and_cast_vote_batch_sighash msg =
      if leb (length msg.batch.votes) 0 then [] else blake2b_256 (delegate_and_cast_payload msg)
