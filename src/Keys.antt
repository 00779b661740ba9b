-- ===== src/Keys.antt =====
-- The keys of the module's store (x/vote/types/keys.go): big-endian integers, one function for each
-- key or prefix, and the end of a prefix scan.
pub mod Range
pub mod Injective
use vote_sdk.Base.{
  ℕ, ◌+◌, ◌*◌, ◌/◌, ◌%◌, ◌^◌, Bool, true, false, ◌&&◌, ◌||◌, Option, none, some, List, [], ◌∷◌,
  ◌++◌, ltb, leb, ◌==◌, if◌then◌else◌, length, all, Bytes, Error, Result, ok, err, Done, then_check,
}
use mathlib.Core.List.{reverse}
use mathlib.Core.Option

abbrev pub round_id_len : ℕ
round_id_len = 32

abbrev pub max_endorser_id_len : ℕ
max_endorser_id_len = 64

-- `NullifierType`, and the byte that it is.
pub data NullifierType : Type 0 where
  gov : NullifierType
  vote_authority_note : NullifierType
  share : NullifierType

abbrev pub type_byte : NullifierType → ℕ
type_byte NullifierType.gov = 0x00
type_byte NullifierType.vote_authority_note = 0x01
type_byte NullifierType.share = 0x02

-- `byte(v >> k)`
abbrev pub byte_at : ℕ → ℕ → ℕ
byte_at v k = v / 2 ^ k % 256

unfoldable pub put_uint64_be : ℕ → Bytes
put_uint64_be v =
    byte_at v 56
    ∷ byte_at v 48
    ∷ byte_at v 40
    ∷ byte_at v 32
    ∷ byte_at v 24
    ∷ byte_at v 16
    ∷ byte_at v 8
    ∷ byte_at v 0
    ∷ []

unfoldable pub put_uint32_be : ℕ → Bytes
put_uint32_be v = byte_at v 24 ∷ byte_at v 16 ∷ byte_at v 8 ∷ byte_at v 0 ∷ []

-- `append(b, …)`
unfoldable pub append_uint32_be : Bytes → ℕ → Bytes
unfolding put_uint32_be
append_uint32_be b v = b ++ put_uint32_be v

-- Reading from a slice that is too short panics: `none`. The `|` of shifted bytes is their sum.
unfoldable pub get_uint32_be : Bytes → Option ℕ
get_uint32_be (a ∷ b ∷ c ∷ d ∷ rest) = some (a * 2 ^ 24 + b * 2 ^ 16 + c * 2 ^ 8 + d)
get_uint32_be _ = none

unfoldable pub get_uint64_be : Bytes → Option ℕ
get_uint64_be (a ∷ b ∷ c ∷ d ∷ e ∷ f ∷ g ∷ h ∷ rest) =
    some
      (a * 2 ^ 56 + b * 2 ^ 48 + c * 2 ^ 40 + d * 2 ^ 32 + e * 2 ^ 24 + f * 2 ^ 16 + g * 2 ^ 8 + h)
get_uint64_be _ = none

unfoldable pub validate_round_id : Bytes → Result Done
validate_round_id id = if length id == round_id_len then ok tt else err Error.invalid_round_id_len

abbrev id_char : ℕ → Bool
id_char c = (leb b'a' c && leb c b'z') || (leb b'0' c && leb c b'9') || c == b'-'

unfoldable pub validate_endorser_id : Bytes → Result Done
validate_endorser_id id =
    if length id == 0
    then err Error.invalid_endorser_id
    else if ltb max_endorser_id_len (length id)
    then err Error.invalid_endorser_id
    else if all id_char id
    then ok tt
    else err Error.invalid_endorser_id

-- The key, once a check has passed.
abbrev pub checked_key : Result Done → Bytes → Result Bytes
checked_key (ok _) k = ok k
checked_key (err e) k = err e

unfoldable pub nullifier_key : NullifierType → Bytes → Bytes → Result Bytes
unfolding validate_round_id
nullifier_key nf_type round_id nullifier =
    checked_key (validate_round_id round_id) (0x01 ∷ type_byte nf_type ∷ round_id ++ nullifier)

unfoldable pub nullifier_prefix_for_round : NullifierType → Bytes → Result Bytes
unfolding validate_round_id
nullifier_prefix_for_round nf_type round_id =
    checked_key (validate_round_id round_id) (0x01 ∷ type_byte nf_type ∷ round_id)

unfoldable pub round_tree_key : Bytes → Bytes
round_tree_key round_id = 0x14 ∷ round_id

unfoldable pub coordinator_action_key : ℕ → Bytes
coordinator_action_key action_id = 0x18 ∷ put_uint64_be action_id

unfoldable pub commitment_leaf_key : Bytes → ℕ → Bytes
unfolding round_tree_key
commitment_leaf_key round_id index = round_tree_key round_id ++ 0x02 ∷ put_uint64_be index

unfoldable pub commitment_leaf_prefix_for_round : Bytes → Bytes
unfolding round_tree_key
commitment_leaf_prefix_for_round round_id = round_tree_key round_id ++ 0x02 ∷ []

unfoldable pub commitment_root_key : Bytes → ℕ → Bytes
unfolding round_tree_key
commitment_root_key round_id height = round_tree_key round_id ++ 0x03 ∷ put_uint64_be height

unfoldable pub commitment_root_prefix_for_round : Bytes → Bytes
unfolding round_tree_key
commitment_root_prefix_for_round round_id = round_tree_key round_id ++ 0x03 ∷ []

unfoldable pub round_tree_state_key : Bytes → Bytes
unfolding round_tree_key
round_tree_state_key round_id = round_tree_key round_id ++ 0x06 ∷ []

unfoldable pub block_leaf_index_key : Bytes → ℕ → Bytes
unfolding round_tree_key
block_leaf_index_key round_id height = round_tree_key round_id ++ 0x08 ∷ put_uint64_be height

unfoldable pub block_leaf_index_prefix_for_round : Bytes → Bytes
unfolding round_tree_key
block_leaf_index_prefix_for_round round_id = round_tree_key round_id ++ 0x08 ∷ []

unfoldable pub vote_round_key : Bytes → Result Bytes
unfolding validate_round_id
vote_round_key round_id = checked_key (validate_round_id round_id) (0x04 ∷ round_id)

-- The keys of a (round, proposal, decision) tuple behind a prefix byte.
abbrev tuple_key : ℕ → Bytes → ℕ → ℕ → Bytes
tuple_key prefix round_id proposal_id decision =
    append_uint32_be (append_uint32_be (prefix ∷ round_id) proposal_id) decision

unfoldable pub tally_key : Bytes → ℕ → ℕ → Result Bytes
unfolding validate_round_id append_uint32_be
tally_key round_id proposal_id decision =
    checked_key (validate_round_id round_id) (tuple_key 0x05 round_id proposal_id decision)

unfoldable pub tally_prefix_for_proposal : Bytes → ℕ → Result Bytes
unfolding validate_round_id append_uint32_be
tally_prefix_for_proposal round_id proposal_id =
    checked_key (validate_round_id round_id) (append_uint32_be (0x05 ∷ round_id) proposal_id)

unfoldable pub tally_result_key : Bytes → ℕ → ℕ → Result Bytes
unfolding validate_round_id append_uint32_be
tally_result_key round_id proposal_id decision =
    checked_key (validate_round_id round_id) (tuple_key 0x07 round_id proposal_id decision)

unfoldable pub tally_result_prefix_for_round : Bytes → Result Bytes
unfolding validate_round_id
tally_result_prefix_for_round round_id = checked_key (validate_round_id round_id) (0x07 ∷ round_id)

unfoldable pub share_count_key : Bytes → ℕ → ℕ → Result Bytes
unfolding validate_round_id append_uint32_be
share_count_key round_id proposal_id decision =
    checked_key (validate_round_id round_id) (tuple_key 0x0B round_id proposal_id decision)

unfoldable pub pallas_key_key : Bytes → Bytes
pallas_key_key valoper_addr = 0x0C ∷ valoper_addr

unfoldable pub pallas_key_reverse_lookup_key : Bytes → Bytes
pallas_key_reverse_lookup_key pk = 0x15 ∷ pk

unfoldable pub shard_key : ℕ → Bytes
shard_key index = 0x0F ∷ put_uint64_be index

unfoldable pub shard_checkpoint_key : ℕ → Bytes
shard_checkpoint_key id = 0x11 ∷ put_uint32_be id

unfoldable pub partial_decryption_key : Bytes → ℕ → ℕ → ℕ → Result Bytes
unfolding validate_round_id append_uint32_be
partial_decryption_key round_id validator_index proposal_id decision =
    checked_key (validate_round_id round_id) (
      append_uint32_be
        (append_uint32_be (append_uint32_be (0x12 ∷ round_id) validator_index) proposal_id)
        decision)

unfoldable pub partial_decryption_prefix_for_round : Bytes → Result Bytes
unfolding validate_round_id
partial_decryption_prefix_for_round round_id =
    checked_key (validate_round_id round_id) (0x12 ∷ round_id)

unfoldable pub partial_decryption_prefix_for_validator : Bytes → ℕ → Result Bytes
unfolding validate_round_id append_uint32_be
partial_decryption_prefix_for_validator round_id validator_index =
    checked_key (validate_round_id round_id) (append_uint32_be (0x12 ∷ round_id) validator_index)

unfoldable pub endorser_address_key : Bytes → Result Bytes
unfolding validate_endorser_id
endorser_address_key endorser_id =
    checked_key (validate_endorser_id endorser_id) (0x16 ∷ endorser_id)

unfoldable pub endorsed_round_key : Bytes → Bytes → Result Bytes
unfolding validate_endorser_id validate_round_id
endorsed_round_key endorser_id round_id =
    then_check (validate_endorser_id endorser_id)
      (checked_key (validate_round_id round_id) (0x17 ∷ endorser_id ++ 0x00 ∷ round_id))

unfoldable pub endorsed_round_prefix_for_id : Bytes → Result Bytes
unfolding validate_endorser_id
endorsed_round_prefix_for_id endorser_id =
    checked_key (validate_endorser_id endorser_id) (0x17 ∷ endorser_id ++ 0x00 ∷ [])

-- The loop of `PrefixEndBytes`, from the last byte to the first.
bump_from_end : Bytes → Option Bytes
bump_from_end [] = none
bump_from_end (b ∷ front) =
    let rest = bump_from_end front in
    if (b + 1) % 256 == 0 then rest else some (((b + 1) % 256) ∷ front)

unfoldable pub prefix_end_bytes : Bytes → Option Bytes
unfolding bump_from_end
prefix_end_bytes prefix = Option.map reverse (bump_from_end (reverse prefix))
