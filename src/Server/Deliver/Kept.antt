-- ===== src/Server/Deliver/Kept.antt =====
-- The entries that the ceremony, registry and endorsement messages leave, and any sequence of messages
-- (x/vote/keeper/msg_server*.go).
use vote_sdk.Base.{
  ◌≡◌, refl, ◌++◌, then_check, false, bytes_eq, Option, List, [], ◌∷◌, Bytes, Result, ok, err, Done,
  lift, ◌>>=◌, Preserves, Preserves-bind, Preserves-pure,
}
use vote_sdk.Types.{Context, VoteRound, PartialDecryptionEntry}
use vote_sdk.Crypto.{Curve}
use vote_sdk.Crypto.Proofs.{Scalars}
use vote_sdk.Kv.{KvStore, kv_delete}
use vote_sdk.Keys.{
  NullifierType, nullifier_key, endorsed_round_key, pallas_key_reverse_lookup_key,
  validate_endorser_id, validate_round_id, checked_key, type_byte,
}
use vote_sdk.Keeper.Rounds.{get_vote_round, set_vote_round, iterate_pending_rounds, iterate_rounds}
use vote_sdk.Keeper.Registry.{
  get_pallas_key, delete_pallas_key_reverse, rotate_pallas_key_core, register_pallas_key_core,
  has_pallas_key, get_pallas_key_owner, set_pallas_key,
}
use vote_sdk.Keeper.Ceremony.{
  validate_proposer_is_creator, get_pending_round_with_ceremony, is_validator_in_pending_ceremony,
}
use vote_sdk.Keeper.Endorsers.{get_endorser, add_endorsed_round, delete_endorsed_round}
use vote_sdk.Keeper.Tally.{
  get_tally, validate_partial_decryption_completeness, collect_non_empty_accumulators,
}
use vote_sdk.Server.Tally.{set_partial_decryptions, has_partial_decryptions_from_validator}
use vote_sdk.Server.Registry.{
  MsgRegisterPallasKey, MsgRotatePallasKey, register_pallas_key, rotate_pallas_key,
}
use vote_sdk.Server.Contribute.{MsgContributeDkg, check_contribution, contribute_dkg}
use vote_sdk.Server.Decrypt.{
  MsgSubmitPartialDecryption, validate_entry, validate_entries,
  validate_and_decode_partial_decryption_entries, verify_entry_proof, submit_partial_decryption,
}
use vote_sdk.Server.Coordinator.{MsgEndorseRound}
use vote_sdk.Server.Coordinator.Endorse.{authorize_endorser, endorse_round, clear_round_endorsement}
use vote_sdk.Server.Deliver.Presence.{Present, call_rules, keeps-collect_from}

-- The key of a nullifier with its type and round.
abbrev pub key_of : NullifierType × Bytes × Bytes → Result Bytes
key_of (t, id, n) = nullifier_key t id n

pub checked_key-eq : (r : Result Done) (k n : Bytes) → checked_key r k ≡ ok n → k ≡ n
checked_key-eq (ok _) k n h = cc h
checked_key-eq (err e) k n h = absurd (cc h)

-- Nullifiers, owners of keys and endorsements have keys of different kinds.
owner_entry :
    (x : NullifierType × Bytes × Bytes) (pk n : Bytes)
    → key_of x ≡ ok n
    → bytes_eq (pallas_key_reverse_lookup_key pk) n ≡ false
unfolding nullifier_key pallas_key_reverse_lookup_key bytes_eq
owner_entry (t, id, nf) pk n e =
    rw (← checked_key-eq (validate_round_id id) (0x01 ∷ type_byte t ∷ id ++ nf) n e) refl

endorsement_entry :
    (x : NullifierType × Bytes × Bytes) (id rid k n : Bytes)
    → endorsed_round_key id rid ≡ ok k
    → key_of x ≡ ok n
    → bytes_eq k n ≡ false
unfolding nullifier_key endorsed_round_key bytes_eq
endorsement_entry (t, rd, nf) id rid k n h e =
    rw
      (
        ← checked_key-eq (validate_round_id rd) (0x01 ∷ type_byte t ∷ rd ++ nf) n e,
        ← second (validate_endorser_id id) h,
      )
      refl
  where
    second :
        (r : Result Done)
        → then_check r (checked_key (validate_round_id rid) (0x17 ∷ id ++ 0x00 ∷ rid)) ≡ ok k
        → 0x17 ∷ id ++ 0x00 ∷ rid ≡ k
    second (ok _) q = checked_key-eq (validate_round_id rid) (0x17 ∷ id ++ 0x00 ∷ rid) k q
    second (err _) q = absurd (cc q)

module _ {S : Type 0} ⦃kv : KvStore S⦄ where
  module _ (key : Result Bytes) where
    pub keeps-register :
        {P F : Type 0} (c : Curve P F) (val : Bytes → Option Bytes) (m : MsgRegisterPallasKey)
        → Preserves {S = S} (Present key) (register_pallas_key c val m)
    unfolding register_pallas_key register_pallas_key_core has_pallas_key get_pallas_key_owner
        set_pallas_key
    keeps-register c val m = search call_rules depth 40

    pub keeps-contribute :
        {P F : Type 0} (c : Curve P F) (sc : Scalars F) (op : Bytes → Option Bytes)
        (chain_id : Bytes) (ctx : Context) (m : MsgContributeDkg)
        → Preserves {S = S} (Present key) (contribute_dkg c sc op chain_id ctx m)
    unfolding contribute_dkg check_contribution validate_proposer_is_creator
        get_pending_round_with_ceremony get_vote_round set_vote_round
    keeps-contribute c sc op chain_id ctx m = search call_rules depth 60

    pub keeps-endorse :
        (normalize : Bytes → Option Bytes) (m : MsgEndorseRound)
        → Preserves {S = S} (Present key) (endorse_round normalize m)
    unfolding endorse_round authorize_endorser get_endorser get_vote_round add_endorsed_round
    keeps-endorse normalize m = search call_rules depth 40

    keeps-validate_entry :
        {P F : Type 0} (c : Curve P F) (sc : Scalars F) (r : VoteRound) (e : PartialDecryptionEntry)
        → Preserves {S = S} (Present key) (validate_entry c sc r e)
    unfolding validate_entry get_tally
    keeps-validate_entry c sc r e = search call_rules depth 40

    keeps-validate_entries :
        {P F : Type 0} (c : Curve P F) (sc : Scalars F) (r : VoteRound)
        (es : List PartialDecryptionEntry)
        → Preserves {S = S} (Present key) (validate_entries c sc r es)
    unfolding validate_entries
    keeps-validate_entries c sc r [] = Preserves-pure []
    keeps-validate_entries c sc r (e ∷ rest) =
        Preserves-bind (validate_entry c sc r e) _ (keeps-validate_entry c sc r e) (λ v.
          Preserves-bind (validate_entries c sc r rest) _ (keeps-validate_entries c sc r rest)
            (λ vs. Preserves-pure _))

    keeps-decode :
        {P F : Type 0} (c : Curve P F) (sc : Scalars F) (r : VoteRound)
        (es : List PartialDecryptionEntry)
        → Preserves {S = S} (Present key) (validate_and_decode_partial_decryption_entries c sc r es)
    unfolding validate_and_decode_partial_decryption_entries
        validate_partial_decryption_completeness collect_non_empty_accumulators
    keeps-decode c sc r es =
        search (call_rules, keeps-collect_from, keeps-validate_entries) depth 40

    pub keeps-submit_partial_decryption :
        {P F : Type 0} (c : Curve P F) (sc : Scalars F) (op : Bytes → Option Bytes) (ctx : Context)
        (m : MsgSubmitPartialDecryption)
        → Preserves {S = S} (Present key) (submit_partial_decryption c sc op ctx m)
    unfolding submit_partial_decryption validate_proposer_is_creator get_vote_round
        has_partial_decryptions_from_validator set_partial_decryptions verify_entry_proof
    keeps-submit_partial_decryption c sc op ctx m = search (call_rules, keeps-decode) depth 60

    -- A deletion of another key.
    pub keeps-delete :
        (k : Bytes)
        → ((n : Bytes) → key ≡ ok n → bytes_eq k n ≡ false)
        → Preserves {S = S} (Present key) (kv_delete k)
    unfolding kv_delete Present
    keeps-delete k h = record { after = λ s p. deleted key k s h p }
      where
        deleted :
            (key' : Result Bytes) (k : Bytes) (s : S)
            → ((n : Bytes) → key' ≡ ok n → bytes_eq k n ≡ false)
            → Present key' s
            → Present key' (kv.delete s k)
        deleted (ok n) k s h p = let g = kv.get-delete s k n in let e = rw (h n refl) at g in rw e p
        deleted (err x) k s h p = p

  module _ (x : NullifierType × Bytes × Bytes) where
    keeps-delete_pallas_key_reverse :
        (pk : Bytes) → Preserves {S = S} (Present (key_of x)) (delete_pallas_key_reverse pk)
    unfolding delete_pallas_key_reverse
    keeps-delete_pallas_key_reverse pk =
        keeps-delete (key_of x) (pallas_key_reverse_lookup_key pk) (owner_entry x pk)

    keeps-delete_endorsement :
        (id rid : Bytes) → Preserves {S = S} (Present (key_of x)) (delete_endorsed_round id rid)
    unfolding delete_endorsed_round
    keeps-delete_endorsement id rid = with_key (endorsed_round_key id rid) refl
      where
        with_key :
            (r : Result Bytes)
            → endorsed_round_key id rid ≡ r
            → Preserves {S = S} (Present (key_of x)) (lift r >>= λ k. kv_delete k)
        with_key (ok k) e = record {
          after =
              let d = keeps-delete (key_of x) k (λ n q. endorsement_entry x id rid k n e q) in
              d.after;
        }
        with_key (err z) e = record { after = λ s p. p }

    pub keeps-rotate :
        {P F : Type 0} (c : Curve P F) (val : Bytes → Option Bytes) (m : MsgRotatePallasKey)
        → Preserves {S = S} (Present (key_of x)) (rotate_pallas_key c val m)
    unfolding rotate_pallas_key rotate_pallas_key_core get_pallas_key get_pallas_key_owner
        set_pallas_key is_validator_in_pending_ceremony iterate_pending_rounds iterate_rounds
    keeps-rotate c val m = search (call_rules, keeps-delete_pallas_key_reverse) depth 40

    pub keeps-clear :
        (normalize : Bytes → Option Bytes) (m : MsgEndorseRound)
        → Preserves {S = S} (Present (key_of x)) (clear_round_endorsement normalize m)
    unfolding clear_round_endorsement authorize_endorser get_endorser get_vote_round
    keeps-clear normalize m = search (call_rules, keeps-delete_endorsement) depth 40
