-- ===== src/Server/Registry.antt =====
-- Registering and rotating a validator's Pallas key (x/vote/keeper/msg_server_ceremony.go), and
-- sequences of these messages.
pub mod Unique
use vote_sdk.Base.{
  ℕ, Bool, true, false, Option, none, some, List, [], ◌∷◌, Bytes, Error, Result, ok, err, Action,
  Done, raise_if, or_raise, lift, pure, ◌>>=◌, ◌>>◌,
}
use vote_sdk.Kv.{KvStore}
use vote_sdk.Crypto.{Curve}
use vote_sdk.Crypto.ElGamal.{unmarshal_public_key}
use vote_sdk.Keeper.Ceremony.{is_validator_in_pending_ceremony}
use vote_sdk.Keeper.Registry.{register_pallas_key_core, rotate_pallas_key_core}

pub record MsgRegisterPallasKey : Type 0 where
  pub creator : Bytes
  pub pallas_pk : Bytes

pub record MsgRotatePallasKey : Type 0 where
  pub creator : Bytes
  pub new_pallas_pk : Bytes

-- A key that does not decode is `ErrInvalidPallasPoint`, whatever the decoder's reason.
abbrev pub point_check : {P : Type 0} → Result P → Result Done
point_check (ok _) = ok tt
point_check (err _) = err Error.invalid_pallas_point

module _ {S P F : Type 0} ⦃kv : KvStore S⦄ where
  -- `val_address_of` is `sdk.ValAddress(accAddr).String()` of an account address that parses.
  unfoldable pub register_pallas_key :
      Curve P F → (Bytes → Option Bytes) → MsgRegisterPallasKey → Action S Done
  unfolding ◌>>=◌
  register_pallas_key c val_address_of msg = do
    lift (point_check (unmarshal_public_key c msg.pallas_pk))
    val_addr ← or_raise (val_address_of msg.creator) Error.external
    register_pallas_key_core val_addr msg.pallas_pk

  unfoldable pub rotate_pallas_key :
      Curve P F → (Bytes → Option Bytes) → MsgRotatePallasKey → Action S Done
  unfolding ◌>>=◌
  rotate_pallas_key c val_address_of msg = do
    lift (point_check (unmarshal_public_key c msg.new_pallas_pk))
    val_addr ← or_raise (val_address_of msg.creator) Error.external
    in_ceremony ← is_validator_in_pending_ceremony val_addr
    raise_if in_ceremony Error.ceremony_in_progress
    old ← rotate_pallas_key_core val_addr msg.new_pallas_pk
    pure tt

pub data RegistryMsg : Type 0 where
  register : MsgRegisterPallasKey → RegistryMsg
  rotate : MsgRotatePallasKey → RegistryMsg

-- The store after a message: its handler's on success, the one before it on an error.
abbrev pub commit_registry : {S : Type 0} → S → Result Done × S → S
commit_registry s (ok _, t) = t
commit_registry s (err _, t) = s

module _ {S P F : Type 0} ⦃kv : KvStore S⦄ (c : Curve P F)
    (val_address_of : Bytes → Option Bytes) where
  unfoldable pub handle_registry : RegistryMsg → Action S Done
  handle_registry (RegistryMsg.register m) = register_pallas_key c val_address_of m
  handle_registry (RegistryMsg.rotate m) = rotate_pallas_key c val_address_of m

  unfoldable pub run_registry : List RegistryMsg → S → S
  unfolding handle_registry
  run_registry [] s = s
  run_registry (m ∷ rest) s = run_registry rest (commit_registry s (handle_registry m s))
