-- ===== src/Keeper/Ceremony/Reads.antt =====
-- Calls that only read the round of a ceremony (x/vote/keeper/keeper_ceremony.go).
use vote_sdk.Base.{◌≡◌, not, false, Option, Bytes, arith, Preserves, preserves_rules}
use vote_sdk.Types.{SessionStatus, CeremonyStatus, Context, is_pending}
use vote_sdk.Kv.{KvStore}
use vote_sdk.Keeper.Rounds.Stored.{round-keeps}
use vote_sdk.Keeper.Ceremony.{validate_proposer_is_creator, get_pending_round_with_ceremony}

pub pending-eq : (s : SessionStatus) → not (is_pending s) ≡ false → s ≡ SessionStatus.pending
pending-eq s h = ground arith

module _ {S : Type 0} ⦃kv : KvStore S⦄ {Q : S → Type 0} where
  pub proposer-keeps :
      (op : Bytes → Option Bytes) (ctx : Context) (creator : Bytes)
      → Preserves Q (validate_proposer_is_creator {S = S} op ctx creator)
  unfolding validate_proposer_is_creator
  proposer-keeps op ctx creator = search preserves_rules depth 20

  pub pending-keeps :
      (id : Bytes) (c : CeremonyStatus) → Preserves Q (get_pending_round_with_ceremony id c)
  unfolding get_pending_round_with_ceremony
  pending-keeps id c = search (preserves_rules, round-keeps) depth 20
