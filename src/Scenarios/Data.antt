-- ===== src/Scenarios/Data.antt =====
-- A round, a store that holds it, and voters' messages.
use vote_sdk.Base.{ℕ, false, Option, some, [], ◌∷◌, Bytes, replicate, pos}
use vote_sdk.Types.{
  VoteRound, VoteOption, Proposal, SessionStatus, CeremonyStatus, ValidatorPallasKey,
  DkgContribution, TallyEntry, Context,
}
use vote_sdk.Msgs.{MsgDelegateVote, MsgCastVote}

abbrev pub round_id : Bytes
round_id = replicate 32 7

abbrev option_at : ℕ → Option VoteOption
option_at i = some (record { index = i; label = 65 ∷ []; description = [] })

abbrev pub proposal : Proposal
proposal = record {
  id = 1;
  title = 80 ∷ [];
  description = [];
  options = option_at 0 ∷ option_at 1 ∷ [];
}

abbrev pub alice : ValidatorPallasKey
alice = record { validator_address = 1 ∷ []; pallas_pk = []; shamir_index = 1 }

abbrev pub bob : ValidatorPallasKey
bob = record { validator_address = 2 ∷ []; pallas_pk = []; shamir_index = 2 }

abbrev pub contribution : DkgContribution
contribution = record { validator_address = 2 ∷ []; feldman_commitments = []; payloads = [] }

abbrev pub round : VoteRound
round = record {
  vote_round_id = round_id;
  snapshot_height = 1;
  snapshot_blockhash = [];
  proposals_hash = [];
  vote_end_time = 1000;
  nullifier_imt_root = [];
  nc_root = [];
  creator = [];
  status = SessionStatus.active;
  ea_pk = [];
  proposals = some proposal ∷ [];
  description = [];
  created_at_height = 1;
  title = [];
  ceremony_status = CeremonyStatus.confirmed;
  ceremony_validators = alice ∷ bob ∷ [];
  ceremony_acks = record { validator_address = 2 ∷ []; ack_signature = []; ack_height = 5 } ∷ [];
  ceremony_phase_start = 0;
  ceremony_phase_timeout = 0;
  ceremony_log = [];
  threshold = 2;
  feldman_commitments = [];
  tally_phase_start = 0;
  tally_phase_timeout = 0;
  tally_timed_out = false;
  dkg_contributions = contribution ∷ [];
  discussion_url = [];
  created_at_time = 0;
}

abbrev pub entry : TallyEntry
entry = record { proposal_id = 1; vote_decision = 0; total_value = 5 }

abbrev pub context : Context
context = record {
  is_check_tx = false;
  is_recheck_tx = false;
  block_height = 10;
  block_time = pos 500;
  proposer_address = [];
}

abbrev pub delegation : MsgDelegateVote
delegation = record {
  rk = replicate 32 1;
  spend_auth_sig = replicate 64 1;
  signed_note_nullifier = replicate 32 2;
  cmx_new = replicate 32 3;
  van_cmx = replicate 32 4;
  gov_nullifiers = (9 ∷ []) ∷ [];
  proof = 1 ∷ [];
  vote_round_id = round_id;
  tx1_effects = [];
}

abbrev pub vote : ℕ → Bytes → MsgCastVote
vote p n = record {
  van_nullifier = n;
  vote_authority_note_new = replicate 32 1;
  vote_commitment = replicate 32 2;
  proposal_id = p;
  proof = 1 ∷ [];
  vote_round_id = round_id;
  vote_comm_tree_anchor_height = 3;
  vote_auth_sig = replicate 64 1;
  r_vpk = replicate 32 1;
}
