-- ===== src/Server/Sessions/Session.antt =====
-- The round of a session that has opened, as it stands in the store (x/vote/keeper/msg_server.go).
use vote_sdk.Base.{
  ℕ, suc, ◌≤◌, ◌≡◌, refl, sym, ap, ◌∙◌, subst, inl, inr, Bool, true, false, not, ◌&&◌, Option, some,
  List, [], ◌∷◌, ◌++◌, Bytes, Result, ok, err, Error, length, In, In-append, to_uint64, Bool-cases,
  Option-cases, ◌>>=◌, if◌then◌else◌,
}
use vote_sdk.Types.{
  Value, Context, VoteRound, ValidatorPallasKey, SessionStatus, CeremonyStatus, as_pallas_key,
}
use vote_sdk.Kv.{KvStore, kv_iterator}
use vote_sdk.Keys.{prefix_end_bytes}
use vote_sdk.Keeper.Rounds.{get_vote_round}
use vote_sdk.Keeper.Ceremony.{append_ceremony_log}
use vote_sdk.Keeper.Registry.{
  StakingValidator, get_eligible_validators, iterate_all_pallas_keys, scan_pallas_keys,
  is_active_ceremony_validator, get_active_ceremony_validator,
}
use vote_sdk.Keeper.Managers.{get_min_ceremony_validators}
use vote_sdk.Msgs.{MsgCreateVotingSession}
use vote_sdk.Server.Sessions.{assign_shamir_indices, opened_round, execute_create_voting_session}
use vote_sdk.Server.Sessions.Opening.{ok_inj, execute_create_voting_session-opens}

-- An operator address whose validator is bonded and not jailed.
abbrev pub Serving : (Bytes → Option StakingValidator) → Bytes → Type 0
Serving get_validator addr =
    (val : StakingValidator) × (get_validator addr ≡ some val)
    × (val.bonded ≡ true)
    × (val.jailed ≡ false)

-- The callback of the scan.
abbrev keep_active :
    (Bytes → Option StakingValidator)
    → List ValidatorPallasKey
    → ValidatorPallasKey
    → List ValidatorPallasKey × Bool
keep_active g acc k =
    if is_active_ceremony_validator g k.validator_address
    then (acc ++ k ∷ [], false)
    else (acc, false)

free_and_bonded : (b j : Bool) → (b && not j) ≡ true → (b ≡ true) × (j ≡ false)
free_and_bonded true false h = (refl, refl)
free_and_bonded true true h = absurd (cc h)
free_and_bonded false j h = absurd (cc h)

is_active_ceremony_validator-Serving :
    (g : Bytes → Option StakingValidator) (addr : Bytes)
    → is_active_ceremony_validator g addr ≡ true
    → Serving g addr
unfolding is_active_ceremony_validator get_active_ceremony_validator
is_active_ceremony_validator-Serving g addr h = elim (Option-cases (g addr)) [
  | inl e ↦
      absurd
        (let z = rw (e, is_active_ceremony_validator, get_active_ceremony_validator) at h in cc z)
  | inr (val, e) ↦ elim (Bool-cases (val.bonded && not val.jailed)) [
    | inl p ↦ let (b, j) = free_and_bonded val.bonded val.jailed p in (val, e, b, j)
    | inr p ↦ absurd (
        let z = rw (e, p, is_active_ceremony_validator, get_active_ceremony_validator) at h in cc z)
  ]
]

abbrev AllServing : (Bytes → Option StakingValidator) → List ValidatorPallasKey → Type 0
AllServing g vs = (v : ValidatorPallasKey) → In v vs → Serving g v.validator_address

kept_active :
    (g : Bytes → Option StakingValidator) (acc : List ValidatorPallasKey) (k : ValidatorPallasKey)
    → AllServing g acc
    → is_active_ceremony_validator g k.validator_address ≡ true
    → AllServing g (acc ++ k ∷ [])
kept_active g acc k h p v m = elim (In-append acc (k ∷ []) v m) [
  | inl l ↦ h v l
  | inr (inl e) ↦
      subst (λ (x : ValidatorPallasKey). Serving g x.validator_address) (sym e)
        (is_active_ceremony_validator-Serving g k.validator_address p)
  | inr (inr n) ↦ absurd n
]

-- An entry after which the scan goes on.
scan_next :
    (cb : List ValidatorPallasKey → ValidatorPallasKey → List ValidatorPallasKey × Bool)
    (acc acc' : List ValidatorPallasKey) (j : Bytes) (w : Value) (k : ValidatorPallasKey)
    (rest : List (Bytes × Value))
    → as_pallas_key w ≡ some k
    → cb acc k ≡ (acc', false)
    → scan_pallas_keys cb acc ((j, w) ∷ rest) ≡ scan_pallas_keys cb acc' rest
unfolding scan_pallas_keys
scan_next cb acc acc' j w k rest e p =
    rw (e, ap (λ x. x.1) p, scan_pallas_keys) (ap (λ x. scan_pallas_keys cb x.0 rest) p)

scan_active :
    (g : Bytes → Option StakingValidator) (acc out : List ValidatorPallasKey)
    (entries : List (Bytes × Value))
    → scan_pallas_keys (keep_active g) acc entries ≡ ok out
    → AllServing g acc
    → AllServing g out
unfolding scan_pallas_keys
scan_active g acc out [] h a = subst (AllServing g) (ok_inj h) a
scan_active g acc out ((j, w) ∷ rest) h a = elim (Option-cases (as_pallas_key w)) [
  | inl e ↦ absurd (let z = rw (e, scan_pallas_keys) at h in cc z)
  | inr (k, e) ↦ elim (Bool-cases (is_active_ceremony_validator g k.validator_address)) [
    | inl p ↦
        scan_active g (acc ++ k ∷ []) out rest
          (sym (scan_next (keep_active g) acc (acc ++ k ∷ []) j w k rest e (rw p refl)) ∙ h)
          (kept_active g acc k a p)
    | inr p ↦
        scan_active g acc out rest
          (sym (scan_next (keep_active g) acc acc j w k rest e (rw p refl)) ∙ h) a
  ]
]

indexed_active :
    (g : Bytes → Option StakingValidator) (i : ℕ) (vs : List ValidatorPallasKey)
    → AllServing g vs
    → AllServing g (assign_shamir_indices i vs)
unfolding assign_shamir_indices
indexed_active g i [] a v m = absurd m
indexed_active g i (w ∷ rest) a v (inl e) =
    subst (λ (x : ValidatorPallasKey). Serving g x.validator_address) (sym e) (a w (inl refl))
indexed_active g i (w ∷ rest) a v (inr m) = indexed_active g (suc i) rest (λ x n. a x (inr n)) v m

length-assign_shamir_indices :
    (i : ℕ) (vs : List ValidatorPallasKey) → length (assign_shamir_indices i vs) ≡ length vs
unfolding assign_shamir_indices
length-assign_shamir_indices i [] = refl
length-assign_shamir_indices i (w ∷ rest) = ap suc (length-assign_shamir_indices (suc i) rest)

-- A round that starts its ceremony: what it takes of the message and the block, the deadline of
-- registration, and its validators.
pub record Starts (get_validator : Bytes → Option StakingValidator) (ctx : Context)
    (msg : MsgCreateVotingSession) (min_val : ℕ) (r : VoteRound) : Type 0 where
  pub pending : r.status ≡ SessionStatus.pending
  pub registering : r.ceremony_status ≡ CeremonyStatus.registering
  pub end_time : r.vote_end_time ≡ msg.vote_end_time
  pub proposals : r.proposals ≡ msg.proposals
  pub proposals_hash : r.proposals_hash ≡ msg.proposals_hash
  pub anchors : (r.nc_root ≡ msg.nc_root) × (r.nullifier_imt_root ≡ msg.nullifier_imt_root)
  pub creator : r.creator ≡ msg.creator
  pub start : r.ceremony_phase_start ≡ to_uint64 ctx.block_time
  pub timeout : r.ceremony_phase_timeout ≡ 600
  pub no_contributions : length r.dkg_contributions ≡ 0
  pub no_acks : length r.ceremony_acks ≡ 0
  pub enough : min_val ≤ length r.ceremony_validators
  pub active :
      (v : ValidatorPallasKey)
      → In v r.ceremony_validators
      → Serving get_validator v.validator_address

opened-Starts :
    (g : Bytes → Option StakingValidator) (ctx : Context) (msg : MsgCreateVotingSession)
    (id : Bytes) (min_val : ℕ) (vs : List ValidatorPallasKey)
    → min_val ≤ length vs
    → AllServing g vs
    → Starts g ctx msg min_val (opened_round ctx msg id vs)
unfolding opened_round append_ceremony_log
opened-Starts g ctx msg id min_val vs le a = record {
  pending = refl;
  registering = refl;
  end_time = refl;
  proposals = refl;
  proposals_hash = refl;
  anchors = (refl, refl);
  creator = refl;
  start = refl;
  timeout = refl;
  no_contributions = refl;
  no_acks = refl;
  enough = subst (λ n. min_val ≤ n) (sym (length-assign_shamir_indices 0 vs)) le;
  active = indexed_active g 0 vs a;
}

module _ {S : Type 0} ⦃kv : KvStore S⦄ where
  eligible_active :
      (g : Bytes → Option StakingValidator) (vs : List ValidatorPallasKey) (s : S)
      → get_eligible_validators g s ≡ (ok vs, s)
      → AllServing g vs
  unfolding get_eligible_validators iterate_all_pallas_keys kv_iterator ◌>>=◌
  eligible_active g vs s h =
      scan_active g [] vs (kv.iterator s (0x0C ∷ []) (prefix_end_bytes (0x0C ∷ [])))
        (ap (λ x. x.0) h) (λ v m. absurd m)

  -- The round that a session has opened is under the derived id, which no round had, pending and
  -- registering; it has the end of voting, the proposals with their hash, the anchors and the
  -- creator of the message, starts at the block's time with 600 seconds to register, has no
  -- contributions and no acks, and its validators, at least the stored minimum, are all bonded and
  -- not jailed.
  pub execute_create_voting_session-Starts :
      (derive : MsgCreateVotingSession → ℕ → Result Bytes)
      (get_validator : Bytes → Option StakingValidator) (ctx : Context)
      (msg : MsgCreateVotingSession) (id : Bytes) (s t : S)
      → execute_create_voting_session derive get_validator ctx msg s ≡ (ok id, t)
      → (derive msg ctx.block_height ≡ ok id)
        × (get_vote_round id s ≡ (err Error.round_not_found, s))
        × (r : VoteRound) × (min_val : ℕ) × (get_vote_round id t ≡ (ok r, t))
        × (get_min_ceremony_validators s ≡ (ok min_val, s))
        × Starts get_validator ctx msg min_val r
  execute_create_voting_session-Starts derive g ctx msg id s t h =
      let (d, o) = execute_create_voting_session-opens derive g ctx msg id s t h in
      (
        d,
        o.was_new,
        opened_round ctx msg id o.eligible,
        o.min_val,
        o.stored,
        o.minimum,
        opened-Starts g ctx msg id o.min_val o.eligible o.enough
            (eligible_active g o.eligible s o.was_eligible),
      )
