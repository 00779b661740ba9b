-- ===== src/Server/Deliver/Runs.antt =====
-- The entries of nullifiers through any sequence of messages (x/vote/keeper/msg_server*.go).
use vote_sdk.Base.{
  List, [], ◌∷◌, Bytes, Result, ok, err, Done, Preserves, Preserves-bind, Preserves-pure,
}
use vote_sdk.Types.{Context}
use vote_sdk.Keys.{NullifierType}
use vote_sdk.Kv.{KvStore}
use vote_sdk.Server.Coordinator.Approval.{propose_coordinator_action, approve_coordinator_action}
use vote_sdk.Server.Deliver.{Env, Msg, commit, handle, deliver, run}
use vote_sdk.Server.Deliver.Presence.{
  Present, keeps-delegate_vote, keeps-cast_vote, keeps-cast_vote_batch,
  keeps-delegate_and_cast_vote_batch, keeps-reveal_share, keeps-submit_tally, keeps-ack,
}
use vote_sdk.Server.Deliver.Kept.{
  key_of, keeps-register, keeps-contribute, keeps-endorse, keeps-submit_partial_decryption,
  keeps-rotate, keeps-clear,
}
use vote_sdk.Server.Deliver.Executed.{Separate, keeps-propose, keeps-approve}

module _ {S : Type 0} ⦃kv : KvStore S⦄ where
  module _ (x : NullifierType × Bytes × Bytes) where
    pub keeps-handle :
        {P F : Type 0} (env : Env S P F) (ctx : Context) (m : Msg)
        → Separate x env.modules
        → Preserves {S = S} (Present (key_of x)) (handle env ctx m)
    unfolding handle
    keeps-handle env ctx (Msg.delegate m) h = keeps-delegate_vote (key_of x) m
    keeps-handle env ctx (Msg.cast m) h = keeps-cast_vote (key_of x) m
    keeps-handle env ctx (Msg.cast_batch m) h = keeps-cast_vote_batch (key_of x) m
    keeps-handle env ctx (Msg.delegate_and_cast m) h =
        keeps-delegate_and_cast_vote_batch (key_of x) m
    keeps-handle env ctx (Msg.reveal m) h = keeps-reveal_share (key_of x) env.curve ctx m
    keeps-handle env ctx (Msg.tally m) h =
        keeps-submit_tally (key_of x) env.curve env.operator_of ctx m
    keeps-handle env ctx (Msg.ack m) h = keeps-ack (key_of x) env.operator_of env.digest ctx m
    keeps-handle env ctx (Msg.contribute m) h =
        keeps-contribute (key_of x) env.curve env.scalars env.operator_of env.chain_id ctx m
    keeps-handle env ctx (Msg.partial_decryption m) h =
        keeps-submit_partial_decryption (key_of x) env.curve env.scalars env.operator_of ctx m
    keeps-handle env ctx (Msg.register m) h =
        keeps-register (key_of x) env.curve env.val_address_of m
    keeps-handle env ctx (Msg.rotate m) h = keeps-rotate x env.curve env.val_address_of m
    keeps-handle env ctx (Msg.clear_endorsement m) h = keeps-clear x env.modules.normalize m
    keeps-handle env ctx (Msg.endorse m) h = keeps-endorse (key_of x) env.modules.normalize m
    keeps-handle env ctx (Msg.propose m) h =
        Preserves-bind (propose_coordinator_action env.modules ctx m) _
          (keeps-propose x env.modules h ctx m) (λ _. Preserves-pure tt)
    keeps-handle env ctx (Msg.approve m) h =
        Preserves-bind (approve_coordinator_action env.modules ctx m) _
          (keeps-approve x env.modules h ctx m) (λ _. Preserves-pure tt)

    commit-P :
        (s : S) (r : Result Done) (t : S)
        → Present (key_of x) s
        → Present (key_of x) t
        → Present (key_of x) (commit s (r, t))
    commit-P s (ok _) t h k = k
    commit-P s (err _) t h k = h

    pub run-Present :
        {P F : Type 0} (env : Env S P F) (msgs : List (Context × Msg)) (s : S)
        → Separate x env.modules
        → Present (key_of x) s
        → Present (key_of x) (run env msgs s)
    unfolding run deliver
    run-Present env [] s a h = h
    run-Present env ((ctx, m) ∷ rest) s a h = run-Present env rest (deliver env ctx m s) a (
        commit-P s (handle env ctx m s).0 (handle env ctx m s).1 h
          ((keeps-handle env ctx m a).after s h))
