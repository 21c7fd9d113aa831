-- ===== src/Memory/Learning.antt =====
-- memory/loop.py: the offline learning loop, from the clusters of the failure log to rules in the store.
pub mod Fair
pub mod Served
use smart_router.Prelude.{
  ℕ, suc, ◌+◌, Bool, true, false, Option, none, some, List, [], ◌∷◌, ◌++◌, map, String, Float, take,
  length, if◌then◌else◌,
}
use smart_router.Prelude.Dict.{put, string_eq}
use smart_router.Prelude.Exec.{Exec, pure, ◌>>=◌, ok}
use smart_router.Schemas.Message.{Text, Message}
use smart_router.Schemas.Rule.{RouterRule, RuleState, is_promoted_state}
use smart_router.Routing.World.{FailureRecord}
use smart_router.Memory.Lifecycle.{TransitionReason, score, evaluate, is_quarantined}
use smart_router.Memory.Store
use smart_router.Memory.Store.{RuleStore, add, save, promoted, next_rule_id, invalidate_for_model}
use smart_router.Memory.Gate.{FailureCluster, SuppressionGate, GateReason, judge_cluster}
use smart_router.Memory.Critic.{Critic, CriticReason, CriticOutput, synthesize}
use smart_router.Memory.Replay.{ReplayHarness, ReplayReport, ReplayReason, run_replay, verdict}

-- the store, and the world of the models that the critic and the replay ask
pub record LoopWorld (W F : Type 0) : Type 0 where
  pub store : RuleStore F
  pub outside : W

-- `format_id` is `f"RULE-{n:03d}"`
pub record LearningLoop (W F : Type 0) : Type 0 where
  pub critic : Critic W F
  pub harness : ReplayHarness W F
  pub gate : SuppressionGate F
  pub format_id : ℕ → String

-- why a cluster gave no rule
pub data GatedOut (F : Type 0) : Type 0 where
  by_gate : GateReason F → GatedOut F
  by_critic : CriticReason F → GatedOut F

pub record LoopReport (F : Type 0) : Type 0 where
  pub clusters_found : ℕ
  pub clusters_gated_out : List (GatedOut F)
  pub candidates_synthesized : ℕ
  pub quarantined : List (String × Option (Message F))
  pub replay_rejected : List (String × ReplayReason F)
  pub promoted : List (String × TransitionReason F)
  pub held_in_shadow : List (String × TransitionReason F)
  pub consumed_request_ids : List String

abbrev pub empty_report : {F : Type 0} → ℕ → LoopReport F
empty_report n = record {
  clusters_found = n;
  clusters_gated_out = [];
  candidates_synthesized = 0;
  quarantined = [];
  replay_rejected = [];
  promoted = [];
  held_in_shadow = [];
  consumed_request_ids = [];
}

module _ {W F : Type 0} where
  -- an action of the models
  unfoldable pub ask : {A : Type 0} → Exec W A → Exec (LoopWorld W F) A
  ask m w = let r = m w.outside in (r.0, record w { outside = r.1 })

  -- a call of the store
  unfoldable pub change : {A : Type 0} → (RuleStore F → RuleStore F × A) → Exec (LoopWorld W F) A
  change g w = let r = g w.store in (ok r.1, record w { store = r.0 })

  abbrev pub current_store : Exec (LoopWorld W F) (RuleStore F)
  current_store w = (ok w.store, w)

module _ {F : Type 0} where
  -- a rule in quarantine is kept in the store, where it is never served
  unfoldable pub keep_quarantined :
      RouterRule F → LoopReport F → RuleStore F → RuleStore F × LoopReport F
  keep_quarantined r report s = (
    (add r s).0,
    record report { quarantined = report.quarantined ++ ((r.rule_id, r.quarantine_reason) ∷ []) },
  )

  -- a rule that the replay speaks against
  unfoldable pub keep_rejected :
      RouterRule F → ReplayReason F → LoopReport F → RuleStore F → RuleStore F × LoopReport F
  keep_rejected r why report s = (
    (add (record r { state = RuleState.shadow }) s).0,
    record report { replay_rejected = report.replay_rejected ++ ((r.rule_id, why) ∷ []) },
  )

  -- the evidence of the replay are the rule's first trials
  unfoldable pub with_evidence : String → ReplayReport → RouterRule F → RouterRule F
  with_evidence live replay r = record r {
    validated_against_model = some live;
    application_count = r.application_count + replay.resolution_total;
    success_count = r.success_count + replay.resolution_passed;
    state = RuleState.shadow;
  }

module _ {F : Type 0} ⦃f : Float F⦄ where
  -- the stored rule with its score, and what the lifecycle makes of it
  unfoldable pub scored_rule : RuleStore F → RouterRule F → RouterRule F
  scored_rule s r = record r { wilson_lower_bound = score s.policy r none }

  -- the lifecycle decides on the stored rule, which is changed in place and saved
  unfoldable pub decide : LoopReport F → RuleStore F → RouterRule F → RuleStore F × LoopReport F
  unfolding scored_rule
  decide report s stored =
      let r = scored_rule s stored in
      let t = evaluate s.policy r none in
      (
        save (record s { rules = put stored.rule_id (record r { state = t.0 }) s.rules }),
        if is_promoted_state t.0
            then record report { promoted = report.promoted ++ ((stored.rule_id, t.1) ∷ []) }
            else record report {
              held_in_shadow = report.held_in_shadow ++ ((stored.rule_id, t.1) ∷ []);
            },
      )

  -- a rule that the replay speaks for
  unfoldable pub admit :
      String → ReplayReport → RouterRule F → LoopReport F → RuleStore F → RuleStore F × LoopReport F
  unfolding with_evidence decide
  admit live replay r report s =
      let added = add (with_evidence live replay r) s in decide report added.0 added.1

module _ {W F : Type 0} ⦃f : Float F⦄ where
  -- a candidate that is not in quarantine: the replay, beside three of the rules that are served
  unfoldable pub try_rule :
      LearningLoop W F
      → String
      → FailureCluster F
      → RouterRule F
      → LoopReport F
      → Exec (LoopWorld W F) (LoopReport F)
  unfolding keep_rejected admit
  try_rule l live cluster r report = do
    s ← current_store
    replay ← ask (
        run_replay l.harness r (map (λ (x : FailureRecord F). x.query) cluster.records) live
          (take 3 (Store.promoted (some r.tenant_id) s)))
    let v = verdict l.harness replay
    if v.0 then change (admit live replay r report) else change (keep_rejected r v.1 report)

  -- what the critic gave
  unfoldable pub take_output :
      LearningLoop W F
      → String
      → FailureCluster F
      → LoopReport F
      → CriticOutput F
      → Exec (LoopWorld W F) (LoopReport F)
  unfolding keep_quarantined try_rule
  take_output l live cluster report out = elim out.rule [
    | none ↦ pure (record report {
      clusters_gated_out = report.clusters_gated_out ++ (GatedOut.by_critic out.reason ∷ []);
    })
    | some r ↦
        let counted = record report {
          candidates_synthesized = report.candidates_synthesized + 1;
        } in
        if is_quarantined r.state
        then change (keep_quarantined r counted)
        else try_rule l live cluster r counted
  ]

  -- one cluster: the gate, the critic under a new identifier, and what comes of its rule. The records
  -- are consumed once the critic has seen them.
  unfoldable pub learn_from :
      LearningLoop W F
      → String
      → FailureCluster F
      → LoopReport F
      → Exec (LoopWorld W F) (LoopReport F)
  unfolding take_output
  learn_from l live cluster report =
      let decision = judge_cluster l.gate cluster in
      if decision.0
      then (do
        id ← change (next_rule_id l.format_id)
        out ← ask (synthesize l.critic cluster id)
        take_output l live cluster
            (record report {
              consumed_request_ids =
                  report.consumed_request_ids
                  ++ map (λ (x : FailureRecord F). x.request_id) cluster.records;
            })
            out)
      else pure (record report {
        clusters_gated_out = report.clusters_gated_out ++ (GatedOut.by_gate decision.1 ∷ []);
      })

  unfoldable pub learn_from_all :
      LearningLoop W F
      → String
      → List (FailureCluster F)
      → LoopReport F
      → Exec (LoopWorld W F) (LoopReport F)
  unfolding learn_from
  learn_from_all l live [] report = pure report
  learn_from_all l live (c ∷ cs) report = do
    next ← learn_from l live c report
    learn_from_all l live cs next

  -- `LearningLoop.run`, on the clusters that `failure_log.cluster` gives
  unfoldable pub run_loop :
      LearningLoop W F → String → List (FailureCluster F) → Exec (LoopWorld W F) (LoopReport F)
  unfolding learn_from_all
  run_loop l live clusters = do
    demoted ← change (invalidate_for_model live)
    learn_from_all l live clusters (empty_report (length clusters))
