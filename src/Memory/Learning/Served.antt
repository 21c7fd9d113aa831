-- ===== src/Memory/Learning/Served.antt =====
-- memory/loop.py, `LearningLoop.run`: which rules may be served after a run.
use smart_router.Prelude.{
  true, false, List, [], ◌∷◌, String, ◌≡◌, refl, Float, length, Option-cases, inl, inr,
}
use smart_router.Prelude.Dict.{values}
use smart_router.Prelude.Exec.{Exec, Result, ok, raised, ◌>>=◌, Ends, Ends-bind, Ends-if}
use smart_router.Schemas.Rule.{RouterRule, RuleState, quarantined, is_promoted_state}
use smart_router.Memory.Lifecycle.{LifecyclePolicy, is_quarantined}
use smart_router.Memory.Store.{RuleStore, next_rule_id, invalidate_for_model}
use smart_router.Memory.Gate.{FailureCluster, judge_cluster}
use smart_router.Memory.Critic.{CriticOutput, synthesize}
use smart_router.Memory.Replay.{verdict}
use smart_router.Memory.Learning.{
  LoopWorld, LearningLoop, LoopReport, empty_report, ask, change, current_store, keep_quarantined,
  keep_rejected, admit, try_rule, take_output, learn_from, learn_from_all, run_loop,
}
use smart_router.Memory.Learning.Fair.{
  Holds, add-Holds, admit-Holds, next_rule_id-Holds, invalidate-Holds,
}

quarantined_idle : (s : RuleState) → is_quarantined s ≡ true → is_promoted_state s ≡ false
quarantined_idle quarantined h = refl
quarantined_idle RuleState.promoted h = absurd (cc h)
quarantined_idle _ h = refl

module _ {W F : Type 0} ⦃f : Float F⦄ (l : LearningLoop W F) (live : String) (p : LifecyclePolicy F)
    (start : List (RouterRule F)) where
  abbrev Fine : LoopWorld W F → Type 0
  Fine w = Holds p live start w.store

  abbrev Stays : {A : Type 0} → Result A × LoopWorld W F → Type 0
  Stays = Ends (λ _ w. Fine w) Fine

  -- the models do not touch the store
  ask-Stays : {A : Type 0} (m : Exec W A) (w : LoopWorld W F) → Fine w → Stays (ask m w)
  unfolding ask
  ask-Stays {A} m w h = on_result (m w.outside)
    where
      on_result : (r : Result A × W) → Stays (r.0, record w { outside = r.1 })
      on_result (ok a, o) = h
      on_result (raised e, o) = h

  change-Stays :
      {A : Type 0} (g : RuleStore F → RuleStore F × A) (w : LoopWorld W F)
      → ((s : RuleStore F) → Holds p live start s → Holds p live start (g s).0)
      → Fine w
      → Stays (change g w)
  unfolding change
  change-Stays g w k h = k w.store h

  then-Stays :
      {A B : Type 0} (m : Exec (LoopWorld W F) A) (g : A → Exec (LoopWorld W F) B)
      (w : LoopWorld W F)
      → Stays (m w)
      → ((a : A) (w' : LoopWorld W F) → Fine w' → Stays (g a w'))
      → Stays ((m >>= g) w)
  then-Stays m g w h k = Ends-bind (λ _ w'. Fine w') (λ _ w'. Fine w') Fine m g w h k

  try_rule-Stays :
      (c : FailureCluster F) (r : RouterRule F) (report : LoopReport F) (w : LoopWorld W F)
      → Fine w
      → Stays (try_rule l live c r report w)
  unfolding try_rule keep_rejected
  try_rule-Stays c r report w h = then-Stays current_store _ w h (λ s w1 h1.
      then-Stays (ask _) _ w1 (ask-Stays _ w1 h1) (λ replay w2 h2.
        let v = verdict l.harness replay in
        Ends-if (λ _ w'. Fine w') Fine v.0 (change (admit live replay r report))
          (change (keep_rejected r v.1 report)) w2
          (λ _. change-Stays _ w2 (λ s'. admit-Holds p live start replay r report s') h2)
          (λ _. change-Stays _ w2 (λ s'. add-Holds p live start _ s' refl) h2)))

  take_output-Stays :
      (c : FailureCluster F) (report : LoopReport F) (out : CriticOutput F) (w : LoopWorld W F)
      → Fine w
      → Stays (take_output l live c report out w)
  unfolding take_output keep_quarantined
  take_output-Stays c report out w h = elim (Option-cases out.rule) [
    | inl nothing ↦ rw (nothing, take_output) h
    | inr (r, e) ↦
        rw (e, take_output)
          (Ends-if (λ _ w'. Fine w') Fine (is_quarantined r.state) _ _ w
            (λ q. change-Stays _ w (λ s. add-Holds p live start r s (quarantined_idle r.state q)) h)
            (λ _. try_rule-Stays c r _ w h))
  ]

  learn_from-Stays :
      (c : FailureCluster F) (report : LoopReport F) (w : LoopWorld W F)
      → Fine w
      → Stays (learn_from l live c report w)
  unfolding learn_from
  learn_from-Stays c report w h =
      Ends-if (λ _ w'. Fine w') Fine (judge_cluster l.gate c).0 _ _ w
        (λ _.
          then-Stays (change (next_rule_id l.format_id)) _ w
            (change-Stays _ w (λ s. next_rule_id-Holds p live start l.format_id s) h)
            (λ id w1 h1.
              then-Stays (ask (synthesize l.critic c id)) _ w1 (ask-Stays _ w1 h1)
                (λ out w2 h2. take_output-Stays c _ out w2 h2)))
        (λ _. h)

  learn_from_all-Stays :
      (cs : List (FailureCluster F)) (report : LoopReport F) (w : LoopWorld W F)
      → Fine w
      → Stays (learn_from_all l live cs report w)
  unfolding learn_from_all
  learn_from_all-Stays [] report w h = h
  learn_from_all-Stays (c ∷ cs) report w h =
      Ends-bind (λ _ w'. Fine w') (λ _ w'. Fine w') Fine (learn_from l live c report)
        (λ next. learn_from_all l live cs next) w (learn_from-Stays c report w h)
        (λ next w' h'. learn_from_all-Stays cs next w' h')

module _ {W F : Type 0} ⦃f : Float F⦄ where
  -- After a run, whether it returns or raises, a rule of the store that may be served either was in
  -- the store before the run, in the same state and with no evidence of another model than the live
  -- one; or it was validated against the live model, does not misfire, reaches the promotion bound
  -- of the store's policy on its own counts, and is reviewed if it is for every tenant and that is
  -- required. This is so whatever the critic and the replayed models answer.
  pub run_loop-Holds :
      (l : LearningLoop W F) (live : String) (clusters : List (FailureCluster F))
      (w : LoopWorld W F)
      → Ends
          (λ _ w'. Holds w.store.policy live (values w.store.rules) w'.store)
          (λ w'. Holds w.store.policy live (values w.store.rules) w'.store)
          (run_loop l live clusters w)
  unfolding run_loop ◌>>=◌ change
  run_loop-Holds l live clusters w =
      learn_from_all-Stays l live w.store.policy (values w.store.rules) clusters
        (empty_report (length clusters))
        (record w { store = (invalidate_for_model live w.store).0 }) (invalidate-Holds live w.store)
