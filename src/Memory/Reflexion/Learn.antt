-- ===== src/Memory/Reflexion/Learn.antt =====
-- memory/reflexion.py, `Reflexion.learn` in the mode `rules`: the loop, the failures that it has
-- consumed, and what is served afterwards.
pub mod Trusted
use smart_router.Prelude.{
  ℕ, Bool, true, false, not, Option, none, some, List, String, Float, if◌then◌else◌,
}
use smart_router.Prelude.Exec.{Exec, Exception, Result, ok, raised, pure, raise, ◌>>=◌}
use smart_router.Routing.World.{FailureRecord}
use smart_router.Memory.Store.{RuleStore}
use smart_router.Memory.Failures
use smart_router.Memory.Failures.{LogFile, FailureLog}
use smart_router.Memory.Replay.{GoldenCase, ReplayHarness}
use smart_router.Memory.Recent.{RecentStore, cases}
use smart_router.Memory.Clusters.{Geometry, cluster_failures}
use smart_router.Memory.Vectors.{Embedder}
use smart_router.Memory.Learning.{LoopWorld, LearningLoop, LoopReport, run_loop}
use smart_router.Memory.Reflexion.{ReflexionConfig, Serving, refresh}

-- `Reflexion`, with its stores, and the world of the models and the embedder
pub record Reflected (W D G F : Type 0) : Type 0 where
  pub log : FailureLog D F
  pub golden : RecentStore G GoldenCase
  pub store : RuleStore F
  pub serving : Serving F
  pub outside : W

-- what does not change: the configuration, the loop without its golden cases, and the files
pub record Learner (W D F : Type 0) : Type 0 where
  pub enabled : Bool
  pub config : ReflexionConfig F
  pub replay_golden_sample : ℕ
  pub loop : LearningLoop W F
  pub geometry : Geometry F
  pub similarity_threshold : F
  pub disk : LogFile D F
  pub embedder : Embedder W F

-- `LearnSummary`: the report, the number of consumed failures, and the versions that are served
pub record LearnSummary (F : Type 0) : Type 0 where
  pub loop : LoopReport F
  pub consumed_failures : ℕ
  pub snapshots : Serving F

module _ {W D G F : Type 0} where
  abbrev pub current : Exec (Reflected W D G F) (Reflected W D G F)
  current s = (ok s, s)

  -- the loop works on the store
  unfoldable pub on_store : {A : Type 0} → Exec (LoopWorld W F) A → Exec (Reflected W D G F) A
  on_store m s =
      let r = m (record { store = s.store; outside = s.outside }) in
      (r.0, record s { store = r.1.store; outside = r.1.outside })

  -- `self.failure_log.remove`
  unfoldable pub consume : LogFile D F → List String → Exec (Reflected W D G F) ℕ
  consume disk ids s = let r = Failures.remove disk ids s.log in (ok r.0, record s { log = r.1 })

  -- what is served is replaced once all of it is there
  unfoldable pub replace_serving :
      Reflected W D G F → Result (Serving F) × W → Result (Serving F) × Reflected W D G F
  replace_serving s (ok serving, o) = (ok serving, record s { serving = serving; outside = o })
  replace_serving s (raised x, o) = (raised x, record s { outside = o })

  -- `self.refresh()`
  unfoldable pub serve : ReflexionConfig F → Embedder W F → Exec (Reflected W D G F) (Serving F)
  unfolding replace_serving
  serve c e s = replace_serving s (refresh c e s.store s.outside)

  -- `harness = ReplayHarness(replay=..., golden=...)`
  unfoldable pub with_golden : Learner W D F → Option String → Reflected W D G F → LearningLoop W F
  unfolding cases
  with_golden l tenant s =
      let golden = cases tenant (some l.replay_golden_sample) s.golden in
      record l.loop { harness = record l.loop.harness { golden = golden } }

module _ {W D G F : Type 0} ⦃f : Float F⦄ where
  -- `LearningLoop.run` over the clusters of the log
  unfoldable pub distil :
      Learner W D F
      → String
      → Option String
      → Reflected W D G F
      → Exec (Reflected W D G F) (LoopReport F)
  unfolding with_golden on_store
  distil l live tenant s = on_store (
      run_loop (with_golden l tenant s) live
        (cluster_failures l.geometry l.similarity_threshold tenant s.log.records))

  -- `learn` in the mode `rules`, with a critic
  unfoldable pub learn :
      Learner W D F → String → Option String → Exec (Reflected W D G F) (LearnSummary F)
  unfolding distil consume serve
  learn l live tenant =
      if not l.enabled
      then raise (Exception.runtime_error "reflexion is disabled; enable it before learning")
      else (do
        s ← current
        report ← distil l live tenant s
        consumed ← consume l.disk report.consumed_request_ids
        serving ← serve l.config l.embedder
        pure (record { loop = report; consumed_failures = consumed; snapshots = serving }))
