-- ===== src/Tests/Replaying.antt =====
-- memory/reflexion.py, `make_replay`, at a concrete input: a query that the policy reads as harmless is
-- judged all the same, and the cache is kept.
use smart_router.Prelude.{ℕ, true, [], ◌∷◌, ◌≡◌, refl}
use smart_router.Prelude.Exec.{Ends}
use smart_router.Prelude.Strings.{codes}
use smart_router.Routing.World.{Router}
use smart_router.Memory.Reflexion.Counterfactual.{replay_outcome}
use smart_router.Memory.Reflexion.Counterfactual.Forced.{IsJudgedPass, replay_outcome-IsJudgedPass}
use smart_router.Tests.Samples.{nat_float}
use smart_router.Tests.Learning.{rule}
use smart_router.Tests.Verdicts.{ladder, judge}
use smart_router.Tests.Requests.{router, world}

abbrev judged_router : Router ℕ ℕ
judged_router = record router { ladder = ladder }

replay_outcome-IsJudgedPass_example :
    Ends
      (λ o w'. (w'.cache ≡ world.cache) × IsJudgedPass o w')
      (λ w'. w'.cache ≡ world.cache)
      (replay_outcome judged_router true (λ n. (0, n)) (codes "weather") (rule ∷ []) world)
replay_outcome-IsJudgedPass_example =
    replay_outcome-IsJudgedPass judged_router judge (λ n. (0, n)) (codes "weather") (rule ∷ [])
      world refl (λ ctx w. refl) (λ w. refl)
