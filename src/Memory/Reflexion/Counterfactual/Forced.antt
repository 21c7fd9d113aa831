-- ===== src/Memory/Reflexion/Counterfactual/Forced.antt =====
-- memory/reflexion.py, `make_replay`: the judge is forced, and the router's cache is left as it is.
use smart_router.Prelude.{Bool, true, Option, none, some, List, ◌≡◌, refl, Float}
use smart_router.Prelude.Exec.{
  Exec, Result, ok, raised, Ends, Ensures, Ensures-after, Ends-bind, Ends-both, NoClaim,
}
use smart_router.Schemas.Message.{Text}
use smart_router.Schemas.Rule.{RouterRule}
use smart_router.Schemas.Routing.{RouteTier}
use smart_router.Schemas.Verification.{VerificationOutcome, outcome_passed, judged}
use smart_router.Cache.{ExactCache}
use smart_router.Verify.Base.{Verifier}
use smart_router.Verify.Ladder.{VerifierLadder}
use smart_router.Verify.Ladder.Judge.{IsJudge, rate-Forces, JudgedIfPassed, run-JudgedIfForced}
use smart_router.Routing.World.{World, lift, Router}
use smart_router.Routing.Escalation.{Answer, call}
use smart_router.Routing.Quiet.{Keeps, IsQuiet, lift-IsQuiet, bind-IsQuiet, call-IsQuiet}
use smart_router.Memory.Reflexion.Counterfactual.{
  any_caught, try_any, forced_sampler, replay_ladder, verify_replay, replay_outcome,
}

module _ {W F : Type 0} ⦃f : Float F⦄ where
  -- a random number is below one
  abbrev pub IsRandom : (W → F × W) → Type 0
  IsRandom random = (w : W) → f.lt_f (random w).0 f.one_f ≡ true

  -- an outcome, if there is one, that passed was judged
  abbrev pub IsJudgedPass : Option (VerificationOutcome F) → World W F → Type 0
  IsJudgedPass none w = Unit
  IsJudgedPass (some o) w = outcome_passed o ≡ true → judged o ≡ true

  lifted_run :
      (m : Exec W (VerificationOutcome F)) (w : World W F)
      → Ensures JudgedIfPassed (m w.outside)
      → Ensures (λ o _. outcome_passed o ≡ true → judged o ≡ true) (lift m w)
  unfolding lift
  lifted_run m w h = moved (m w.outside) h
    where
      moved :
          (r : Result (VerificationOutcome F) × W)
          → Ensures JudgedIfPassed r
          → Ensures
              (λ o _. outcome_passed o ≡ true → judged o ≡ true)
              (r.0, record w { outside = r.1 })
      moved (ok o, x) k = k
      moved (raised e, x) k = tt

  verify_replay-IsJudgedPass :
      (r : Router W F) (j : Verifier W F) (random : W → F × W) (query : Text)
      (a : Option (Answer F)) (w : World W F)
      → r.ladder.judge ≡ some j
      → IsJudge j
      → IsRandom random
      → Ensures IsJudgedPass (verify_replay r (replay_ladder r.ladder true random) query a w)
  unfolding verify_replay replay_ladder forced_sampler
  verify_replay-IsJudgedPass r j random query none w e cls below = tt
  verify_replay-IsJudgedPass r j random query (some a) w e cls below =
      Ensures-after IsJudgedPass (lift r.uuid4) _ w (λ rid w1.
        Ends-bind (λ o _. outcome_passed o ≡ true → judged o ≡ true) IsJudgedPass NoClaim _ _ w1
          (lifted_run _ w1 (
            run-JudgedIfForced (replay_ladder r.ladder true random) j rid _ _ _ w1.outside e cls
              (rate-Forces (forced_sampler random) _ _ below)))
          (λ o w2 h. h))

  replay_outcome-judged :
      (r : Router W F) (j : Verifier W F) (random : W → F × W) (query : Text)
      (rules : List (RouterRule F)) (w : World W F)
      → r.ladder.judge ≡ some j
      → IsJudge j
      → IsRandom random
      → Ensures IsJudgedPass (replay_outcome r true random query rules w)
  unfolding replay_outcome
  replay_outcome-judged r j random query rules w e cls below =
      Ensures-after IsJudgedPass _ _ w
        (λ a w1. verify_replay-IsJudgedPass r j random query a w1 e cls below)

module _ {W F A : Type 0} (c : ExactCache F) where
  caught-Keeps : (r : Result A × World W F) → Keeps c r → Keeps c (any_caught r)
  caught-Keeps (ok a, w) h = h
  caught-Keeps (raised e, w) h = h

  try_any-IsQuiet : (m : Exec (World W F) A) → IsQuiet c m → IsQuiet c (try_any m)
  unfolding try_any
  try_any-IsQuiet m q w h = caught-Keeps (m w) (q w h)

module _ {W F : Type 0} ⦃f : Float F⦄ (c : ExactCache F) where
  verify_replay-IsQuiet :
      (r : Router W F) (l : VerifierLadder W F) (query : Text) (a : Option (Answer F))
      → IsQuiet c (verify_replay r l query a)
  unfolding verify_replay
  verify_replay-IsQuiet r l query none = λ w h. h
  verify_replay-IsQuiet r l query (some a) =
      bind-IsQuiet c (lift r.uuid4) _ (lift-IsQuiet c _)
        (λ rid. bind-IsQuiet c (lift _) _ (lift-IsQuiet c _) (λ o w h. h))

  replay_outcome-IsQuiet :
      (r : Router W F) (b : Bool) (random : W → F × W) (query : Text) (rules : List (RouterRule F))
      → IsQuiet c (replay_outcome r b random query rules)
  unfolding replay_outcome
  replay_outcome-IsQuiet r b random query rules =
      bind-IsQuiet c (try_any _) _
        (try_any-IsQuiet c (call r r.small _ RouteTier.small)
          (call-IsQuiet c r r.small _ RouteTier.small))
        (λ a. verify_replay-IsQuiet r (replay_ladder r.ladder b random) query a)

module _ {W F : Type 0} ⦃f : Float F⦄ where
  -- Where the router's ladder has a judge whose results are of the expensive class and random numbers
  -- are below one, an outcome that passes in a replay with the judge was judged, on every risk class;
  -- and the replay leaves the router's cache as it is, whether it returns or raises.
  pub replay_outcome-IsJudgedPass :
      (r : Router W F) (j : Verifier W F) (random : W → F × W) (query : Text)
      (rules : List (RouterRule F)) (w : World W F)
      → r.ladder.judge ≡ some j
      → IsJudge j
      → IsRandom random
      → Ends
          (λ o w'. (w'.cache ≡ w.cache) × IsJudgedPass o w')
          (λ w'. w'.cache ≡ w.cache)
          (replay_outcome r true random query rules w)
  replay_outcome-IsJudgedPass r j random query rules w e cls below =
      Ends-both (λ _ w'. w'.cache ≡ w.cache) IsJudgedPass (λ w'. w'.cache ≡ w.cache) _
        (replay_outcome-IsQuiet w.cache r true random query rules w refl)
        (replay_outcome-judged r j random query rules w e cls below)
