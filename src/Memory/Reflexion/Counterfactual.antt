-- ===== src/Memory/Reflexion/Counterfactual.antt =====
-- memory/reflexion.py, `make_replay`: a query is tried again with a set of rules, on the small model and
-- the verifiers of a router.
pub mod Forced
use smart_router.Prelude.{
  Bool, true, false, Option, none, some, List, [], map, String, Float, if◌then◌else◌,
}
use smart_router.Prelude.Exec.{Exec, Result, ok, raised, pure, ◌>>=◌}
use smart_router.Schemas.Message.{Text}
use smart_router.Schemas.Rule.{RouterRule, render}
use smart_router.Schemas.Routing.{RouteTier}
use smart_router.Schemas.Verification.{VerificationOutcome, outcome_passed}
use smart_router.Prompt.{Injectable, AssembledPrompt, assemble}
use smart_router.Verify.Base.{VerificationContext}
use smart_router.Verify.Ladder
use smart_router.Verify.Ladder.{JudgeSampler, VerifierLadder, irreversible_only}
use smart_router.Routing.Policy
use smart_router.Routing.Policy.{PolicyDecision}
use smart_router.Routing.World.{World, lift, Router}
use smart_router.Routing.Escalation.{Answer, call}
use smart_router.Routing.Router.{sent_messages}

abbrev pub any_caught : {W A : Type 0} → Result A × W → Result (Option A) × W
any_caught (ok a, w) = (ok (some a), w)
any_caught (raised e, w) = (ok none, w)

-- a call that ran, if it did
unfoldable pub try_any : {W A : Type 0} → Exec W A → Exec W (Option A)
try_any m w = any_caught (m w)

module _ {F : Type 0} where
  abbrev pub as_injectable : RouterRule F → Injectable
  as_injectable r = record { rule_id = r.rule_id; rendered = render r }

  abbrev has_passed : Option (VerificationOutcome F) → Bool
  has_passed none = false
  has_passed (some o) = outcome_passed o

module _ {W F : Type 0} ⦃f : Float F⦄ where
  -- `JudgeSampler(random_rate=1.0)`, with its own random numbers
  unfoldable pub forced_sampler : (W → F × W) → JudgeSampler W F
  forced_sampler random = record {
    random_rate = f.one_f;
    always_judge = irreversible_only;
    cost_of_being_wrong_threshold_usd = none;
    random = random;
  }

  unfoldable pub replay_ladder : VerifierLadder W F → Bool → (W → F × W) → VerifierLadder W F
  unfolding forced_sampler
  replay_ladder l with_judge random = record {
    free = l.free;
    cheap = l.cheap;
    judge = if with_judge then l.judge else none;
    sampler = forced_sampler random;
  }

  abbrev replay_prompt : Router W F → Text → List (RouterRule F) → AssembledPrompt
  replay_prompt r query rules =
      assemble r.system_prompt r.tools none [] (map as_injectable rules) query

  -- the verifiers on an answer
  unfoldable pub verify_replay :
      Router W F
      → VerifierLadder W F
      → Text
      → Option (Answer F)
      → Exec (World W F) (Option (VerificationOutcome F))
  verify_replay r l query none = pure none
  verify_replay r l query (some a) =
      let policy = Policy.evaluate r.policy query "replay" false in
      let ctx : VerificationContext F = record {
        query = query;
        response = a.response;
        risk_class = policy.risk_class;
        grounding = [];
      } in
      (do
        rid ← lift r.uuid4
        o ← lift (Ladder.run l rid ctx policy.risk_class (some policy.cost_of_being_wrong_usd))
        pure (some o))

  -- the outcome of a replay whose call ran
  unfoldable pub replay_outcome :
      Router W F
      → Bool
      → (W → F × W)
      → Text
      → List (RouterRule F)
      → Exec (World W F) (Option (VerificationOutcome F))
  unfolding try_any verify_replay replay_ladder
  replay_outcome r with_judge random query rules = do
    a ← try_any (call r r.small (sent_messages (replay_prompt r query rules)) RouteTier.small)
    verify_replay r (replay_ladder r.ladder with_judge random) query a

  -- `replay`; a replay that cannot run is a failed replay
  unfoldable pub replay :
      Router W F → Bool → (W → F × W) → Text → List (RouterRule F) → Exec (World W F) Bool
  unfolding replay_outcome
  replay r with_judge random query rules = do
    o ← replay_outcome r with_judge random query rules
    pure (has_passed o)
