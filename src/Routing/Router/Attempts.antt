-- ===== src/Routing/Router/Attempts.antt =====
-- routing/router.py, `route`: the calls of the small model, and an escalation.
use smart_router.Prelude.{ℕ, false, Option, none, some, List, [], ◌∷◌, ◌++◌, ◌≡◌, refl, Float}
use smart_router.Prelude.Exec.{
  Exec, Exception, Result, ok, raised, Ensures, NoClaim, Ends-bind, Ensures-after,
}
use smart_router.Schemas.Message.{Text, Message, FailureCategory}
use smart_router.Schemas.Routing.{RouteTier, RouteReason}
use smart_router.Schemas.Trace.{RequestTrace, add_call}
use smart_router.Gateway.Base.{ModelResponse}
use smart_router.Gateway.ModelConfig.{ModelSettings, settings_for}
use smart_router.Routing.World.{World, lift, Template, Sent, ModelClient, Router}
use smart_router.Routing.Escalation.{
  CallEnd, answered, unavailable, try_provider, provider_caught, Answer, schema_for, priced, call,
  finish_with, escalated, keep_exemplar, escalate, escalation_message,
}
use smart_router.Routing.Small.{Situation, small_call, second_attempt, attempts}
use smart_router.Routing.Router.Ways.{Done, Finishes, finish-Done, SmallCalls, Escalated}

module _ {F : Type 0} where
  -- an attempt that is answered has a call of the small model
  abbrev pub EndsSmall : CallEnd (Answer F) → Type 0
  EndsSmall (answered a) = a.call.tier ≡ RouteTier.small
  EndsSmall (unavailable c m) = Unit

  -- on the small model's path, with at most `n` calls so far
  pub record Trying (n : ℕ) (t : RequestTrace F) : Type 0 where
    pub calls : SmallCalls n t.calls
    pub tier : t.decision.tier ≡ RouteTier.small
    pub reason : t.decision.reason ≡ RouteReason.optimistic
    pub escalation : t.escalated ≡ false

module _ {W F : Type 0} ⦃f : Float F⦄ where
  abbrev pub IsAnswer : RouteTier → Answer F → World W F → Type 0
  IsAnswer tier a w = a.call.tier ≡ tier

  priced-IsAnswer :
      (c : ModelClient W F) (tier : RouteTier) (resp : ModelResponse F)
      (o : Option (ModelSettings F)) (w : World W F)
      → Ensures (IsAnswer tier) (priced c tier resp o w)
  unfolding priced
  priced-IsAnswer c tier resp none w = tt
  priced-IsAnswer c tier resp (some s) w = refl

  pub call-IsAnswer :
      (r : Router W F) (c : ModelClient W F) (sent : List (Sent F)) (tier : RouteTier)
      (w : World W F)
      → Ensures (IsAnswer tier) (call r c sent tier w)
  unfolding call
  call-IsAnswer r c sent tier w =
      Ensures-after (IsAnswer tier) (lift (c.complete sent (schema_for r c))) _ w
        λ resp w'. priced-IsAnswer c tier resp (settings_for c.model_name r.models) w'

  try_provider-EndsSmall :
      (m : Exec (World W F) (Answer F)) (w : World W F)
      → Ensures (IsAnswer RouteTier.small) (m w)
      → Ensures (λ e _. EndsSmall e) (try_provider m w)
  unfolding try_provider
  try_provider-EndsSmall m w h = caught-EndsSmall (m w) h
    where
      caught-EndsSmall :
          (r : Result (Answer F) × World W F)
          → Ensures (IsAnswer RouteTier.small) r
          → Ensures (λ e _. EndsSmall e) (provider_caught r.0 r.1)
      caught-EndsSmall (ok a, w') h = h
      caught-EndsSmall (raised (Exception.provider_timeout m), w') h = tt
      caught-EndsSmall (raised (Exception.provider_fault m), w') h = tt
      caught-EndsSmall (raised (Exception.value_error m), w') h = tt
      caught-EndsSmall (raised (Exception.key_error m), w') h = tt
      caught-EndsSmall (raised (Exception.runtime_error m), w') h = tt
      caught-EndsSmall (raised (Exception.attribute_error m), w') h = tt
      caught-EndsSmall (raised (Exception.type_error m), w') h = tt
      caught-EndsSmall (raised (Exception.index_error m), w') h = tt
      caught-EndsSmall (raised (Exception.tool_transient m), w') h = tt
      caught-EndsSmall (raised (Exception.tool_semantic m), w') h = tt
      caught-EndsSmall (raised (Exception.tool_auth m), w') h = tt
      caught-EndsSmall (raised (Exception.tool_not_found m), w') h = tt
      caught-EndsSmall (raised (Exception.tool_other m), w') h = tt

  second_attempt-EndsSmall :
      (r : Router W F) (s : Situation F) (e : CallEnd (Answer F)) (w : World W F)
      → EndsSmall e
      → Ensures (λ x _. EndsSmall x.1) (second_attempt r s e w)
  unfolding second_attempt
  second_attempt-EndsSmall r s (answered a) w h = h
  second_attempt-EndsSmall r s (unavailable c m) w h =
      Ends-bind (λ e _. EndsSmall e) (λ x _. EndsSmall x.1) NoClaim (try_provider (small_call r s))
        _ w
        (try_provider-EndsSmall (small_call r s) w
          (call-IsAnswer r r.small s.sent RouteTier.small w))
        (λ e w' h'. h')

  pub attempts-EndsSmall :
      (r : Router W F) (s : Situation F) (w : World W F)
      → Ensures (λ x _. EndsSmall x.1) (attempts r s w)
  unfolding attempts
  attempts-EndsSmall r s w =
      Ends-bind (λ e _. EndsSmall e) (λ x _. EndsSmall x.1) NoClaim (try_provider (small_call r s))
        _ w
        (try_provider-EndsSmall (small_call r s) w
          (call-IsAnswer r r.small s.sent RouteTier.small w))
        (second_attempt-EndsSmall r s)

  pub escalate-Done :
      (r : Router W F) (t : RequestTrace F) (sent : List (Sent F)) (rejected : Text)
      (c : FailureCategory) (detail : Option (Message F)) (template : Template) (w : World W F)
      → SmallCalls 2 t.calls
      → Finishes Escalated (escalate r t sent rejected c detail template w)
  unfolding escalate escalated
  escalate-Done r t sent rejected c detail template w h =
      Ends-bind (IsAnswer RouteTier.frontier) (λ t' _. Done Escalated t') NoClaim
        (call r r.frontier (sent ++ (escalation_message template rejected c detail ∷ []))
          RouteTier.frontier)
        _ w (call-IsAnswer r r.frontier _ RouteTier.frontier w)
        λ a w' e.
          Ends-bind (λ t' _. Done Escalated t') (λ t' _. Done Escalated t') NoClaim
            (finish_with r (add_call (escalated r t) a.call) a.text r.commit_gate) _ w'
            (finish-Done Escalated r r.commit_gate (add_call (escalated r t) a.call) a.text w'
              (record {
                before = t.calls;
                last = a.call;
                shape = refl;
                small_calls = h;
                frontier_call = e;
                tier = refl;
                reason = refl;
                escalation = refl;
              }))
            (λ t' w'' d.
              Ensures-after (λ t' _. Done Escalated t') (keep_exemplar r.reflexion t' a.text) _ w''
                (λ u w'''. d))
