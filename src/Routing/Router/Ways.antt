-- ===== src/Routing/Router/Ways.antt =====
-- routing/router.py, `route`: the ways that a request can take, by the
-- model calls on its trace, and that a finished frontier answer keeps its way.
use smart_router.Prelude.{
  ℕ, ◌≤◌, Bool, true, false, Option, none, some, List, [], ◌∷◌, ◌++◌, String, ◌≡◌, refl, All,
  All-append, length, length-append, is_some, Option-cases, ◌+◌, ◌⊎◌, inl, inr, arith,
}
use smart_router.Prelude.Exec.{Result, Ensures, NoClaim, Ends-bind, Ensures-after, Ends-if}
use smart_router.Schemas.Message.{Text}
use smart_router.Schemas.Routing.{RouteTier, RouteReason, RoutingDecision}
use smart_router.Schemas.Trace.{ModelCall, RequestTrace}
use smart_router.Tools.Commit.{CommitGate, CommitOutcome, commit}
use smart_router.Tools.Proposal.{ToolProposal, propose}
use smart_router.Routing.World.{World, lift, Router}
use smart_router.Routing.Escalation.{
  failure_text, record_tool, commit_text, surface, answer_with, after_frontier, finish_with,
}

-- a property of the part of a trace that tells which models were asked
abbrev pub PathProperty : Type 0 → Type 1
PathProperty F = List (ModelCall F) → RoutingDecision F → Bool → Type 0

module _ {F : Type 0} where
  abbrev pub Holds : PathProperty F → RequestTrace F → Type 0
  Holds P t = P t.calls t.decision t.escalated

  -- it is finished: something is returned to the caller
  pub record Done (P : PathProperty F) (t : RequestTrace F) : Type 0 where
    pub path : Holds P t
    pub committed : t.committed ≡ true
    pub output : is_some t.final_output ≡ true

  abbrev pub Finishes : {W : Type 0} → PathProperty F → Result (RequestTrace F) × W → Type 0
  Finishes P = Ensures (λ t _. Done P t)

  pub answer_with-Done :
      (P : PathProperty F) (t : RequestTrace F) (text : Text)
      → Holds P t
      → Done P (answer_with t text)
  answer_with-Done P t text h = record { path = h; committed = refl; output = refl }

  abbrev pub IsTier : RouteTier → ModelCall F → Type 0
  IsTier tier c = c.tier ≡ tier

module _ {W F : Type 0} where
  record_tool-Holds :
      (P : PathProperty F) (t : RequestTrace F) (p : ToolProposal F) (o : CommitOutcome F)
      (w : World W F)
      → Holds P t
      → Ensures (λ t' _. Holds P t') (record_tool t p o w)
  unfolding record_tool
  record_tool-Holds P t p o w h =
      Ends-if (λ t' _. Holds P t') NoClaim o.committed _ _ w (λ _. h)
        (λ _. Ensures-after (λ t' _. Holds P t') (failure_text o.category o.detail) _ w (λ m w'. h))

  pub commit_text-Holds :
      (P : PathProperty F) (r : Router W F) (g : CommitGate W F) (t : RequestTrace F) (text : Text)
      (rid : String) (w : World W F)
      → Holds P t
      → Ensures (λ c _. Holds P c.1) (commit_text r g t text rid w)
  unfolding commit_text
  commit_text-Holds P r g t text rid w h =
      elim (Option-cases (propose r.runtime g.registry (some rid) text)) [
        | inl e ↦ rw (e, commit_text) h
        | inr (p, e) ↦
            rw (e, commit_text)
              (Ensures-after (λ c _. Holds P c.1) (lift (commit g p false none)) _ w
                λ o w'.
                  Ends-bind (λ t' _. Holds P t') (λ c _. Holds P c.1) NoClaim (record_tool t p o) _
                    w' (record_tool-Holds P t p o w' h) (λ t' w'' h'. h'))
      ]

  pub surface-Done :
      (P : PathProperty F) (t : RequestTrace F) (o : CommitOutcome F) (w : World W F)
      → Holds P t
      → Finishes P (surface t o w)
  unfolding surface
  surface-Done P t o w h =
      Ensures-after (λ t' _. Done P t') (failure_text o.category o.detail) _ w
        (λ m w'. record { path = h; committed = refl; output = refl })

  after_frontier-Done :
      (P : PathProperty F) (t : RequestTrace F) (text : Text) (o : Option (CommitOutcome F))
      (w : World W F)
      → Holds P t
      → Finishes P (after_frontier t text o w)
  unfolding after_frontier
  after_frontier-Done P t text none w h = answer_with-Done P t text h
  after_frontier-Done P t text (some o) w h =
      Ends-if (λ t' _. Done P t') NoClaim o.committed _ _ w (λ _. answer_with-Done P t text h)
        (λ _. surface-Done P t o w h)

  pub finish-Done :
      (P : PathProperty F) (r : Router W F) (gate : Option (CommitGate W F)) (t : RequestTrace F)
      (text : Text) (w : World W F)
      → Holds P t
      → Finishes P (finish_with r t text gate w)
  unfolding finish_with
  finish-Done P r none t text w h = answer_with-Done P t text h
  finish-Done P r (some g) t text w h =
      Ends-bind (λ c _. Holds P c.1) (λ t' _. Done P t') NoClaim
        (commit_text r g t text t.request_id) _ w (commit_text-Holds P r g t text t.request_id w h)
        (λ c w' h'. after_frontier-Done P c.1 text c.0 w' h')

module _ {F : Type 0} where
  -- at most `n` calls, each of the small model
  pub record SmallCalls (n : ℕ) (cs : List (ModelCall F)) : Type 0 where
    pub bound : length cs ≤ n
    pub tiers : All (IsTier RouteTier.small) cs

  -- the answer is the small model's own, or its tool call is surfaced
  pub record Stayed (n : ℕ) (cs : List (ModelCall F)) (d : RoutingDecision F) (e : Bool)
      : Type 0 where
    pub calls : SmallCalls n cs
    pub tier : d.tier ≡ RouteTier.small
    pub reason : d.reason ≡ RouteReason.optimistic
    pub escalation : e ≡ false

  -- the frontier was asked after the small model, once
  pub record Escalated (cs : List (ModelCall F)) (d : RoutingDecision F) (e : Bool) : Type 0 where
    pub before : List (ModelCall F)
    pub last : ModelCall F
    pub shape : cs ≡ before ++ (last ∷ [])
    pub small_calls : SmallCalls 2 before
    pub frontier_call : last.tier ≡ RouteTier.frontier
    pub tier : d.tier ≡ RouteTier.frontier
    pub reason : d.reason ≡ RouteReason.verifier_escalation
    pub escalation : e ≡ true

  -- the frontier was asked alone, once
  pub record Direct (cs : List (ModelCall F)) (d : RoutingDecision F) (e : Bool) : Type 0 where
    pub last : ModelCall F
    pub shape : cs ≡ last ∷ []
    pub frontier_call : last.tier ≡ RouteTier.frontier
    pub tier : d.tier ≡ RouteTier.frontier
    pub reason : (d.reason ≡ RouteReason.policy_forced) ⊎ (d.reason ≡ RouteReason.predicted_hard)
    pub escalation : e ≡ false

  -- no model was asked
  pub record FromCache (cs : List (ModelCall F)) (d : RoutingDecision F) (e : Bool) : Type 0 where
    pub calls : cs ≡ []
    pub tier : d.tier ≡ RouteTier.cache
    pub reason : d.reason ≡ RouteReason.cache_hit
    pub escalation : e ≡ false

  abbrev pub OnSmallPath : PathProperty F
  OnSmallPath cs d e = Stayed 2 cs d e ⊎ Escalated cs d e

  abbrev pub OnSomePath : PathProperty F
  OnSomePath cs d e = FromCache cs d e ⊎ (Direct cs d e ⊎ OnSmallPath cs d e)

  pub Done-map :
      (P Q : PathProperty F) (t : RequestTrace F)
      → ((cs : List (ModelCall F)) (d : RoutingDecision F) (e : Bool) → P cs d e → Q cs d e)
      → Done P t
      → Done Q t
  Done-map P Q t k h = record {
    path = k t.calls t.decision t.escalated h.path;
    committed = h.committed;
    output = h.output;
  }

  pub SmallCalls-le :
      (m n : ℕ) (cs : List (ModelCall F)) → m ≤ n → SmallCalls m cs → SmallCalls n cs
  SmallCalls-le m n cs le h = record { bound = omega (arith, h.bound); tiers = h.tiers }

  pub add_call-SmallCalls :
      (n : ℕ) (cs : List (ModelCall F)) (c : ModelCall F)
      → SmallCalls n cs
      → c.tier ≡ RouteTier.small
      → SmallCalls (n + 1) (cs ++ (c ∷ []))
  add_call-SmallCalls n cs c h e = record {
    bound = omega (arith, h.bound, length-append cs (c ∷ []));
    tiers = All-append (IsTier RouteTier.small) cs (c ∷ []) h.tiers (e, tt);
  }
