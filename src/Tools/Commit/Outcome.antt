-- ===== src/Tools/Commit/Outcome.antt =====
-- tools/commit.py, `CommitGate.commit`: what an outcome says.
use smart_router.Prelude.{
  ap, ℕ, zero, suc, ◌+◌, ◌≤◌, ◌<◌, Bool, true, false, Option, none, some, String, ◌≡◌, refl, ◌⊎◌,
  inl, inr, Option-cases, arith,
}
use smart_router.Prelude.Exec.{
  Exec, Result, ok, raised, NoClaim, Ensures, Ensures-after, Ends-if, pure, ◌>>=◌,
}
use smart_router.Schemas.Message.{Text, FailureCategory, Message}
use smart_router.Tools.Errors.{ToolErrorClass, transient}
use smart_router.Tools.Json.{Fields}
use smart_router.Tools.Registry.{ToolSpec}
use smart_router.Tools.Gateway.{ToolResult}
use smart_router.Tools.Commit.{
  CommitOutcome, CommitGate, Attempt, try_tool, new_outcome, refusal, request, from_exception,
  first_objection, after_result, after_attempt, after_dry_run, attempt_loop, perform,
  commit_checked, after_validate, commit, returned, failed, needs_dry_run, needs_approval,
  unapproved,
}
use smart_router.Tools.Proposal.{ToolProposal, validate}

module _ {F : Type 0} where
  -- an outcome to which nothing has happened but attempts
  pub record IsPending (o : CommitOutcome F) : Type 0 where
    pub flag : o.committed ≡ false
    pub no_category : o.category ≡ none

pub validate-spec :
    {F : Type 0} (check : Fields F → Fields F → Result (Option (Message F))) (p : ToolProposal F)
    → validate check p ≡ ok none
    → (s : ToolSpec F) × (p.spec ≡ some s)
unfolding validate
validate-spec check p h = elim (Option-cases p.spec) [
  | inl absent ↦ absurd (ground arith)
  | inr found ↦ found
]

module _ {W F : Type 0} where
  -- the call went through, and no result verifier objects
  pub record IsCommitted (g : CommitGate W F) (p : ToolProposal F) (o : CommitOutcome F)
      : Type 0 where
    pub flag : o.committed ≡ true
    pub result : ToolResult F
    pub has_result : o.result ≡ some result
    pub no_category : o.category ≡ none
    pub unobjected : first_objection g.result_verifiers p result ≡ none
    pub attempted : 0 < o.attempts
    pub bounded : o.attempts ≤ g.max_tool_retries + 1

  pub record IsRejected (g : CommitGate W F) (o : CommitOutcome F) : Type 0 where
    pub flag : o.committed ≡ false
    pub category : FailureCategory
    pub has_category : o.category ≡ some category
    pub bounded : o.attempts ≤ g.max_tool_retries + 1

  abbrev pub Settled : CommitGate W F → ToolProposal F → CommitOutcome F → W → Type 0
  Settled g p o w = IsCommitted g p o ⊎ IsRejected g o

  module _ (g : CommitGate W F) (p : ToolProposal F) where
    result-Settled :
        (r : ToolResult F) (o : CommitOutcome F) (w : W)
        → IsPending o
        → 0 < o.attempts
        → o.attempts ≤ g.max_tool_retries + 1
        → Settled g p (after_result g.result_verifiers p r o) w
    unfolding after_result
    result-Settled r o w h pos b = elim (Option-cases (first_objection g.result_verifiers p r)) [
      | inl fine ↦
          rw (fine, after_result)
            (inl (record {
              flag = refl;
              result = r;
              has_result = refl;
              no_category = h.no_category;
              unobjected = fine;
              attempted = pos;
              bounded = b;
            }))
      | inr (d, bad) ↦
          rw (bad, after_result)
            (inr (record {
              flag = h.flag;
              category = FailureCategory.tool_result_suspect;
              has_category = refl;
              bounded = b;
            }))
    ]

    exception-Settled :
        (c : ToolErrorClass) (m : Text) (o : CommitOutcome F) (w : W)
        → o.attempts ≤ g.max_tool_retries + 1
        → Settled g p (from_exception c m o) w
    unfolding from_exception
    exception-Settled c m o w b =
        inr (record { flag = refl; category = _; has_category = refl; bounded = b })

    after_attempt-Settled :
        (retry : Text → CommitOutcome F → Exec W (CommitOutcome F)) (a : Attempt (ToolResult F))
        (o : CommitOutcome F) (w : W)
        → IsPending o
        → 0 < o.attempts
        → o.attempts ≤ g.max_tool_retries + 1
        → ((m : Text) → Ensures (Settled g p) (retry m o w))
        → Ensures (Settled g p) (after_attempt g p retry a o w)
    unfolding after_attempt
    after_attempt-Settled retry (returned r) o w h pos b k = result-Settled r o w h pos b
    after_attempt-Settled retry (failed transient m) o w h pos b k = k m
    after_attempt-Settled retry (failed c m) o w h pos b k = exception-Settled c m o w b

    attempt_loop-Settled :
        (key : String) (timeout : Option F) (left n : ℕ) (o : CommitOutcome F) (w : W)
        → IsPending o
        → n + left ≤ g.max_tool_retries
        → Ensures (Settled g p) (attempt_loop g p key timeout left n o w)
    unfolding attempt_loop
    attempt_loop-Settled key timeout zero n o w h b =
        Ensures-after (Settled g p) (try_tool (g.gateway.call (request p key false timeout))) _ w
          λ a w'.
            after_attempt-Settled _ a (record o { attempts = n + 1 }) w'
              (record { flag = h.flag; no_category = h.no_category }) (omega arith) (omega arith)
              (λ m. exception-Settled transient m (record o { attempts = n + 1 }) w' (omega arith))
    attempt_loop-Settled key timeout (suc left) n o w h b =
        Ensures-after (Settled g p) (try_tool (g.gateway.call (request p key false timeout))) _ w
          λ a w'.
            let still : IsPending (record o { attempts = n + 1 }) = record {
              flag = h.flag;
              no_category = h.no_category;
            } in
            after_attempt-Settled _ a (record o { attempts = n + 1 }) w' still (omega arith)
              (omega arith)
              (λ m.
                attempt_loop-Settled key timeout left (n + 1) (record o { attempts = n + 1 }) w'
                  still (omega arith))

    perform-Settled :
        (spec : ToolSpec F) (timeout : Option F) (w : W)
        → Ensures (Settled g p) (perform g p spec timeout w)
    unfolding perform after_dry_run
    perform-Settled spec timeout w =
        let key = g.digest p.request_id p.tool p.arguments in
        let go = attempt_loop g p key timeout g.max_tool_retries 0 in
        let dry_call = try_tool (g.gateway.call (request p key true timeout)) in
        Ends-if (Settled g p) NoClaim (needs_dry_run g spec) (dry_call >>= after_dry_run go)
          (go new_outcome) w
          (λ _. Ensures-after (Settled g p) dry_call (after_dry_run go) w λ a w'. dry a w')
          (λ _.
            attempt_loop-Settled key timeout g.max_tool_retries 0 new_outcome w
              (record { flag = refl; no_category = refl }) (omega arith))
      where
        dry :
            (a : Attempt (ToolResult F)) (w' : W)
            → Ensures (Settled g p) (
                after_dry_run
                  (attempt_loop g p
                    (g.digest p.request_id p.tool p.arguments)
                    timeout
                    g.max_tool_retries
                    0)
                  a
                  w')
        dry (returned r) w' =
            attempt_loop-Settled _ timeout g.max_tool_retries 0
              (record new_outcome { dry_run_result = some r }) w'
              (record { flag = refl; no_category = refl }) (omega arith)
        dry (failed c m) w' = exception-Settled c m new_outcome w' (omega arith)

    refusal-Settled : (c : FailureCategory) (d : Message F) (w : W) → Settled g p (refusal c d) w
    refusal-Settled c d w =
        inr (record { flag = refl; category = c; has_category = refl; bounded = omega arith })

    checked-Settled :
        (approved : Bool) (timeout : Option F) (v : Option (FailureCategory × Message F))
        (spec : Option (ToolSpec F)) (w : W)
        → (v ≡ none → (s : ToolSpec F) × (spec ≡ some s))
        → Ensures (Settled g p) (commit_checked g p approved timeout v spec w)
    unfolding commit_checked
    checked-Settled approved timeout (some (c, d)) spec w h = refusal-Settled c d w
    checked-Settled approved timeout none none w h = absurd (cc (h refl).1)
    checked-Settled approved timeout none (some s) w h =
        Ends-if (Settled g p) NoClaim (needs_approval g s approved) (pure unapproved)
          (perform g p s timeout) w (λ _. refusal-Settled _ _ w) (λ _. perform-Settled s timeout w)

    validated-Settled :
        (approved : Bool) (timeout : Option F) (v : Result (Option (FailureCategory × Message F)))
        (w : W)
        → (v ≡ ok none → (s : ToolSpec F) × (p.spec ≡ some s))
        → Ensures (Settled g p) (after_validate g p approved timeout v w)
    unfolding after_validate
    validated-Settled approved timeout (ok v) w h =
        checked-Settled approved timeout v p.spec w (λ e. h (ap ok e))
    validated-Settled approved timeout (raised e) w h = tt

    -- A commit that returns has committed, with a result to which no result verifier objects, no
    -- failure category and at least one attempt; or it has not, and then it names a category. In
    -- both cases it made at most one attempt more than there are retries.
    pub commit-Settled :
        (approved : Bool) (timeout : Option F) (w : W)
        → Ensures (Settled g p) (commit g p approved timeout w)
    unfolding commit
    commit-Settled approved timeout w =
        validated-Settled approved timeout (validate g.check_schema p) w
          (validate-spec g.check_schema p)
