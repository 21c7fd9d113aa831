-- ===== src/Tools/Commit/Again.antt =====
-- tools/commit.py over a gateway that honours idempotency keys: committing twice.
use smart_router.Prelude.{
  ℕ, zero, suc, ◌+◌, Bool, true, false, Option, none, some, String, ◌≡◌, refl, ◌∙◌, ap, inl, inr,
  Option-cases, arith, if◌then◌else◌,
}
use smart_router.Prelude.Exec
use smart_router.Prelude.Exec.{
  Exec, Exception, Result, ok, raised, NoClaim, Ensures, Ensures-any, Ends-bind, Ends-map, Ends-if,
  pure, ◌>>=◌,
}
use smart_router.Schemas.Message.{Text, FailureCategory, Message}
use smart_router.Tools.Errors.{ToolErrorClass, transient}
use smart_router.Tools.Registry.{ToolSpec}
use smart_router.Tools.Gateway.{ToolRequest, ToolResult}
use smart_router.Tools.Gateway.Idempotent.{IsIdempotent}
use smart_router.Tools.Commit.{
  CommitOutcome, CommitGate, Attempt, caught, try_tool, new_outcome, refusal, request,
  from_exception, first_objection, after_result, after_attempt, after_dry_run, attempt_loop,
  perform, commit_checked, after_validate, commit, returned, failed, needs_dry_run, needs_approval,
  unapproved,
}
use smart_router.Tools.Proposal.{ToolProposal, validate}

caught-Ensures :
    {A W : Type 0} (P : A → W → Type 0) (Q : Attempt A → W → Type 0) (r : Result A) (w : W)
    → Ensures P (r, w)
    → ((a : A) → P a w → Q (returned a) w)
    → ((c : ToolErrorClass) (m : Text) → Q (failed c m) w)
    → Ensures Q (caught r w)
caught-Ensures P Q (ok a) w h k f = k a h
caught-Ensures P Q (raised (Exec.tool_transient m)) w h k f = f _ m
caught-Ensures P Q (raised (Exec.tool_semantic m)) w h k f = f _ m
caught-Ensures P Q (raised (Exec.tool_auth m)) w h k f = f _ m
caught-Ensures P Q (raised (Exec.tool_not_found m)) w h k f = f _ m
caught-Ensures P Q (raised (Exec.tool_other m)) w h k f = f _ m
caught-Ensures P Q (raised e) w h k f = tt

bind-ok :
    {W A B : Type 0} (m : Exec W A) (h : A → Exec W B) (a : A) (w w' : W)
    → m w ≡ (ok a, w')
    → (m >>= h) w ≡ h a w'
unfolding ◌>>=◌
bind-ok m h a w w' e = rw e refl

try_tool-ok :
    {W A : Type 0} (m : Exec W A) (a : A) (w : W)
    → m w ≡ (ok a, w)
    → try_tool m w ≡ (ok (returned a), w)
unfolding try_tool
try_tool-ok m a w e = rw e refl

module _ {W F : Type 0} (g : CommitGate W F) (p : ToolProposal F) (timeout : Option F) where
  abbrev pub key : String
  key = g.digest p.request_id p.tool p.arguments

  abbrev pub real : ToolRequest F
  real = request p key false timeout

  -- the real call would give `r` and change nothing, and no result verifier objects to `r`
  pub record Answered (o : CommitOutcome F) (w : W) : Type 0 where
    pub result : ToolResult F
    pub has_result : o.result ≡ some result
    pub unobjected : first_objection g.result_verifiers p result ≡ none
    pub again : g.gateway.call real w ≡ (ok result, w)

  abbrev AnsweredIf : CommitOutcome F → W → Type 0
  AnsweredIf o w = o.committed ≡ true → Answered o w

  result-AnsweredIf :
      (r : ToolResult F) (o : CommitOutcome F) (w : W)
      → o.committed ≡ false
      → g.gateway.call real w ≡ (ok r, w)
      → AnsweredIf (after_result g.result_verifiers p r o) w
  unfolding after_result
  result-AnsweredIf r o w pending again =
      elim (Option-cases (first_objection g.result_verifiers p r)) [
        | inl fine ↦
            rw (fine, after_result)
              (λ _. record { result = r; has_result = refl; unobjected = fine; again = again })
        | inr (d, bad) ↦ rw (bad, after_result) (λ c. absurd (ground (arith, c, pending)))
      ]

  -- what is known of an attempt that returned
  abbrev Repeats : Attempt (ToolResult F) → W → Type 0
  Repeats (returned r) w = g.gateway.call real w ≡ (ok r, w)
  Repeats (failed c m) w = Unit

  try-Repeats :
      IsIdempotent g.gateway real → (w : W) → Ensures Repeats (try_tool (g.gateway.call real) w)
  unfolding try_tool
  try-Repeats idem w =
      let r = g.gateway.call real w in
      caught-Ensures (λ a w'. g.gateway.call real w' ≡ (ok a, w')) Repeats r.0 r.1 (idem w)
        (λ a e. e) (λ c m. tt)

  after_attempt-AnsweredIf :
      (retry : Text → CommitOutcome F → Exec W (CommitOutcome F)) (a : Attempt (ToolResult F))
      (o : CommitOutcome F) (w : W)
      → o.committed ≡ false
      → Repeats a w
      → ((m : Text) → Ensures AnsweredIf (retry m o w))
      → Ensures AnsweredIf (after_attempt g p retry a o w)
  unfolding after_attempt from_exception
  after_attempt-AnsweredIf retry (returned r) o w pending again k =
      result-AnsweredIf r o w pending again
  after_attempt-AnsweredIf retry (failed transient m) o w pending again k = k m
  after_attempt-AnsweredIf retry (failed c m) o w pending again k = λ e. absurd (cc e)

  module _ (idem : IsIdempotent g.gateway real) where
    attempt_loop-AnsweredIf :
        (left n : ℕ) (o : CommitOutcome F) (w : W)
        → o.committed ≡ false
        → Ensures AnsweredIf (attempt_loop g p key timeout left n o w)
    unfolding attempt_loop
    attempt_loop-AnsweredIf zero n o w pending =
        Ends-bind Repeats AnsweredIf NoClaim (try_tool (g.gateway.call real)) _ w
          (try-Repeats idem w)
          λ a w' rep.
            after_attempt-AnsweredIf _ a (record o { attempts = n + 1 }) w' pending rep
              (λ m. unfold from_exception in λ e. absurd (cc e))
    attempt_loop-AnsweredIf (suc left) n o w pending =
        Ends-bind Repeats AnsweredIf NoClaim (try_tool (g.gateway.call real)) _ w
          (try-Repeats idem w)
          λ a w' rep.
            after_attempt-AnsweredIf _ a (record o { attempts = n + 1 }) w' pending rep
              (λ m. attempt_loop-AnsweredIf left (n + 1) (record o { attempts = n + 1 }) w' pending)

  -- the outcome of a commit whose first attempt is answered with `r`
  abbrev pub committed_with : Option (ToolResult F) → CommitOutcome F
  committed_with r = record new_outcome {
    committed = true;
    result = r;
    detail = Message.fixed "committed";
    attempts = 1;
  }

  loop_again :
      (left : ℕ) (o : CommitOutcome F) (w : W)
      → Answered o w
      → attempt_loop g p key timeout left 0 new_outcome w ≡ (ok (committed_with o.result), w)
  unfolding attempt_loop after_attempt after_result
  loop_again zero o w h =
      bind-ok (try_tool (g.gateway.call real)) _ (returned h.result) w w
        (try_tool-ok (g.gateway.call real) h.result w h.again)
      ∙ rw (h.unobjected, after_result) (rw h.has_result refl)
  loop_again (suc left) o w h =
      bind-ok (try_tool (g.gateway.call real)) _ (returned h.result) w w
        (try_tool-ok (g.gateway.call real) h.result w h.again)
      ∙ rw (h.unobjected, after_result) (rw h.has_result refl)

  module _ (approved : Bool) (spec : ToolSpec F) (found : p.spec ≡ some spec)
      (undue : needs_dry_run g spec ≡ false) where
    abbrev CommitsAgain : CommitOutcome F → W → Type 0
    CommitsAgain o w =
        o.committed ≡ true → commit g p approved timeout w ≡ (ok (committed_with o.result), w)

    commit_held :
        (c : FailureCategory × Message F) (w : W)
        → validate g.check_schema p ≡ ok (some c)
        → commit g p approved timeout w ≡ (ok (refusal c.0 c.1), w)
    unfolding commit after_validate commit_checked
    commit_held c w e = ap (λ v. after_validate g p approved timeout v w) e

    commit_known :
        (w : W)
        → validate g.check_schema p ≡ ok none
        → commit g p approved timeout w
          ≡ (if needs_approval g spec approved then pure unapproved else perform g p spec timeout) w
    unfolding commit after_validate commit_checked
    commit_known w e =
        ap (λ v. after_validate g p approved timeout v w) e
        ∙ ap (λ s. commit_checked g p approved timeout none s w) found

    perform_loop :
        (w : W)
        → perform g p spec timeout w
          ≡ attempt_loop g p key timeout g.max_tool_retries 0 new_outcome w
    unfolding perform
    perform_loop w =
        ap
          (λ b.
            (if b
                then try_tool (g.gateway.call (request p key true timeout))
                  >>= after_dry_run (attempt_loop g p key timeout g.max_tool_retries 0)
                else attempt_loop g p key timeout g.max_tool_retries 0 new_outcome)
              w)
          undue

    admitted-CommitsAgain :
        IsIdempotent g.gateway real
        → (w : W) → validate g.check_schema p ≡ ok none
        → Ensures CommitsAgain (
            (if needs_approval g spec approved then pure unapproved else perform g p spec timeout)
              w)
    admitted-CommitsAgain idem w good =
        Ends-if CommitsAgain NoClaim (needs_approval g spec approved) (pure unapproved)
          (perform g p spec timeout) w (λ due c. absurd (cc c))
          (λ free. rw (perform_loop w) (
            Ends-map AnsweredIf CommitsAgain NoClaim
              (attempt_loop g p key timeout g.max_tool_retries 0 new_outcome w)
              (attempt_loop-AnsweredIf idem g.max_tool_retries 0 new_outcome w refl)
              λ o w' ans c.
                commit_known w' good
                ∙ ap (λ b. (if b then pure unapproved else perform g p spec timeout) w') free
                ∙ perform_loop w'
                ∙ loop_again g.max_tool_retries o w' (ans c)))

    commit_broken :
        (x : Exception) (w : W)
        → validate g.check_schema p ≡ raised x
        → commit g p approved timeout w ≡ (raised x, w)
    unfolding commit after_validate
    commit_broken x w e = ap (λ v. after_validate g p approved timeout v w) e

    again_when :
        IsIdempotent g.gateway real
        → (w : W) (v : Result (Option (FailureCategory × Message F)))
        → validate g.check_schema p ≡ v
        → Ensures CommitsAgain (commit g p approved timeout w)
    again_when idem w (ok none) e = rw (commit_known w e) (admitted-CommitsAgain idem w e)
    again_when idem w (ok (some c)) e = rw (commit_held c w e) (λ d. absurd (cc d))
    again_when idem w (raised x) e = rw (commit_broken x w e) tt

    -- A proposal for a tool with no dry run due, over a gateway on which its real call can be
    -- repeated: after a commit that committed, another commit of the same proposal returns the same
    -- result in one attempt, and leaves the state of the gateway's world as it is.
    pub commit_again :
        IsIdempotent g.gateway real → (w : W) → Ensures CommitsAgain (commit g p approved timeout w)
    commit_again idem w = again_when idem w (validate g.check_schema p) refl
