-- ===== src/Tools/Commit/Log.antt =====
-- tools/commit.py, `CommitGate.commit`: which calls reach the gateway, and in which order.
use mathlib.Core.List.{append-nil, append_assoc}
use smart_router.Prelude.{
  ℕ, zero, suc, ◌+◌, ◌<◌, Bool, true, false, Option, none, some, List, [], ◌∷◌, ◌++◌, String, ◌≡◌,
  refl, ap, ◌∙◌, sym, ◌⊎◌, inl, inr, Option-cases, is_some, if◌then◌else◌, arith,
}
use smart_router.Prelude.Exec
use smart_router.Prelude.Exec.{
  Exec, Result, ok, raised, NoClaim, Ensures, Ends-bind, Ends-map, Ends-if, pure, ◌>>=◌,
}
use smart_router.Schemas.Message.{Text, FailureCategory, Message}
use smart_router.Tools.Errors.{transient}
use smart_router.Tools.Registry.{ToolSpec}
use smart_router.Tools.Gateway.{Gateway, ToolRequest, ToolResult}
use smart_router.Tools.Commit.{
  CommitOutcome, CommitGate, Attempt, caught, try_tool, new_outcome, request, from_exception,
  first_objection, after_result, after_attempt, after_dry_run, attempt_loop, perform,
  commit_checked, after_validate, commit, returned, failed, needs_dry_run, needs_approval,
  unapproved,
}
use smart_router.Tools.Proposal.{ToolProposal, validate}
use smart_router.Tools.Commit.Outcome.{validate-spec}

abbrev pub replicate {ℓ} : {A : Type ℓ} → ℕ → A → List A
replicate zero a = []
replicate (suc n) a = a ∷ replicate n a

caught-state :
    {A S : Type 0} (r : Result A) (s : S) → Ensures (λ (a : Attempt A) s'. s' ≡ s) (caught r s)
caught-state (ok a) s = refl
caught-state (raised (Exec.tool_transient m)) s = refl
caught-state (raised (Exec.tool_semantic m)) s = refl
caught-state (raised (Exec.tool_auth m)) s = refl
caught-state (raised (Exec.tool_not_found m)) s = refl
caught-state (raised (Exec.tool_other m)) s = refl
caught-state (raised (Exec.provider_timeout m)) s = tt
caught-state (raised (Exec.provider_fault m)) s = tt
caught-state (raised (Exec.value_error m)) s = tt
caught-state (raised (Exec.key_error m)) s = tt
caught-state (raised (Exec.runtime_error m)) s = tt
caught-state (raised (Exec.attribute_error m)) s = tt
caught-state (raised (Exec.type_error m)) s = tt
caught-state (raised (Exec.index_error m)) s = tt

module _ {W F : Type 0} where
  -- the gateway, with a log of the requests that reach it
  abbrev pub recorded : Gateway W F → Gateway (W × List (ToolRequest F)) F
  recorded g = record {
    list_tools = g.list_tools;
    call = λ q s. let r = g.call q s.0 in (r.0, (r.1, s.1 ++ (q ∷ [])));
  }

  abbrev pub recording : CommitGate W F → CommitGate (W × List (ToolRequest F)) F
  recording g = record {
    gateway = recorded g.gateway;
    registry = g.registry;
    max_tool_retries = g.max_tool_retries;
    dry_run_irreversible = g.dry_run_irreversible;
    require_approval_for_irreversible = g.require_approval_for_irreversible;
    result_verifiers = g.result_verifiers;
    check_schema = g.check_schema;
    digest = g.digest;
  }

  module _ (g : CommitGate W F) (p : ToolProposal F) (timeout : Option F) where
    abbrev pub State : Type 0
    State = W × List (ToolRequest F)

    abbrev pub key : String
    key = g.digest p.request_id p.tool p.arguments

    abbrev pub real : ToolRequest F
    real = request p key false timeout

    abbrev pub dry : ToolRequest F
    dry = request p key true timeout

    abbrev call_of : ToolRequest F → Exec State (Attempt (ToolResult F))
    call_of q = try_tool ((recorded g.gateway).call q)

    call-log :
        (q : ToolRequest F) (s : State) → Ensures (λ a s'. s'.1 ≡ s.1 ++ (q ∷ [])) (call_of q s)
    unfolding try_tool
    call-log q s =
        let r = g.gateway.call q s.0 in
        let after : State = (r.1, s.1 ++ (q ∷ [])) in
        Ends-map (λ a s'. s' ≡ after) (λ a s'. s'.1 ≡ s.1 ++ (q ∷ [])) NoClaim (caught r.0 after)
          (caught-state r.0 after) (λ a s' e. ap (λ (t : State). t.1) e)

    -- the loop has made `made` real calls on top of `start`, and no other
    record Looped (start : List (ToolRequest F)) (n : ℕ) (before o : CommitOutcome F) (s : State)
        : Type 0 where
      made : ℕ
      counted : o.attempts ≡ n + made
      logged : s.1 ≡ start ++ replicate made real
      kept : o.dry_run_result ≡ before.dry_run_result

    result-Looped :
        (r : ToolResult F) (start : List (ToolRequest F)) (n : ℕ) (before : CommitOutcome F)
        (s : State)
        → s.1 ≡ start ++ (real ∷ [])
        → Looped start n before
            (after_result g.result_verifiers p r (record before { attempts = n + 1 }))
            s
    unfolding after_result
    result-Looped r start n before s e =
        elim (Option-cases (first_objection g.result_verifiers p r)) [
          | inl fine ↦
              rw (fine, after_result) (record { made = 1; counted = refl; logged = e; kept = refl })
          | inr (d, bad) ↦
              rw (bad, after_result) (record { made = 1; counted = refl; logged = e; kept = refl })
        ]

    after_attempt-Looped :
        (retry : Text → CommitOutcome F → Exec State (CommitOutcome F)) (a : Attempt (ToolResult F))
        (start : List (ToolRequest F)) (n : ℕ) (before : CommitOutcome F) (s : State)
        → s.1 ≡ start ++ (real ∷ [])
        → ((m : Text)
            → Ensures (Looped start n before) (retry m (record before { attempts = n + 1 }) s))
        → Ensures
            (Looped start n before)
            (after_attempt (recording g) p retry a (record before { attempts = n + 1 }) s)
    unfolding after_attempt from_exception
    after_attempt-Looped retry (returned r) start n before s e k =
        result-Looped r start n before s e
    after_attempt-Looped retry (failed transient m) start n before s e k = k m
    after_attempt-Looped retry (failed c m) start n before s e k = record {
      made = 1;
      counted = refl;
      logged = e;
      kept = refl;
    }

    more-Looped :
        (start : List (ToolRequest F)) (n : ℕ) (before : CommitOutcome F) (s : State)
        (o : CommitOutcome F) (s' : State)
        → s.1 ≡ start ++ (real ∷ [])
        → Looped s.1 (n + 1) (record before { attempts = n + 1 }) o s'
        → Looped start n before o s'
    more-Looped start n before s o s' e h = record {
      made = suc h.made;
      counted = omega (arith, h.counted);
      logged =
          h.logged
          ∙ ap (λ l. l ++ replicate h.made real) e
          ∙ append_assoc start (real ∷ []) (replicate h.made real);
      kept = h.kept;
    }

    attempt_loop-Looped :
        (left n : ℕ) (o : CommitOutcome F) (s : State)
        → Ensures (Looped s.1 n o) (attempt_loop (recording g) p key timeout left n o s)
    unfolding attempt_loop
    attempt_loop-Looped zero n o s =
        Ends-bind (λ a s'. s'.1 ≡ s.1 ++ (real ∷ [])) (Looped s.1 n o) NoClaim (call_of real) _ s
          (call-log real s)
          λ a s' e. after_attempt-Looped _ a s.1 n o s' e (λ m.
            unfold from_exception in record { made = 1; counted = refl; logged = e; kept = refl })
    attempt_loop-Looped (suc left) n o s =
        Ends-bind (λ a s'. s'.1 ≡ s.1 ++ (real ∷ [])) (Looped s.1 n o) NoClaim (call_of real) _ s
          (call-log real s)
          λ a s' e. after_attempt-Looped _ a s.1 n o s' e (λ m.
            Ends-map (Looped s'.1 (n + 1) (record o { attempts = n + 1 })) (Looped s.1 n o) NoClaim
              (attempt_loop (recording g) p key timeout left (n + 1) (record o { attempts = n + 1 })
                s')
              (attempt_loop-Looped left (n + 1) (record o { attempts = n + 1 }) s')
              (λ o' s'' h. more-Looped s.1 n o s' o' s'' e h))

    -- the dry run that is due
    abbrev pub dry_calls : ToolSpec F → List (ToolRequest F)
    dry_calls spec = if needs_dry_run g spec then dry ∷ [] else []

    dry_calls_due : (spec : ToolSpec F) → needs_dry_run g spec ≡ true → dry_calls spec ≡ dry ∷ []
    dry_calls_due spec due = ground arith

    dry_calls_undue : (spec : ToolSpec F) → needs_dry_run g spec ≡ false → dry_calls spec ≡ []
    dry_calls_undue spec undue = ground arith

    joined :
        (start calls : List (ToolRequest F)) (n k : ℕ) (l l' : List (ToolRequest F))
        → n ≡ 0 + k
        → l ≡ start ++ calls
        → l' ≡ l ++ replicate k real
        → l' ≡ start ++ (calls ++ replicate n real)
    joined start calls n k l l' counted e logged =
        let same : n ≡ k = omega arith in
        rw same
          (logged ∙ ap (λ l. l ++ replicate k real) e ∙ append_assoc start calls (replicate k real))

    pub record Performed (spec : ToolSpec F) (start : List (ToolRequest F)) (o : CommitOutcome F)
        (s : State) : Type 0 where
      pub logged : s.1 ≡ start ++ (dry_calls spec ++ replicate o.attempts real)
      pub dry_first : 0 < o.attempts → needs_dry_run g spec ≡ true → is_some o.dry_run_result ≡ true

    dry_then-Performed :
        (spec : ToolSpec F) (start : List (ToolRequest F)) (a : Attempt (ToolResult F)) (s : State)
        → needs_dry_run g spec ≡ true
        → s.1 ≡ start ++ (dry ∷ [])
        → Ensures
            (Performed spec start)
            (after_dry_run (attempt_loop (recording g) p key timeout g.max_tool_retries 0) a s)
    unfolding after_dry_run
    dry_then-Performed spec start (returned r) s due e =
        Ends-map (Looped s.1 0 (record new_outcome { dry_run_result = some r }))
          (Performed spec start) NoClaim
          (attempt_loop (recording g) p key timeout g.max_tool_retries 0
            (record new_outcome { dry_run_result = some r }) s)
          (attempt_loop-Looped g.max_tool_retries 0 (record new_outcome { dry_run_result = some r })
            s)
          λ o s' h. record {
            logged =
                rw (dry_calls_due spec due)
                  (joined start (dry ∷ []) o.attempts h.made s.1 s'.1 h.counted e h.logged);
            dry_first = λ pos d. rw h.kept refl;
          }
    dry_then-Performed spec start (failed c m) s due e =
        unfold from_exception in
        record {
          logged =
              rw (dry_calls_due spec due) (e ∙ ap (λ l. start ++ l) (sym (append-nil (dry ∷ []))));
          dry_first = λ pos d. absurd (omega arith);
        }

    perform-Performed :
        (spec : ToolSpec F) (s : State)
        → Ensures (Performed spec s.1) (perform (recording g) p spec timeout s)
    unfolding perform
    perform-Performed spec s =
        let go = attempt_loop (recording g) p key timeout g.max_tool_retries 0 in
        Ends-if (Performed spec s.1) NoClaim (needs_dry_run g spec)
          (call_of dry >>= after_dry_run go) (go new_outcome) s
          (λ due.
            Ends-bind (λ a s'. s'.1 ≡ s.1 ++ (dry ∷ [])) (Performed spec s.1) NoClaim (call_of dry)
              (after_dry_run go) s (call-log dry s)
              λ a s' e. dry_then-Performed spec s.1 a s' due e)
          (λ undue.
            Ends-map (Looped s.1 0 new_outcome) (Performed spec s.1) NoClaim (go new_outcome s)
              (attempt_loop-Looped g.max_tool_retries 0 new_outcome s)
              λ o s' h. record {
                logged = rw (dry_calls_undue spec undue) (
                    joined s.1 [] o.attempts h.made s.1 s'.1 h.counted (sym (append-nil s.1))
                      h.logged);
                dry_first = λ pos d. absurd (ground (arith, undue, d));
              })

    -- what keeps a proposal from the gateway
    abbrev pub Blocked : Bool → Type 0
    Blocked approved =
        ((c : FailureCategory × Message F) × (validate g.check_schema p ≡ ok (some c)))
        ⊎ ((s : ToolSpec F) × (p.spec ≡ some s) × (needs_approval g s approved ≡ true))

    pub record Untouched (start : List (ToolRequest F)) (o : CommitOutcome F) (s : State)
        : Type 0 where
      pub uncommitted : o.committed ≡ false
      pub no_attempt : o.attempts ≡ 0
      pub no_call : s.1 ≡ start

    abbrev pub Admitted : Bool → ToolSpec F → Type 0
    Admitted approved spec =
        (p.spec ≡ some spec)
        × (validate g.check_schema p ≡ ok none)
        × (needs_approval g spec approved ≡ false)

    abbrev pub Guarded : Bool → List (ToolRequest F) → CommitOutcome F → State → Type 0
    Guarded approved start o s =
        (Blocked approved × Untouched start o s)
        ⊎ ((spec : ToolSpec F) × Admitted approved spec × Performed spec start o s)

    checked-Guarded :
        (approved : Bool) (v : Option (FailureCategory × Message F)) (spec : Option (ToolSpec F))
        (s : State)
        → validate g.check_schema p ≡ ok v
        → p.spec ≡ spec
        → Ensures (Guarded approved s.1) (commit_checked (recording g) p approved timeout v spec s)
    unfolding commit_checked
    checked-Guarded approved (some c) spec s ev es =
        inl (inl (c, ev), record { uncommitted = refl; no_attempt = refl; no_call = refl })
    checked-Guarded approved none none s ev es =
        absurd (cc (es, (validate-spec g.check_schema p ev).1))
    checked-Guarded approved none (some spec) s ev es =
        Ends-if (Guarded approved s.1) NoClaim (needs_approval g spec approved) (pure unapproved)
          (perform (recording g) p spec timeout) s
          (λ due.
            inl (
              inr (spec, es, due),
              record { uncommitted = refl; no_attempt = refl; no_call = refl },
            ))
          (λ free.
            Ends-map (Performed spec s.1) (Guarded approved s.1) NoClaim
              (perform (recording g) p spec timeout s) (perform-Performed spec s)
              (λ o s' h. inr (spec, (es, ev, free), h)))

    validated-Guarded :
        (approved : Bool) (v : Result (Option (FailureCategory × Message F))) (s : State)
        → validate g.check_schema p ≡ v
        → Ensures (Guarded approved s.1) (after_validate (recording g) p approved timeout v s)
    unfolding after_validate
    validated-Guarded approved (ok v) s e = checked-Guarded approved v p.spec s e refl
    validated-Guarded approved (raised x) s e = tt

    -- The calls that a commit which returns has made, over a log of the gateway's calls. Either
    -- the proposal is invalid or lacks a required approval, and then no call was made and nothing
    -- is committed; or it is valid and not held up, and then the calls are the dry run if one is
    -- due, followed by one real call for each attempt. All the real calls are the same request
    -- under one idempotency key, and none was made before a due dry run had returned.
    pub commit-Guarded :
        (approved : Bool) (s : State)
        → Ensures (Guarded approved s.1) (commit (recording g) p approved timeout s)
    unfolding commit
    commit-Guarded approved s = validated-Guarded approved (validate g.check_schema p) s refl
