-- ===== src/Tools/Gateway/Idempotent.antt =====
-- tools/gateway.py: a call that has committed under its key is answered from memory.
use smart_router.Prelude.{
  false, not, Option, none, some, String, ◌≡◌, refl, ◌==◌, ◌&&◌, arith, eq_iff,
}
use smart_router.Prelude.Dict.{get, get-put, string_eq}
use smart_router.Prelude.Exec.{Result, ok, raised, NoClaim, Ensures, Ends-if, raise, tool_other}
use smart_router.Prelude.Strings.{codes}
use smart_router.Tools.Json.{Json}
use smart_router.Tools.Registry.{ToolSpec}
use smart_router.Tools.Gateway.{
  Gateway, ToolRequest, ToolResult, MockState, MockGateway, find_spec, replayed, remember, execute,
  handled, tool_result, mock_answer, mock_call,
}

-- A call that returns can be repeated: it gives the same result and changes nothing.
abbrev pub IsIdempotent : {W F : Type 0} → Gateway W F → ToolRequest F → Type 0
IsIdempotent {W} g q = (s : W) → Ensures (λ r s'. g.call q s' ≡ (ok r, s')) (g.call q s)

-- a real call under a key
pub record IsKeyed {F : Type 0} (q : ToolRequest F) (k : String) : Type 0 where
  pub key : q.idempotency_key ≡ some k
  pub nonempty : (k == "") ≡ false
  pub real : q.dry_run ≡ false

module _ {F : Type 0} where
  abbrev pub mock : MockGateway F → Gateway (MockState F) F
  mock g = record { list_tools = g.specs; call = mock_call g }

  module _ (g : MockGateway F) (q : ToolRequest F) (k : String) (h : IsKeyed q k) where
    replayed-keyed : (s : MockState F) → replayed q s ≡ get k s.committed
    unfolding replayed
    replayed-keyed s = rw (h.key, replayed) (rw h.nonempty (rw h.real refl))

    answered :
        (spec : ToolSpec F) (r : ToolResult F) (s : MockState F)
        → find_spec q.tool g.specs ≡ some spec
        → get k s.committed ≡ some r
        → mock_call g q s ≡ (ok r, s)
    unfolding mock_call
    answered spec r s found kept = rw (found, replayed-keyed s, kept) refl

    kept-remember : (r : ToolResult F) (s : MockState F) → get k (remember q r s).committed ≡ some r
    unfolding remember
    kept-remember r s =
        rw (h.key, remember)
          (rw h.nonempty (rw h.real (ground (arith, get-put k k r s.committed, eq_iff k k))))

    handled-answered :
        (content : Result (Json F)) (spec : ToolSpec F) (s : MockState F)
        → find_spec q.tool g.specs ≡ some spec
        → Ensures (λ r s'. mock_call g q s' ≡ (ok r, s')) (handled g q content s)
    unfolding handled
    handled-answered (raised e) spec s found = tt
    handled-answered (ok c) spec s found =
        answered spec (tool_result g q c) (remember q (tool_result g q c) s) found
          (kept-remember (tool_result g q c) s)

    answer-answered :
        (spec : Option (ToolSpec F)) (kept : Option (ToolResult F)) (s : MockState F)
        → find_spec q.tool g.specs ≡ spec
        → get k s.committed ≡ kept
        → Ensures (λ r s'. mock_call g q s' ≡ (ok r, s')) (mock_answer g q spec kept s)
    unfolding mock_answer execute
    answer-answered none kept s found e = tt
    answer-answered (some spec) (some r) s found e = answered spec r s found e
    answer-answered (some spec) none s found e =
        Ends-if (λ r s'. mock_call g q s' ≡ (ok r, s')) NoClaim
          (q.dry_run && not spec.supports_dry_run) (raise (tool_other (codes q.tool))) (execute g q)
          s (λ _. tt) (λ _. handled-answered (g.handlers q.tool q.arguments q.dry_run) spec _ found)

    -- A real call under a key that is not empty, once it has returned, can be repeated any number
    -- of times: the in-process gateway gives the result again and neither calls the handler nor
    -- changes its state.
    pub mock-IsIdempotent : IsIdempotent (mock g) q
    unfolding mock_call
    mock-IsIdempotent s =
        rw (replayed-keyed s)
          (answer-answered (find_spec q.tool g.specs) (get k s.committed) s refl refl)
