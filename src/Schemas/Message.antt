-- ===== src/Schemas/Message.antt =====
-- The texts that the parts put into their results. A formatted string is kept as its template, a
-- constructor, and the values that it is given; rendering it is not modelled.
-- `FailureCategory` is that of schemas/verification.py, which the templates name.
use smart_router.Prelude.{ℕ, Option, none, some, List, [], String, ◌==◌, if◌then◌else◌}

-- A text as the list of its code points.
abbrev pub Text : Type 0
Text = List ℕ

pub data FailureCategory : Type 0 where
  timeout provider_fault : FailureCategory
  schema_violation tool_not_found tool_arg_invalid truncation : FailureCategory
  tool_transient tool_semantic tool_auth approval_required tool_result_suspect : FailureCategory
  wrong_tool_selected ungrounded_claim refusal silent_semantic : FailureCategory

-- schemas/routing.py, `RiskClass`
pub data RiskClass : Type 0 where
  read_only reversible_write irreversible_write : RiskClass

-- the reasons of `JudgeSampler.should_judge`
pub data JudgeReason (F : Type 0) : Type 0 where
  by_risk_class : RiskClass → JudgeReason F
  by_cost : F → JudgeReason F
  random_sample not_sampled : JudgeReason F

pub data Message (F : Type 0) : Type 0 where
  -- a text that comes from outside, such as `str(exc)`
  plain : Text → Message F
  -- a fixed text of the program
  fixed : String → Message F
  -- "[{reason}] {detail}"
  judge_found : JudgeReason F → Message F → Message F
  judge_silent : JudgeReason F → Message F
  -- "{category}: {detail}"
  categorised : FailureCategory → Message F → Message F
  -- "mean logprob {avg} < {bound}"
  low_logprob : F → F → Message F
  mean_logprob : F → Message F
  -- "agreement {agree}/{n} below {bound}"
  low_agreement : ℕ → ℕ → F → Message F
  agreement : ℕ → ℕ → Message F
  -- "{tool} returned nothing for arguments {arguments!r}; ..."
  nothing_returned : String → Message F
  -- "{tool} returned {type}, expected {expected}"
  unexpected_type : String → String → Message F
  -- "requested {arg_name}={expected!r} but a result carries {item_key}={found!r}; ..."
  not_echoed : String → String → Message F
  -- the findings of memory/hygiene.py: "rule names an instance literal: {literal!r}",
  -- "{overlap} n-gram overlap with source (max {max})", "rule embeds at {sim} to its single source
  -- instance"
  names_literal : Text → Message F
  overlaps_source : F → Message F
  too_similar : F → Message F
  -- "matched {marker!r}"
  matched : Text → Message F
  -- "tool {tool!r} not in registry"
  unregistered : String → Message F
  -- "invalid JSON: {exc.msg}"
  invalid_json : Text → Message F
  -- "quoted span not present in source: {q!r}"
  ungrounded : Text → Message F

-- `m or other`: a text that is empty gives way
abbrev pub or_else : {F : Type 0} → Option (Message F) → Message F → Message F
or_else none m = m
or_else (some (Message.plain [])) m = m
or_else (some (Message.fixed s)) m = if s == "" then m else Message.fixed s
or_else (some n) m = n
