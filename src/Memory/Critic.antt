-- ===== src/Memory/Critic.antt =====
-- memory/critic.py: a model distils a cluster of failures into a rule.
pub mod Blind
pub mod Screened
use smart_router.Prelude.{
  ℕ, ◌+◌, ◌/◌, Bool, true, false, Option, none, some, List, [], ◌∷◌, ◌++◌, map, String, Float,
  length, take, ltb, if◌then◌else◌,
}
use smart_router.Prelude.Exec.{Exec, Exception, pure, raise, ◌>>=◌}
use smart_router.Schemas.Message.{Text, FailureCategory, Message}
use smart_router.Schemas.Rule.{RouterRule, RuleState}
use smart_router.Gateway.Base.{ModelResponse}
use smart_router.Tools.Json.{Json, Fields, get_field}
use smart_router.Tools.Value.{is_true}
use smart_router.Tools.Proposal.{Runtime}
use smart_router.Verify.LlmJudge.{text_of}
use smart_router.Routing.World.{FailureRecord}
use smart_router.Memory.Gate.{FailureCluster, distinct_queries}
use smart_router.Memory.Hygiene.{Hygiene, check_hygiene}

-- the lines of the user's message, with their values; the system message is `CRITIC_SYSTEM`
pub data CriticLine (F : Type 0) : Type 0 where
  category_line : FailureCategory → CriticLine F
  size_line : ℕ → ℕ → CriticLine F
  blank_line : CriticLine F
  example_line : ℕ → CriticLine F
  request_line rejected_line corrected_line : Text → CriticLine F
  finding_line : Message F → CriticLine F

-- `ReflexionCritic`, with the embedder that `synthesize` is given and the clock of a provenance
pub record Critic (W F : Type 0) : Type 0 where
  pub complete : List (CriticLine F) → Exec W (ModelResponse F)
  pub leak_ground_truth : Bool
  pub hygiene : Hygiene F
  pub max_examples : ℕ
  pub runtime : Runtime F
  pub encode : Option (Text → Exec W (List F))
  pub now : Exec W ℕ

pub data CriticReason (F : Type 0) : Type 0 where
  not_json synthesized : CriticReason F
  abstained : Option (Json F) → CriticReason F
  omitted : String → CriticReason F
  quarantined_for : Message F → CriticReason F

pub record CriticOutput (F : Type 0) : Type 0 where
  pub rule : Option (RouterRule F)
  pub reason : CriticReason F

-- a text that is not empty
abbrev pub has_text : Option Text → Bool
has_text none = false
has_text (some []) = false
has_text (some (c ∷ t)) = true

module _ {F : Type 0} where
  -- the frontier's answer, which is shown only if the switch is set
  unfoldable pub corrected_lines : (Text → Text) → Bool → Option Text → List (CriticLine F)
  corrected_lines scrub false o = []
  corrected_lines scrub true none = []
  corrected_lines scrub true (some []) = []
  corrected_lines scrub true (some (c ∷ t)) = CriticLine.corrected_line (scrub (c ∷ t)) ∷ []

  unfoldable pub example_lines :
      (Text → Text) → Bool → ℕ → List (FailureRecord F) → List (CriticLine F)
  unfolding corrected_lines
  example_lines scrub leak i [] = []
  example_lines scrub leak i (r ∷ rs) =
      (CriticLine.example_line i
        ∷ CriticLine.request_line (scrub r.query)
        ∷ CriticLine.rejected_line (scrub r.rejected_output)
        ∷ CriticLine.finding_line r.detail
        ∷ [])
      ++ (corrected_lines scrub leak r.frontier_output ++ example_lines scrub leak (i + 1) rs)

  -- the identifiers of the failures that the frontier corrected
  unfoldable pub corrected_ids : List (FailureRecord F) → List String
  corrected_ids [] = []
  corrected_ids (r ∷ rs) =
      let rest = corrected_ids rs in
      if has_text r.frontier_output then r.request_id ∷ rest else rest

  -- `str(payload[key])`, scrubbed
  unfoldable pub field_text : Runtime F → (Text → Text) → String → Fields F → Option Text
  field_text rt scrub key d = elim (get_field key d) [
    | none ↦ none
    | some v ↦ some (scrub (text_of rt v))
  ]

  -- `payload.get("abstain")` is true
  abbrev pub abstains : ⦃f : Float F⦄ → Fields F → Bool
  abstains d = elim (get_field "abstain" d) [ none ↦ false | some v ↦ is_true v ]

  abbrev pub no_rule : CriticReason F → CriticOutput F
  no_rule reason = record { rule = none; reason = reason }

module _ {W F : Type 0} where
  -- `_prompt`
  unfoldable pub critic_prompt : Critic W F → FailureCluster F → List (CriticLine F)
  unfolding example_lines distinct_queries
  critic_prompt c cluster =
      (CriticLine.category_line cluster.category
        ∷ CriticLine.size_line (length cluster.records) (distinct_queries cluster)
        ∷ CriticLine.blank_line
        ∷ [])
      ++ example_lines c.hygiene.patterns.scrub c.leak_ground_truth 1
          (take c.max_examples cluster.records)

  -- the vector of the rule, where there is an embedder
  unfoldable pub encode_rule : Critic W F → Text → Exec W (Option (List F))
  encode_rule c t = elim c.encode [
    | none ↦ pure none
    | some encode ↦ do v ← encode t; pure (some v)
  ]

-- the three texts of a rule
pub record RuleText : Type 0 where
  pub trigger : Text
  pub invariant : Text
  pub deduction : Text

abbrev pub joined_text : RuleText → Text
joined_text t = t.trigger ++ (b' ' ∷ (t.invariant ++ (b' ' ∷ t.deduction)))

module _ {F : Type 0} ⦃f : Float F⦄ where
  -- the rule as it is proposed
  unfoldable pub proposed_rule : String → FailureCluster F → RuleText → String → ℕ → RouterRule F
  unfolding corrected_ids
  proposed_rule id cluster t model now =
      let guess = length (joined_text t) / 4 in
      record {
        rule_id = id;
        tenant_id = cluster.tenant_id;
        trigger_condition = t.trigger;
        causal_invariant = t.invariant;
        deduction_guideline = t.deduction;
        provenance = record {
          query_fingerprints = map (λ (r : FailureRecord F). r.query_fingerprint) cluster.records;
          failure_category = cluster.category;
          frontier_trace_ids = corrected_ids cluster.records;
          verifier_trace_ids = map (λ (r : FailureRecord F). r.request_id) cluster.records;
          authored_by = model;
          created_at = now;
          cluster_size = length cluster.records;
        };
        state = RuleState.proposed;
        application_count = 0;
        success_count = 0;
        false_trigger_count = 0;
        wilson_lower_bound = f.zero_f;
        validated_against_model = none;
        token_cost = if ltb 1 guess then guess else 1;
        human_reviewed = false;
        quarantine_reason = none;
      }

  -- a reason against the rule puts it into quarantine
  unfoldable pub judged_rule : RouterRule F → Option (Message F) → CriticOutput F
  judged_rule r none = record { rule = some r; reason = CriticReason.synthesized }
  judged_rule r (some why) = record {
    rule = some (record r { state = RuleState.quarantined; quarantine_reason = some why });
    reason = CriticReason.quarantined_for why;
  }

module _ {W F : Type 0} ⦃f : Float F⦄ where
  -- from the three texts on; `cluster.records[0]` is there in every cluster of the log
  unfoldable pub write_rule :
      Critic W F
      → FailureCluster F
      → String
      → String
      → RuleText
      → List (FailureRecord F)
      → Exec W (CriticOutput F)
  unfolding encode_rule proposed_rule judged_rule check_hygiene
  write_rule c cluster id model t [] = raise (Exception.index_error "list index out of range")
  write_rule c cluster id model t (source ∷ _) = do
    v ← encode_rule c (joined_text t)
    now ← c.now
    pure (
        judged_rule (proposed_rule id cluster t model now) (
          check_hygiene c.hygiene (joined_text t) source.query source.rejected_output v
            source.vector))

  -- the fields of the payload, in the order in which they are read
  unfoldable pub read_payload :
      Critic W F → FailureCluster F → String → String → Fields F → Exec W (CriticOutput F)
  unfolding field_text write_rule
  read_payload c cluster id model d =
      let scrub = c.hygiene.patterns.scrub in
      elim (field_text c.runtime scrub "trigger_condition" d) [
        | none ↦ pure (no_rule (CriticReason.omitted "trigger_condition"))
        | some trigger ↦ elim (field_text c.runtime scrub "causal_invariant" d) [
          | none ↦ pure (no_rule (CriticReason.omitted "causal_invariant"))
          | some invariant ↦ elim (field_text c.runtime scrub "deduction_guideline" d) [
            | none ↦ pure (no_rule (CriticReason.omitted "deduction_guideline"))
            | some deduction ↦
                write_rule c cluster id model
                  (record { trigger = trigger; invariant = invariant; deduction = deduction })
                  cluster.records
          ]
        ]
      ]

  -- a payload that is no object has no `get`
  unfoldable pub read_reply :
      Critic W F → FailureCluster F → String → String → Option (Json F) → Exec W (CriticOutput F)
  unfolding read_payload
  read_reply c cluster id model none = pure (no_rule CriticReason.not_json)
  read_reply c cluster id model (some (Json.object d)) =
      if abstains d
      then pure (no_rule (CriticReason.abstained (get_field "reason" d)))
      else read_payload c cluster id model d
  read_reply c cluster id model (some _) = raise (Exception.attribute_error "get")

  -- `ReflexionCritic.synthesize`
  unfoldable pub synthesize : Critic W F → FailureCluster F → String → Exec W (CriticOutput F)
  unfolding critic_prompt read_reply
  synthesize c cluster id = do
    resp ← c.complete (critic_prompt c cluster)
    read_reply c cluster id resp.model (c.runtime.loads resp.text)
