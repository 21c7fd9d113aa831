-- ===== src/Memory/Critic/Screened.antt =====
-- memory/critic.py, `synthesize`, with the filter of memory/hygiene.py: what is known of a rule that is
-- not put into quarantine.
use smart_router.Prelude.{
  false, Option, none, some, List, ◌∷◌, ◌++◌, String, ◌≡◌, inl, inr, refl, Float, Bool-cases,
  Option-cases, some-injective, subst, sym,
}
use smart_router.Prelude.Exec.{Exec, pure, Result, Ensures, Ensures-after, Ends-if, NoClaim}
use smart_router.Schemas.Message.{Text, Message}
use smart_router.Schemas.Rule.{RouterRule}
use smart_router.Routing.World.{FailureRecord}
use smart_router.Tools.Json.{Json, Fields, get_field}
use smart_router.Memory.Lifecycle.{is_quarantined}
use smart_router.Memory.Gate.{FailureCluster}
use smart_router.Memory.Hygiene.{Hygiene, overlap, ngrams, exceeds, check_hygiene}
use smart_router.Memory.Critic.{
  Critic, CriticOutput, CriticReason, no_rule, abstains, RuleText, joined_text, field_text,
  proposed_rule, judged_rule, write_rule, read_payload, read_reply, synthesize,
}

module _ {F : Type 0} ⦃f : Float F⦄ (h : Hygiene F) where
  -- a text with no literal of the forms that the filter knows, and with few of the source's grams
  pub record IsClean (t query answer : Text) : Type 0 where
    pub no_literal : h.patterns.find_literal t ≡ none
    pub few_grams :
        (x : F)
        → overlap
            (ngrams h.patterns h.ngram_n t)
            (ngrams h.patterns h.ngram_n (query ++ (10 ∷ answer)))
          ≡ some x
        → f.lt_f h.max_ngram_overlap x ≡ false

  exceeds-none : (bound x : F) → exceeds bound (some x) ≡ none → f.lt_f bound x ≡ false
  exceeds-none bound x e = elim (Bool-cases (f.lt_f bound x)) [
    | inl above ↦ absurd (cc (rw above at e))
    | inr below ↦ below
  ]

  check_hygiene-IsClean :
      (t query answer : Text) (v : Option (List F)) (s : List F)
      → check_hygiene h t query answer v s ≡ none
      → IsClean t query answer
  unfolding check_hygiene
  check_hygiene-IsClean t query answer v s e =
      let source = ngrams h.patterns h.ngram_n (query ++ (10 ∷ answer)) in
      let shared = overlap (ngrams h.patterns h.ngram_n t) source in
      elim (Option-cases (h.patterns.find_literal t)) [
        | inr (l, found) ↦ absurd (cc (rw (found, check_hygiene) at e))
        | inl nothing ↦ elim (Option-cases (exceeds h.max_ngram_overlap shared)) [
          | inr (x, above) ↦ absurd (cc (rw (nothing, above, check_hygiene) at e))
          | inl below ↦ record {
            no_literal = nothing;
            few_grams = λ x o. exceeds-none h.max_ngram_overlap x (rw o at below);
          }
        ]
      ]

module _ {F : Type 0} where
  -- the three texts of a stored rule
  abbrev pub written : RouterRule F → Text
  written r = joined_text (record {
    trigger = r.trigger_condition;
    invariant = r.causal_invariant;
    deduction = r.deduction_guideline;
  })

module _ {F : Type 0} ⦃f : Float F⦄ (h : Hygiene F) (source : FailureRecord F) where
  -- if there is a rule, it is in quarantine or clean
  abbrev pub IsScreened : CriticOutput F → Type 0
  IsScreened out =
      (r : RouterRule F)
      → out.rule ≡ some r
      → is_quarantined r.state ≡ false
      → IsClean h (written r) source.query source.rejected_output

  judged_rule-IsScreened :
      (r : RouterRule F) (why : Option (Message F))
      → (why ≡ none → IsClean h (written r) source.query source.rejected_output)
      → IsScreened (judged_rule r why)
  unfolding judged_rule
  judged_rule-IsScreened r none k r' e free =
      subst (λ x. IsClean h (written x) source.query source.rejected_output) (some-injective e)
        (k refl)
  judged_rule-IsScreened r (some why) k r' e free = absurd (cc (free, some-injective e))

module _ {W F : Type 0} ⦃f : Float F⦄ (c : Critic W F) (cluster : FailureCluster F)
    (source : FailureRecord F) where
  abbrev Screens : Result (CriticOutput F) × W → Type 0
  Screens = Ensures (λ out _. IsScreened c.hygiene source out)

  write_rule-Screens :
      (id model : String) (t : RuleText) (rest : List (FailureRecord F)) (w : W)
      → Screens (write_rule c cluster id model t (source ∷ rest) w)
  unfolding write_rule proposed_rule
  write_rule-Screens id model t rest w =
      Ensures-after (λ out _. IsScreened c.hygiene source out) _ _ w
        (λ v w1.
          Ensures-after (λ out _. IsScreened c.hygiene source out) c.now _ w1
            (λ now w2.
              judged_rule-IsScreened c.hygiene source (proposed_rule id cluster t model now)
                (check_hygiene c.hygiene (joined_text t) source.query source.rejected_output v
                  source.vector)
                (check_hygiene-IsClean c.hygiene (joined_text t) source.query source.rejected_output
                  v source.vector)))

  option-Screens :
      {A : Type 0} (o : Option A) (m : Exec W (CriticOutput F)) (g : A → Exec W (CriticOutput F))
      (w : W)
      → Screens (m w)
      → ((a : A) → Screens (g a w))
      → Screens ((elim o as (λ _. Exec W (CriticOutput F)) [ none ↦ m | some a ↦ g a ]) w)
  option-Screens none m g w h k = h
  option-Screens (some a) m g w h k = k a

  read_payload-Screens :
      (id model : String) (d : Fields F) (rest : List (FailureRecord F)) (w : W)
      → cluster.records ≡ source ∷ rest
      → Screens (read_payload c cluster id model d w)
  unfolding read_payload
  read_payload-Screens id model d rest w e =
      let read = λ (key : String). field_text c.runtime c.hygiene.patterns.scrub key d in
      option-Screens (read "trigger_condition") _ _ w (λ r h. absurd (cc h))
        (λ trigger.
          option-Screens (read "causal_invariant") _ _ w (λ r h. absurd (cc h))
            (λ invariant.
              option-Screens (read "deduction_guideline") _ _ w (λ r h. absurd (cc h))
                (λ deduction.
                  let t : RuleText = record {
                    trigger = trigger;
                    invariant = invariant;
                    deduction = deduction;
                  } in
                  subst (λ rs. Screens (write_rule c cluster id model t rs w)) (sym e)
                    (write_rule-Screens id model t rest w))))

  read_reply-Screens :
      (id model : String) (j : Option (Json F)) (rest : List (FailureRecord F)) (w : W)
      → cluster.records ≡ source ∷ rest
      → Screens (read_reply c cluster id model j w)
  unfolding read_reply
  read_reply-Screens id model none rest w e = λ r h. absurd (cc h)
  read_reply-Screens id model (some (Json.object d)) rest w e =
      Ends-if (λ out _. IsScreened c.hygiene source out) NoClaim (abstains d)
        (pure (no_rule (CriticReason.abstained (get_field "reason" d))))
        (read_payload c cluster id model d) w (λ _ r h. absurd (cc h))
        (λ _. read_payload-Screens id model d rest w e)
  read_reply-Screens id model (some _) rest w e = tt

  -- Whatever the critic answers: a rule that `synthesize` returns outside quarantine has, in its
  -- three texts, no literal that the filter finds, and no larger share of grams of the cluster's
  -- first failure, its request and the rejected answer, than the filter allows.
  pub synthesize-Screens :
      (id : String) (rest : List (FailureRecord F)) (w : W)
      → cluster.records ≡ source ∷ rest
      → Screens (synthesize c cluster id w)
  unfolding synthesize
  synthesize-Screens id rest w e =
      Ensures-after (λ out _. IsScreened c.hygiene source out) _ _ w
        (λ resp w'. read_reply-Screens id resp.model (c.runtime.loads resp.text) rest w' e)
