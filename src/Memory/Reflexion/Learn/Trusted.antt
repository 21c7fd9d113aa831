-- ===== src/Memory/Reflexion/Learn/Trusted.antt =====
-- memory/reflexion.py, `Reflexion.learn`: which rules are served once it has returned, and which
-- failures are left.
use smart_router.Prelude.{
  Bool, true, false, not, Option, none, some, List, [], ◌∷◌, String, ◌≡◌, ◌⊎◌, ◌∙◌, refl, ap, inl,
  inr, Float, All, filter_by, Bool-cases, ltb, length, ◌-◌,
}
use smart_router.Prelude.Dict.{values}
use smart_router.Prelude.Exec.{
  Exec, Result, ok, raised, Ends, Ensures, Ends-bind, Ends-if, NoClaim, ◌>>=◌,
}
use smart_router.Schemas.Rule.{RouterRule, global_scope}
use smart_router.Routing.World.{FailureRecord}
use smart_router.Memory.Lifecycle.{LifecyclePolicy}
use smart_router.Memory.Store
use smart_router.Memory.Store.{RuleStore}
use smart_router.Memory.Failures
use smart_router.Memory.Failures.{LogFile, FailureLog, is_left, note_write, write, rewrite_file}
use smart_router.Memory.Vectors.{Ranking}
use smart_router.Memory.Clusters.{cluster_failures}
use smart_router.Memory.Learning.{LoopWorld, run_loop}
use smart_router.Memory.Learning.Fair.{WasKept, HasEarned, IsFair, Holds}
use smart_router.Memory.Learning.Served.{run_loop-Holds}
use smart_router.Memory.Reflexion.{Serving, refresh}
use smart_router.Memory.Reflexion.Isolation.{IsFor, global-IsFor, promoted-IsFor}
use smart_router.Memory.Reflexion.Tenants.{Isolates, refresh-Isolates}
use smart_router.Memory.Reflexion.Learn.{
  Reflected, Learner, on_store, consume, replace_serving, serve, with_golden, distil, learn,
}

All-filter :
    {A : Type 0} (P : A → Type 0) (t : A → Bool) (xs : List A) → All P xs → All P (filter_by t xs)
All-filter P t [] h = tt
All-filter P t (x ∷ xs) h = elim (Bool-cases (t x)) [
  | inl kept ↦ rw kept (h.0, All-filter P t xs h.1)
  | inr dropped ↦ rw dropped (All-filter P t xs h.1)
]

All-both :
    {A : Type 0} (P Q R : A → Type 0) (xs : List A)
    → ((a : A) → P a → Q a → R a)
    → All P xs
    → All Q xs
    → All R xs
All-both P Q R [] k h g = tt
All-both P Q R (x ∷ xs) k h g = (k x h.0 g.0, All-both P Q R xs k h.1 g.1)

module _ {F : Type 0} ⦃f : Float F⦄ (p : LifecyclePolicy F) (live : String)
    (start : List (RouterRule F)) where
  -- a rule for a tenant that was there before with no evidence of another model, or has earned it
  abbrev pub IsTrusted : String → RouterRule F → Type 0
  IsTrusted tenant r = IsFor tenant r × (WasKept p live start r ⊎ HasEarned p live start r)

  global-IsTrusted :
      (tenant : String) (r : RouterRule F) → IsTrusted global_scope r → IsTrusted tenant r
  global-IsTrusted tenant r h = (global-IsFor tenant r h.0, h.1)

  promoted-IsTrusted :
      (s : RuleStore F)
      → Holds p live start s
      → (tenant : String) → All (IsTrusted tenant) (Store.promoted (some tenant) s)
  unfolding Store.promoted
  promoted-IsTrusted s h tenant =
      let rules = Store.promoted (some tenant) s in
      All-both (IsFor tenant) (IsFair p live start) (IsTrusted tenant) rules
        (λ r own fair. (own, fair own.state)) (promoted-IsFor tenant s)
        (All-filter (IsFair p live start) _ (values s.rules) h.fair)

module _ {F : Type 0} where
  filter_by_none : (rs : List (FailureRecord F)) → rs ≡ filter_by (is_left []) rs
  filter_by_none [] = refl
  filter_by_none (r ∷ rs) = ap (◌∷◌ r) (filter_by_none rs)

module _ {D F : Type 0} where
  note_write-records : (r : Bool × D) (l : FailureLog D F) → (note_write r l).records ≡ l.records
  unfolding note_write
  note_write-records (true, d) l = refl
  note_write-records (false, d) l = refl

  write-records :
      (w : D → Bool × D) (o : Option D) (l : FailureLog D F) → (write w o l).records ≡ l.records
  unfolding write
  write-records w none l = refl
  write-records w (some d) l = note_write-records (w d) l

  -- what is left is what was not named
  remove-records :
      (disk : LogFile D F) (ids : List String) (l : FailureLog D F)
      → (Failures.remove disk ids l).1.records ≡ filter_by (is_left ids) l.records
  unfolding Failures.remove rewrite_file
  remove-records disk [] l = filter_by_none l.records
  remove-records disk (i ∷ ids) l =
      let left = filter_by (is_left (i ∷ ids)) l.records in
      elim (Bool-cases (ltb 0 (length l.records - length left))) [
        | inl some_left ↦
            rw some_left (write-records (disk.rewrite left) l.file (record l { records = left }))
        | inr all_left ↦ rw all_left refl
      ]

module _ {W D G F : Type 0} ⦃f : Float F⦄ where
  on_store-Ensures :
      {A : Type 0} (P : RuleStore F → Type 0) (m : Exec (LoopWorld W F) A) (s : Reflected W D G F)
      → Ends
          (λ _ w. P w.store)
          (λ w. P w.store)
          (m (record { store = s.store; outside = s.outside }))
      → Ensures (λ _ s'. P s'.store × (s'.log ≡ s.log)) (on_store m s)
  unfolding on_store
  on_store-Ensures {A} P m s h = lifted (m (record { store = s.store; outside = s.outside })) h
    where
      lifted :
          (r : Result A × LoopWorld W F)
          → Ends (λ _ w. P w.store) (λ w. P w.store) r
          → Ensures
              (λ _ s'. P s'.store × (s'.log ≡ s.log))
              (r.0, record s { store = r.1.store; outside = r.1.outside })
      lifted (ok a, w) k = (k, refl)
      lifted (raised x, w) k = tt

  replaced-Ensures :
      (Q : Serving F → Type 0) (s : Reflected W D G F) (r : Result (Serving F) × W)
      → Ensures (λ x _. Q x) r
      → Ensures (λ _ s'. Q s'.serving × (s'.log ≡ s.log)) (replace_serving s r)
  unfolding replace_serving
  replaced-Ensures Q s (ok x, o) h = (h, refl)
  replaced-Ensures Q s (raised x, o) h = tt

  -- After `learn` has returned, whatever the models and the embedder answer: each rule that is
  -- retrieved for a tenant, by any query, is promoted, is the tenant's own or one for every tenant, and
  -- either was in the store before, as it is, with no evidence of another model than the live one, or
  -- was validated against the live model, does not misfire and has earned its promotion. And the log
  -- holds the failures that it held before, in their order, without those whose identifiers the
  -- report names as consumed.
  pub learn-IsTrusted :
      (n : Ranking F) (l : Learner W D F) (live : String) (tenant : Option String)
      (s : Reflected W D G F)
      → Ensures
          (λ summary s'.
            Isolates (IsTrusted s.store.policy live (values s.store.rules)) n l.config s'.serving
            × (s'.log.records
                ≡ filter_by (is_left summary.loop.consumed_request_ids) s.log.records))
          (learn l live tenant s)
  unfolding learn distil consume serve ◌>>=◌
  learn-IsTrusted n l live tenant s =
      let p = s.store.policy in
      let start = values s.store.rules in
      let kept = Holds p live start in
      let trusted = Isolates (IsTrusted p live start) n l.config in
      let clusters = cluster_failures l.geometry l.similarity_threshold tenant s.log.records in
      let loop = with_golden l tenant s in
      Ends-if
        (λ summary s'.
          trusted s'.serving
          × (s'.log.records ≡ filter_by (is_left summary.loop.consumed_request_ids) s.log.records))
        NoClaim (not l.enabled) _ _ s (λ _. tt)
        (λ _.
          Ends-bind (λ _ s1. kept s1.store × (s1.log ≡ s.log)) _ NoClaim (distil l live tenant s) _
            s
            (on_store-Ensures kept (run_loop loop live clusters) s
              (run_loop-Holds loop live clusters (record { store = s.store; outside = s.outside })))
            (λ report s1 h1.
              let ids = report.consumed_request_ids in
              let s2 : Reflected W D G F = record s1 {
                log = (Failures.remove l.disk ids s1.log).1;
              } in
              let left : s2.log.records ≡ filter_by (is_left ids) s.log.records =
                remove-records l.disk ids s1.log
                ∙ ap (λ g. filter_by (is_left ids) g.records) h1.1 in
              Ends-bind (λ _ s3. trusted s3.serving × (s3.log ≡ s2.log)) _ NoClaim
                (serve l.config l.embedder) _ s2
                (replaced-Ensures trusted s2 (refresh l.config l.embedder s2.store s2.outside) (
                  refresh-Isolates (IsTrusted p live start) n l.config l.embedder s2.store
                    s2.outside (global-IsTrusted p live start)
                    (promoted-IsTrusted p live start s2.store h1.0)))
                (λ serving s3 h3. (h3.0, ap (λ g. g.records) h3.1 ∙ left))))
