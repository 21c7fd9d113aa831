-- ===== src/Memory/Store.antt =====
-- memory/store.py: the rule store. The file at `path` is taken as what `json.loads` and pydantic make of
-- it; that they give back what was written, and that a write succeeds, is taken for granted.
pub mod Evidence
pub mod Service
pub mod Withdrawal
pub mod Index
pub mod Indexed
use Prim.Native.Nat.{max}
use smart_router.Prelude.{
  ℕ, suc, ◌+◌, Bool, true, false, not, ◌&&◌, ◌||◌, Option, none, some, List, [], ◌∷◌, String, ◌==◌,
  Float, filter_by, if◌then◌else◌,
}
use smart_router.Prelude.Dict.{Dict, get, put, values, string_eq}
use smart_router.Prelude.Strings.{strip, lower, text_eq}
use smart_router.Schemas.Message.{Text, Message}
use smart_router.Schemas.Rule.{
  RouterRule, RuleState, shadow, retired, global_scope, is_servable, state_eq,
}
use smart_router.Memory.Lifecycle.{
  LifecyclePolicy, LabelBiasEstimate, TransitionReason, score, evaluate,
}

-- What a file is read as: not a store, by `JSONDecodeError`, `KeyError` or `ValueError`, or the count
-- and the rules.
pub data StoreFile (F : Type 0) : Type 0 where
  corrupted : StoreFile F
  saved : ℕ → List (RouterRule F) → StoreFile F

-- `has_path` says whether the store has a file; `file` is what the file holds.
pub record RuleStore (F : Type 0) : Type 0 where
  pub has_path : Bool
  pub file : Option (StoreFile F)
  pub policy : LifecyclePolicy F
  pub rules : Dict String (RouterRule F)
  pub issued : ℕ

-- `tenant_id is None or r.tenant_id in (tenant_id, "GLOBAL")`
unfoldable pub in_scope : Option String → String → Bool
in_scope none t = true
in_scope (some tenant) t = (t == tenant) || (t == global_scope)

module _ {F : Type 0} where
  unfoldable pub save : RuleStore F → RuleStore F
  save s =
      if s.has_path then record s { file = some (StoreFile.saved s.issued (values s.rules)) } else s

  -- a dictionary comprehension keyed by `rule_id`
  unfoldable pub index_rules :
      List (RouterRule F) → Dict String (RouterRule F) → Dict String (RouterRule F)
  index_rules [] d = d
  index_rules (r ∷ rs) d = index_rules rs (put r.rule_id r d)

  -- a corrupted file leaves no memory
  abbrev pub read_file : StoreFile F → RuleStore F → RuleStore F
  read_file StoreFile.corrupted s = record s { rules = []; issued = 0 }
  read_file (StoreFile.saved issued rules) s = record s {
    issued = issued;
    rules = index_rules rules [];
  }

  -- `load`, of the file at the path if there is one
  unfoldable pub load : RuleStore F → RuleStore F
  unfolding index_rules
  load s = elim s.file [ none ↦ s | some file ↦ if s.has_path then read_file file s else s ]

  -- `RuleStore(path, policy)` over a file that is there or not
  unfoldable pub start : Bool → Option (StoreFile F) → LifecyclePolicy F → RuleStore F
  unfolding load
  start has_path file policy =
      load (record { has_path = has_path; file = file; policy = policy; rules = []; issued = 0 })

  -- `format` is `f"RULE-{n:03d}"`
  unfoldable pub next_rule_id : (ℕ → String) → RuleStore F → RuleStore F × String
  next_rule_id format s = (record s { issued = s.issued + 1 }, format (s.issued + 1))

  -- the same tenant, and the same trigger but for blanks at its ends and case
  unfoldable pub same_trigger : RouterRule F → RouterRule F → Bool
  unfolding strip lower
  same_trigger a b =
      (a.tenant_id == b.tenant_id)
      && text_eq (lower (strip a.trigger_condition)) (lower (strip b.trigger_condition))

  unfoldable pub find_same : RouterRule F → List (RouterRule F) → Option (RouterRule F)
  unfolding same_trigger
  find_same r [] = none
  find_same r (x ∷ xs) = let rest = find_same r xs in if same_trigger x r then some x else rest

  -- the new rule under the old identifier, with the larger counts
  unfoldable pub merge : RouterRule F → RouterRule F → RouterRule F
  merge old r = record r {
    rule_id = old.rule_id;
    application_count = max r.application_count old.application_count;
    success_count = max r.success_count old.success_count;
    false_trigger_count = max r.false_trigger_count old.false_trigger_count;
  }

  unfoldable pub to_store : RouterRule F → List (RouterRule F) → RouterRule F
  unfolding find_same merge
  to_store r rs = elim (find_same r rs) [ none ↦ r | some old ↦ merge old r ]

  unfoldable pub add : RouterRule F → RuleStore F → RuleStore F × RouterRule F
  unfolding to_store save
  add r s =
      let r' = to_store r (values s.rules) in
      (save (record s { rules = put r'.rule_id r' s.rules }), r')

  unfoldable pub promoted : Option String → RuleStore F → List (RouterRule F)
  unfolding in_scope
  promoted tenant s = filter_by (λ r. is_servable r && in_scope tenant r.tenant_id) (values s.rules)

  unfoldable pub count_outcome : Bool → Bool → RouterRule F → RouterRule F
  count_outcome succeeded false r = record r { false_trigger_count = r.false_trigger_count + 1 }
  count_outcome succeeded true r = record r {
    application_count = r.application_count + 1;
    success_count = if succeeded then r.success_count + 1 else r.success_count;
  }

  -- each rule through a function, in place
  unfoldable pub map_rules :
      (RouterRule F → RouterRule F) → Dict String (RouterRule F) → Dict String (RouterRule F)
  map_rules g [] = []
  map_rules g ((k, r) ∷ d) = (k, g r) ∷ map_rules g d

  -- `invalidate_for_model`: evidence of another model than the live one
  unfoldable pub is_stale : String → RouterRule F → Bool
  is_stale live r =
      is_servable r && elim r.validated_against_model [ none ↦ false | some m ↦ not (m == live) ]

  unfoldable pub demote_stale : String → RouterRule F → RouterRule F
  unfolding is_stale
  demote_stale live r = if is_stale live r then record r { state = shadow } else r

  unfoldable pub stale_ids : String → List (RouterRule F) → List String
  unfolding is_stale
  stale_ids live [] = []
  stale_ids live (r ∷ rs) =
      let rest = stale_ids live rs in if is_stale live r then r.rule_id ∷ rest else rest

  -- `save` only if something changed
  unfoldable pub save_if {ℓ} : {A : Type ℓ} → List A → RuleStore F → RuleStore F
  unfolding save
  save_if [] s = s
  save_if (_ ∷ _) s = save s

  unfoldable pub invalidate_for_model : String → RuleStore F → RuleStore F × List String
  unfolding map_rules demote_stale stale_ids save_if
  invalidate_for_model live s =
      let demoted = stale_ids live (values s.rules) in
      (save_if demoted (record s { rules = map_rules (demote_stale live) s.rules }), demoted)

  unfoldable pub retire : Message F → RouterRule F → RouterRule F
  retire reason r = record r { state = retired; quarantine_reason = some reason }

  unfoldable pub pull : String → Message F → RuleStore F → RuleStore F
  unfolding retire save
  pull id reason s = elim (get id s.rules) [
    | none ↦ s
    | some r ↦ save (record s { rules = put id (retire reason r) s.rules })
  ]

module _ {F : Type 0} ⦃f : Float F⦄ where
  unfoldable pub record_outcome : String → Bool → Bool → RuleStore F → RuleStore F
  unfolding count_outcome save
  record_outcome id succeeded triggered s = elim (get id s.rules) [
    | none ↦ s
    | some r ↦
        let r' = count_outcome succeeded triggered r in
        save (record s {
          rules = put id (record r' { wilson_lower_bound = score s.policy r' none }) s.rules;
        })
  ]

  unfoldable pub settle : LifecyclePolicy F → Option LabelBiasEstimate → RouterRule F → RouterRule F
  settle p b r = record r { state = (evaluate p r b).0 }

  -- the transitions that change a state
  unfoldable pub changes :
      LifecyclePolicy F
      → Option LabelBiasEstimate
      → List (RouterRule F)
      → List (String × RuleState × TransitionReason F)
  changes p b [] = []
  changes p b (r ∷ rs) =
      let rest = changes p b rs in
      let t = evaluate p r b in if state_eq t.0 r.state then rest else (r.rule_id, t.0, t.1) ∷ rest

  unfoldable pub reconcile :
      Option LabelBiasEstimate
      → RuleStore F
      → RuleStore F × List (String × RuleState × TransitionReason F)
  unfolding settle changes map_rules save_if
  reconcile b s =
      let moved = changes s.policy b (values s.rules) in
      (save_if moved (record s { rules = map_rules (settle s.policy b) s.rules }), moved)
