-- ===== src/Memory/Critic/Blind.antt =====
-- memory/critic.py, `_prompt`: what the critic is shown of the frontier's answers.
use smart_router.Prelude.{
  ℕ, zero, suc, ◌+◌, false, none, List, [], ◌∷◌, map, ◌≡◌, refl, take, length,
}
use smart_router.Schemas.Message.{Text}
use smart_router.Routing.World.{FailureRecord}
use smart_router.Memory.Gate.{FailureCluster, fingerprints, distinct_queries}
use smart_router.Memory.Critic.{Critic, corrected_lines, example_lines, critic_prompt}

module _ {F : Type 0} where
  -- a failure whose correction by the frontier is not known
  abbrev pub uncorrected : FailureRecord F → FailureRecord F
  uncorrected r = record r { frontier_output = none }

  take-uncorrected :
      (n : ℕ) (rs : List (FailureRecord F))
      → take n (map uncorrected rs) ≡ map uncorrected (take n rs)
  take-uncorrected zero rs = refl
  take-uncorrected (suc n) [] = refl
  take-uncorrected (suc n) (r ∷ rs) = let rest = take-uncorrected n rs in rw rest refl

  example_lines-uncorrected :
      (scrub : Text → Text) (i : ℕ) (rs : List (FailureRecord F))
      → example_lines scrub false i (map uncorrected rs) ≡ example_lines scrub false i rs
  unfolding example_lines corrected_lines
  example_lines-uncorrected scrub i [] = refl
  example_lines-uncorrected scrub i (r ∷ rs) =
      let rest = example_lines-uncorrected scrub (i + 1) rs in rw rest refl

  fingerprints-uncorrected :
      (rs : List (FailureRecord F)) → fingerprints (map uncorrected rs) ≡ fingerprints rs
  unfolding fingerprints
  fingerprints-uncorrected [] = refl
  fingerprints-uncorrected (r ∷ rs) = let rest = fingerprints-uncorrected rs in rw rest refl

  length-uncorrected : (rs : List (FailureRecord F)) → length (map uncorrected rs) ≡ length rs
  length-uncorrected [] = refl
  length-uncorrected (r ∷ rs) = let rest = length-uncorrected rs in rw rest refl

module _ {W F : Type 0} where
  -- Unless `leak_ground_truth` is set, the critic's prompt is the same as if the frontier had
  -- corrected none of the failures of the cluster: nothing of its answers is shown.
  pub critic_prompt-uncorrected :
      (c : Critic W F) (cluster : FailureCluster F)
      → c.leak_ground_truth ≡ false
      → critic_prompt c (record cluster { records = map uncorrected cluster.records })
        ≡ critic_prompt c cluster
  unfolding critic_prompt distinct_queries
  critic_prompt-uncorrected c cluster hidden =
      rw
        (
          hidden,
          take-uncorrected c.max_examples cluster.records,
          example_lines-uncorrected c.hygiene.patterns.scrub 1
              (take c.max_examples cluster.records),
          fingerprints-uncorrected cluster.records,
          length-uncorrected cluster.records,
        )
        refl
