-- ===== src/Verify/Timing.antt =====
-- `time.perf_counter()` in the verifiers: a reading at the start, and the milliseconds since.
use smart_router.Prelude.{Float}
use smart_router.Prelude.Exec.{Exec, pure, ◌>>=◌, ok}

-- a reading of the clock never raises
abbrev pub Clock : Type 0 → Type 0 → Type 0
Clock W F = W → F × W

module _ {W F : Type 0} where
  abbrev pub read : Clock W F → Exec W F
  read clock w = let r = clock w in (ok r.0, r.1)

module _ {W F : Type 0} ⦃f : Float F⦄ where
  -- `(time.perf_counter() - t0) * 1000`
  unfoldable pub elapsed_ms : Clock W F → F → Exec W F
  elapsed_ms clock t0 = do t ← read clock; pure (f.mul_f (f.sub_f t t0) (f.of_nat 1000))
