-- ===== src/Harness/Tally.antt =====
-- The two counters, `checks` and `fails`, that a harness without a `Checker` keeps.
use fpga_g_ptp.Base.{ℕ, ◌+◌, ◌≤◌, ◌≡◌, ◌↔◌, Bool, true, false, arith, if◌then◌else◌, ◌==◌}

pub record Tally : Type 0 where
  pub checks : ℕ
  pub fails : ℕ

abbrev pub no_checks : Tally
no_checks = record { checks = 0; fails = 0 }

-- One graded comparison.
unfoldable pub grade : Bool → Tally → Tally
grade ok t = record t { checks = t.checks + 1; fails = if ok then t.fails else t.fails + 1 }

-- `expect(what, got, exp)`
unfoldable pub expect_eq : ℕ → ℕ → Tally → Tally
unfolding grade
expect_eq got exp t = grade (got == exp) t

-- `return fails ? 1 : 0;`
unfoldable pub exit_status : Tally → ℕ
exit_status t = if t.fails == 0 then 0 else 1

pub grade_counts :
    (ok : Bool) (t : Tally)
    → ((grade ok t).checks ≡ t.checks + 1)
      × (t.fails ≤ (grade ok t).fails)
      × ((grade ok t).fails ≤ t.fails + 1)
unfolding grade
grade_counts ok t = ground arith

pub grade_passes : (ok : Bool) (t : Tally) → (grade ok t).fails ≡ 0 → (ok ≡ true) × (t.fails ≡ 0)
unfolding grade
grade_passes true t e = ground arith
grade_passes false t e = ground arith

pub exit_status_iff : (t : Tally) → (exit_status t ≡ 0) ↔ (t.fails ≡ 0)
unfolding exit_status
exit_status_iff t = ground arith
