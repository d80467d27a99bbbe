-- ===== src/Harness/Checker/Laws.antt =====
-- What the counters and the printed lines of a `Checker` say of the calls made.
use Prim.Native.String.{String}
use fpga_g_ptp.Base.{
  ℕ, ◌+◌, ◌^◌, ◌≤◌, ◌<◌, ◌≡◌, ◌↔◌, Bool, true, false, List, [], ◌∷◌, arith, ◌==◌, if◌then◌else◌,
  u64, snoc, length,
}
use fpga_g_ptp.Harness.Checker.{
  Line, compared, asserted, Checker, checker, report, Call, compares, asserts, fails, echoes, call,
  run,
}

-- Whether a call is a check, and whether it passes.
abbrev pub counts : Call → ℕ
counts echoes = 0
counts _ = 1

abbrev pub passes : Call → Bool
passes (compares what got exp radix) = u64 got == u64 exp
passes (asserts what condition) = condition
passes (fails what) = false
passes echoes = true

abbrev pub check_count : List Call → ℕ
check_count [] = 0
check_count (x ∷ xs) = counts x + check_count xs

abbrev pub failure_count : List Call → ℕ
failure_count [] = 0
failure_count (x ∷ xs) = (if passes x then 0 else 1) + failure_count xs

abbrev pub is_failure : Line → ℕ
is_failure (compared ok what got exp radix) = if ok then 0 else 1
is_failure (asserted ok what) = if ok then 0 else 1
is_failure _ = 0

-- The lines that carry the token `[FAIL]`.
abbrev pub fail_lines : List Line → ℕ
fail_lines [] = 0
fail_lines (l ∷ ls) = is_failure l + fail_lines ls

fail_lines-snoc :
    (ls : List Line) (l : Line) → fail_lines (snoc ls l) ≡ fail_lines ls + is_failure l
fail_lines-snoc [] l = omega arith
fail_lines-snoc (x ∷ ls) l = omega (arith, fail_lines-snoc ls l)

-- One call moves the two counters and the failing lines by what the call is worth.
call-counts :
    (x : Call) (c : Checker)
    → c.checks + 1 < 2 ^ 64
    → c.failures + 1 < 2 ^ 64
    → ((call x c).checks ≡ c.checks + counts x)
      × ((call x c).failures ≡ c.failures + (if passes x then 0 else 1))
      × (fail_lines (call x c).printed ≡ fail_lines c.printed + (if passes x then 0 else 1))
unfolding call
call-counts (compares what got exp radix) c p q = ground (
  arith,
  fail_lines-snoc c.printed (compared (u64 got == u64 exp) what (u64 got) (u64 exp) radix),
)
call-counts (asserts what condition) c p q =
    ground (arith, fail_lines-snoc c.printed (asserted condition what))
call-counts (fails what) c p q = ground (arith, fail_lines-snoc c.printed (asserted false what))
call-counts echoes c p q = ground arith

failure-le-check : (xs : List Call) → failure_count xs ≤ check_count xs
failure-le-check [] = omega arith
failure-le-check (x ∷ xs) = grind (arith, failure-le-check xs)

check-le-length : (xs : List Call) → check_count xs ≤ length xs
check-le-length [] = omega arith
check-le-length (x ∷ xs) = grind (arith, check-le-length xs)

run_counts :
    (xs : List Call) (c : Checker)
    → c.checks + length xs < 2 ^ 64
    → c.failures ≤ c.checks
    → ((run xs c).checks ≡ c.checks + check_count xs)
      × ((run xs c).failures ≡ c.failures + failure_count xs)
      × (fail_lines (run xs c).printed ≡ fail_lines c.printed + failure_count xs)
unfolding run
run_counts [] c p q = omega arith
run_counts (x ∷ xs) c p q =
    let now = call-counts x c (omega arith) (omega arith) in
    let one = worth x in
    let later = run_counts xs (call x c) (omega arith) (omega arith) in omega arith
  where
    worth : (y : Call) → ((if passes y then 0 else 1) ≤ counts y) × (counts y ≤ 1)
    worth y = ground arith

-- Over any sequence of fewer than 2^64 calls on a new checker, `checks` is the number of comparisons,
-- assertions and recorded failures among them, `failures` is the number of those that did not pass,
-- as many lines with `[FAIL]` are printed whether or not passing checks are echoed, and the exit
-- status of `report` is 0 exactly when no call failed.
pub run_lem :
    (label : String) (xs : List Call)
    → length xs < 2 ^ 64
    → let c = run xs (checker label) in
      (c.checks ≡ check_count xs)
      × (c.failures ≡ failure_count xs)
      × (fail_lines c.printed ≡ failure_count xs)
      × (((report c).0 ≡ 0) ↔ (failure_count xs ≡ 0))
unfolding checker report
run_lem label xs h = ground (arith, run_counts xs (checker label))
