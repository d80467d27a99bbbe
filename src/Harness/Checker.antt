-- ===== src/Harness/Checker.antt =====
-- tb/common/verilator_harness.hpp, class `Checker`: every method, with what it prints as a line.
pub mod Laws
mod Tests
use Prim.Native.String.{String}
use fpga_g_ptp.Base.{
  ℕ, ◌+◌, ◌%◌, ◌^◌, Bool, true, false, not, ◌||◌, List, [], ◌∷◌, ◌==◌, if◌then◌else◌, u64, snoc,
}

pub data Radix : Type 0 where
  hex dec : Radix

-- What goes to standard output. `ok` is the verdict " ok " and its absence "FAIL".
pub data Line : Type 0 where
  compared : (ok : Bool) → String → (got exp : ℕ) → Radix → Line
  asserted : (ok : Bool) → String → Line
  summary : String → (checks failures : ℕ) → Line
  result : (passed : Bool) → Line

pub record Checker : Type 0 where
  pub label : String
  pub checks : ℕ
  pub failures : ℕ
  pub echo_passes : Bool
  pub printed : List Line

-- The constructor. `nullptr` is the empty label.
unfoldable pub checker : String → Checker
checker label = record {
  label = label;
  checks = 0;
  failures = 0;
  echo_passes = false;
  printed = [];
}

unfoldable pub echo_passes : Checker → Checker
echo_passes c = record c { echo_passes = true }

-- `record`, which `hex` and `dec` call.
unfoldable pub record_check : String → ℕ → ℕ → Radix → Checker → Bool × Checker
record_check what got exp radix c =
    let ok = u64 got == u64 exp in
    (
      ok,
      record c {
        checks = u64 (c.checks + 1);
        failures = if ok then c.failures else u64 (c.failures + 1);
        printed =
            if not ok || c.echo_passes
            then snoc c.printed (compared ok what (u64 got) (u64 exp) radix)
            else c.printed;
      },
    )

unfoldable pub that : String → Bool → Checker → Bool × Checker
that what condition c = (
  condition,
  record c {
    checks = u64 (c.checks + 1);
    failures = if condition then c.failures else u64 (c.failures + 1);
    printed =
        if not condition || c.echo_passes
        then snoc c.printed (asserted condition what)
        else c.printed;
  },
)

unfoldable pub fail : String → Checker → Checker
fail what c = record c {
  checks = u64 (c.checks + 1);
  failures = u64 (c.failures + 1);
  printed = snoc c.printed (asserted false what);
}

unfoldable pub passed : Checker → Bool
passed c = c.failures == 0

-- The exit status, and the two lines printed.
unfoldable pub report : Checker → ℕ × Checker
unfolding passed
report c = (
  (if passed c then 0 else 1),
  record c {
    printed = snoc (snoc c.printed (summary c.label c.checks c.failures)) (result (passed c));
  },
)

-- The calls that a harness makes of its checker.
pub data Call : Type 0 where
  compares : String → (got exp : ℕ) → Radix → Call
  asserts : String → Bool → Call
  fails : String → Call
  echoes : Call

unfoldable pub call : Call → Checker → Checker
unfolding record_check that fail echo_passes
call (compares what got exp radix) c = (record_check what got exp radix c).1
call (asserts what condition) c = (that what condition c).1
call (fails what) c = fail what c
call echoes c = echo_passes c

unfoldable pub run : List Call → Checker → Checker
run [] c = c
run (x ∷ xs) c = run xs (call x c)
