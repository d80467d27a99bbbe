-- ===== src/Harness/Checker/Tests.antt =====
-- A small session of a `Checker`.
use fpga_g_ptp.Base.{◌≡◌, refl, ◌↔◌, List, [], ◌∷◌, true, false, arith}
use fpga_g_ptp.Harness.Checker.{
  hex, asserted, summary, result, checker, report, Call, compares, asserts, fails, echoes, call,
  run,
}
use fpga_g_ptp.Harness.Checker.Laws.{failure_count, fail_lines, run_lem}

abbrev session : List Call
session = compares "reset" 5 5 hex ∷ echoes ∷ asserts "ready" true ∷ fails "timeout" ∷ []

session-report : report (run session (checker "csr")) ≡ (
  1,
  record {
    label = "csr";
    checks = 3;
    failures = 1;
    echo_passes = true;
    printed =
        asserted true "ready" ∷ asserted false "timeout" ∷ summary "csr" 3 1 ∷ result false ∷ [];
  },
)
unfolding report run call checker
session-report = refl

run_lem_example :
    let c = run session (checker "csr") in
    (c.checks ≡ 3)
    × (c.failures ≡ 1)
    × (fail_lines c.printed ≡ 1)
    × (((report c).0 ≡ 0) ↔ (failure_count session ≡ 0))
run_lem_example = run_lem "csr" session (omega arith)
