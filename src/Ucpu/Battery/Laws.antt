-- ===== src/Ucpu/Battery/Laws.antt =====
-- The verdict of the battery, for every behaviour of the Verilated core.
pub mod Ready
use fpga_g_ptp.Base.{
  ℕ, zero, suc, ◌+◌, ◌*◌, ◌≤◌, ◌≡◌, refl, ap, ◌∙◌, ◌↔◌, Bool, true, false, ◌&&◌, List, [], ◌∷◌,
  ◌==◌, if◌then◌else◌, ltb, leb, arith, length, length-set, get_or, repeat, repeat_inv, for_range,
  min, Bool-cases, inl, inr, if_cases, bit_and, ◌>>>◌,
}
use fpga_g_ptp.Harness.Verilated.{Verilated}
use fpga_g_ptp.Harness.Tally.{Tally, grade, exit_status, exit_status_iff}
use fpga_g_ptp.Ucpu.Operands.{Operands, operands_for_run}
use fpga_g_ptp.Ucpu.Model.{expected}
use fpga_g_ptp.Ucpu.Battery.{
  UcpuIn, UcpuOut, Recorder, cleared, record_write, Battery, expect, compare_from,
  compare_scratch_against_the_model, battery, tick, release_the_core_from_reset, cycle_timeout,
  await_ready, start_dispatch, end_dispatch, dispatch_the_battery, run_once, runs, run,
  max_fail_reports, scratch_words,
}

-- No more failures are printed than there are, nor than the cap.
abbrev pub ReportsWithin : {S : Type 0} → Battery S → Type 0
ReportsWithin b = b.printed ≤ min b.tally.fails max_fail_reports

-- From `b` to `c`: exactly `k` checks, at most `m` failures, and the reports within their bounds.
pub record Graded {S : Type 0} (k m : ℕ) (b c : Battery S) : Type 0 where
  pub checks : c.tally.checks ≡ b.tally.checks + k
  pub some_fails : b.tally.fails ≤ c.tally.fails
  pub most_fails : c.tally.fails ≤ b.tally.fails + m
  pub reports : ReportsWithin b → ReportsWithin c

pub Graded-same :
    {S : Type 0} (b c : Battery S) → c.tally ≡ b.tally → c.printed ≡ b.printed → Graded 0 0 b c
Graded-same b c t p = record {
  checks = omega (arith, ap (λ (x : Tally). x.checks) t);
  some_fails = omega (arith, ap (λ (x : Tally). x.fails) t);
  most_fails = omega (arith, ap (λ (x : Tally). x.fails) t);
  reports = λ h. omega (arith, p, h, ap (λ (x : Tally). x.fails) t);
}

pub Graded-then :
    {S : Type 0} {k m k' m' : ℕ} (b c d : Battery S)
    → Graded k m b c
    → Graded k' m' c d
    → Graded (k + k') (m + m') b d
Graded-then b c d g h = record {
  checks = omega (arith, g.checks, h.checks);
  some_fails = omega (arith, g.some_fails, h.some_fails);
  most_fails = omega (arith, g.most_fails, h.most_fails);
  reports = λ r. h.reports (g.reports r);
}

pub Graded-as :
    {S : Type 0} {k m k' m' : ℕ} {b c : Battery S}
    → Graded k m b c
    → k ≡ k'
    → m ≤ m'
    → Graded k' m' b c
Graded-as g h le = record {
  checks = omega (arith, g.checks);
  some_fails = g.some_fails;
  most_fails = omega (arith, g.most_fails);
  reports = g.reports;
}

slack : {S : Type 0} (b : Battery S) → Graded 0 1 b b
slack b = Graded-as (Graded-same b b refl refl) refl (omega arith)

expect-Graded :
    {S : Type 0} (got exp : ℕ) (seen : Bool) (b : Battery S) → Graded 1 1 b (expect got exp seen b)
unfolding expect grade
expect-Graded got exp seen b = record {
  checks = refl;
  some_fails = ground arith;
  most_fails = ground arith;
  reports = λ h. ground arith;
}

compare_from-Graded :
    {S : Type 0} (es : List ℕ) (i : ℕ) (b : Battery S)
    → Graded (length es) (length es) b (compare_from i es b)
unfolding compare_from
compare_from-Graded [] i b = Graded-same b b refl refl
compare_from-Graded (e ∷ es) i b =
    let one = expect-Graded (get_or b.rec.scratch i 0) e (get_or b.rec.seen i false) b in
    Graded-as (Graded-then b _ _ one (compare_from-Graded es (i + 1) _)) (omega arith) (omega arith)

-- The words recorded from `i` on are written, and are the expected ones.
abbrev pub matches : (i : ℕ) → List ℕ → Recorder → Bool
matches i [] rec = true
matches i (e ∷ es) rec =
    (get_or rec.seen i false && get_or rec.scratch i 0 == e) && matches (i + 1) es rec

expect_fails :
    {S : Type 0} (got exp : ℕ) (seen : Bool) (b : Battery S)
    → ((expect got exp seen b).rec ≡ b.rec)
      × ((expect got exp seen b).tally.fails
          ≡ (if seen && got == exp then b.tally.fails else b.tally.fails + 1))
unfolding expect grade
expect_fails got exp seen b = (refl, refl)

compare_from_iff :
    {S : Type 0} (es : List ℕ) (i : ℕ) (b : Battery S)
    → ((compare_from i es b).tally.fails ≡ b.tally.fails) ↔ (matches i es b.rec ≡ true)
unfolding compare_from
compare_from_iff [] i b = ground arith
compare_from_iff (e ∷ es) i b =
    let one = expect_fails (get_or b.rec.scratch i 0) e (get_or b.rec.seen i false) b in
    let next = expect (get_or b.rec.scratch i 0) e (get_or b.rec.seen i false) b in
    let rest = compare_from_iff es (i + 1) next in
    let same = ap (λ (r : Recorder). matches (i + 1) es r) one.0 in
    let grows = (compare_from-Graded es (i + 1) next).some_fails in
    ground (arith, one.1, rest, same, grows)

twelve_results : (ops : Operands) → length (expected ops) ≡ 12
unfolding expected
twelve_results ops = refl

-- The comparison of a run makes twelve checks, fails none of them exactly when the core has written each of the twelve scratch
-- words and with the value of the model, and never prints more failures than there are, nor than twenty.
pub compare_scratch_against_the_model_lem :
    {S : Type 0} (ops : Operands) (b : Battery S)
    → b.printed ≤ min b.tally.fails max_fail_reports
    → let c = compare_scratch_against_the_model ops b in
      (c.tally.checks ≡ b.tally.checks + 12)
      × ((c.tally.fails ≡ b.tally.fails) ↔ (matches 0 (expected ops) b.rec ≡ true))
      × (c.printed ≤ min c.tally.fails max_fail_reports)
unfolding compare_scratch_against_the_model
compare_scratch_against_the_model_lem ops b h =
    let g = compare_from-Graded (expected ops) 0 b in
    (omega (arith, g.checks, twelve_results ops), compare_from_iff (expected ops) 0 b, g.reports h)

module _ (V : Verilated UcpuIn UcpuOut) where
  tick-Graded : (b : Battery V.State) → Graded 0 0 b (tick V b)
  unfolding tick
  tick-Graded b = Graded-same b _ refl refl

  -- The turn of the wait that gives up.
  timed_out : Battery V.State → Battery V.State
  timed_out c = record c { tally = record { checks = c.tally.checks; fails = c.tally.fails + 1 } }

  timed_out-Graded : (b : Battery V.State) → Graded 0 1 b (timed_out b)
  unfolding timed_out
  timed_out-Graded b = record {
    checks = omega arith;
    some_fails = omega arith;
    most_fails = omega arith;
    reports = λ h. omega (arith, h);
  }

  waited : Battery V.State → Battery V.State
  unfolding tick
  waited b = tick V (record b { ports = record b.ports { disp_valid_i = false } })

  waited-Graded : (b : Battery V.State) → Graded 0 0 b (waited b)
  unfolding waited
  waited-Graded b = Graded-same b _ refl refl

  await_ready-Graded : (fuel : ℕ) (b : Battery V.State) → Graded 0 1 b (await_ready V fuel b)
  unfolding await_ready timed_out waited
  await_ready-Graded zero b = slack b
  await_ready-Graded (suc fuel) b =
      elim (V.out b.dut).disp_ready_o
        as (λ ready. Graded 0 1 b (elim ready [
          | true ↦ b
          | false ↦ elim (ltb cycle_timeout (waited b).cyc) [
            | true ↦ timed_out (waited b)
            | false ↦ await_ready V fuel (waited b)
          ]
        ])) [
          | true ↦ slack b
          | false ↦
              elim (ltb cycle_timeout (waited b).cyc)
                as (λ late. Graded 0 1 b (elim late [
                  | true ↦ timed_out (waited b)
                  | false ↦ await_ready V fuel (waited b)
                ])) [
                  | true ↦ Graded-then b _ _ (waited-Graded b) (timed_out-Graded (waited b))
                  | false ↦ Graded-then b _ _ (waited-Graded b) (await_ready-Graded fuel (waited b))
                ]
        ]

  start_dispatch-Graded :
      (ops : Operands) (b : Battery V.State) → Graded 0 0 b (start_dispatch V ops b)
  unfolding start_dispatch tick
  start_dispatch-Graded ops b = Graded-same b _ refl refl

  end_dispatch-Graded : (b : Battery V.State) → Graded 0 0 b (end_dispatch V b)
  unfolding end_dispatch
  end_dispatch-Graded b = Graded-same b _ refl refl

  battery_start :
      ((battery V).tally.checks ≡ 0) × ((battery V).tally.fails ≡ 0) × ((battery V).printed ≡ 0)
  unfolding battery
  battery_start = (refl, refl, refl)

  dispatch_the_battery-Graded :
      (ops : Operands) (b : Battery V.State) → Graded 0 1 b (dispatch_the_battery V ops b)
  unfolding dispatch_the_battery
  dispatch_the_battery-Graded ops b =
      let s = start_dispatch V ops b in
      let w = await_ready V (cycle_timeout + 1) s in
      Graded-then b s _ (start_dispatch-Graded ops b)
        (Graded-then s w _ (await_ready-Graded (cycle_timeout + 1) s) (end_dispatch-Graded w))

  compare-Graded :
      (ops : Operands) (b : Battery V.State)
      → Graded 12 12 b (compare_scratch_against_the_model ops b)
  unfolding compare_scratch_against_the_model
  compare-Graded ops b =
      let n = twelve_results ops in
      Graded-as (compare_from-Graded (expected ops) 0 b) n (omega arith)

  run_once-Graded : (n : ℕ) (b : Battery V.State) → Graded 12 13 b (run_once V n b)
  unfolding run_once
  run_once-Graded n b =
      let next = operands_for_run n b.xs_state in
      let c = record b { xs_state = next.1 } in
      let d = dispatch_the_battery V next.0 c in
      Graded-then b c _ (Graded-same b c refl refl)
        (Graded-then c d _ (dispatch_the_battery-Graded next.0 c) (compare-Graded next.0 d))

  loop-Graded :
      (n i : ℕ) (b : Battery V.State) → Graded (12 * n) (13 * n) b (for_range n i (run_once V) b)
  unfolding for_range
  loop-Graded zero i b = Graded-same b b refl refl
  loop-Graded (suc n) i b =
      Graded-as (Graded-then b _ _ (run_once-Graded i b) (loop-Graded n (i + 1) (run_once V i b)))
        (omega arith) (omega arith)

  repeat-Graded : (n : ℕ) (b : Battery V.State) → Graded 0 0 b (repeat n (tick V) b)
  repeat-Graded n b =
      repeat_inv (Graded 0 0 b) (tick V) (λ c g. Graded-then b c _ g (tick-Graded c)) n b
        (Graded-same b b refl refl)

  release-Graded : (b : Battery V.State) → Graded 0 0 b (release_the_core_from_reset V b)
  unfolding release_the_core_from_reset
  release-Graded b =
      let held : Battery V.State = record b {
        ports = record b.ports {
          rst_n = false;
          disp_valid_i = false;
          st_ready_i = true;
          st_rvalid_i = false;
          st_rdata_i = 0;
          st_err_i = false;
          gx_valid_i = false;
          gx_data_i = 0;
          lock_held_i = false;
          lock_ctlr_i = false;
          rb_ready_i = true;
          tx_ready_i = true;
        };
      } in
      let c = repeat 8 (tick V) held in
      let d : Battery V.State = record c { ports = record c.ports { rst_n = true } } in
      Graded-then b c _ (Graded-then b held c (Graded-same b held refl refl) (repeat-Graded 8 held))
        (Graded-then c d _ (Graded-same c d refl refl) (repeat-Graded 4 d))

  -- Whatever the core does, the battery returns after 768 checks: it fails at most twelve comparisons and one time limit in each of the 64
  -- runs, prints no more failures than there are nor than twenty, and its exit status is 0 exactly when
  -- nothing failed.
  pub battery_run_lem :
      let c = (run V (battery V)).1 in
      (c.tally.checks ≡ 768)
      × (c.tally.fails ≤ 832)
      × (c.printed ≤ min c.tally.fails max_fail_reports)
      × (((run V (battery V)).0 ≡ 0) ↔ (c.tally.fails ≡ 0))
  unfolding run
  battery_run_lem =
      let b = battery V in
      let start = battery_start in
      let r = release_the_core_from_reset V b in
      let whole = Graded-then b r _ (release-Graded b) (loop-Graded runs 0 r) in
      (
        omega (arith, whole.checks, start.0),
        omega (arith, whole.most_fails, start.1),
        whole.reports (omega (arith, start.1, start.2)),
        exit_status_iff _,
      )
