-- ===== src/Engine/Phc/Laws.antt =====
-- The hardware clock between steps, and its records.
use fpga_g_ptp.Base.{
  ℕ, ◌+◌, ◌≡◌, Bool, List, [], ◌∷◌, arith, if◌then◌else◌, snoc, length, length-snoc, if_cases, u64,
}
use fpga_g_ptp.Base.Int.{ℤ, to_i32}
use fpga_g_ptp.Engine.Ports.{EngineOut}
use fpga_g_ptp.Engine.Phc.{
  Phc, outside_envelope, on_the_rail, write_addend, write_step, advance, clock_phc,
}

-- The writes among those recorded that pass a test.
abbrev pub count_writes : (ℤ → Bool) → List ℕ → ℕ
count_writes test [] = 0
count_writes test (w ∷ ws) = (if test (to_i32 w) then 1 else 0) + count_writes test ws

pub count_writes-snoc :
    (test : ℤ → Bool) (ws : List ℕ) (w : ℕ)
    → count_writes test (snoc ws w) ≡ count_writes test ws + (if test (to_i32 w) then 1 else 0)
count_writes-snoc test [] w = omega arith
count_writes-snoc test (x ∷ ws) w = omega (arith, count_writes-snoc test ws w)

-- The records run in step, and the two grades count, modulo 2^64, what the record of addends
-- holds.
pub record IsGraded (p : Phc) : Type 0 where
  pub outside : p.adj_out_of_envelope ≡ u64 (count_writes outside_envelope p.adj_seen)
  pub rail : p.adj_on_the_rail ≡ u64 (count_writes on_the_rail p.adj_seen)
  pub adjs : length p.adj_cyc ≡ length p.adj_seen
  pub steps : length p.step_cyc ≡ length p.steps_seen
  pub slews : length p.slew_at_step ≡ length p.steps_seen

write_addend-IsGraded :
    (cyc addend : ℕ) (p : Phc) → IsGraded p → IsGraded (write_addend cyc addend p)
unfolding write_addend
write_addend-IsGraded cyc addend p g = record {
  outside = ground (arith, g.outside, count_writes-snoc outside_envelope p.adj_seen addend);
  rail = ground (arith, g.rail, count_writes-snoc on_the_rail p.adj_seen addend);
  adjs = omega (arith, g.adjs, length-snoc p.adj_cyc cyc, length-snoc p.adj_seen addend);
  steps = g.steps;
  slews = g.slews;
}

write_step-IsGraded :
    (cyc step : ℕ) (slew : Bool) (p : Phc) → IsGraded p → IsGraded (write_step cyc step slew p)
unfolding write_step
write_step-IsGraded cyc step slew p g = record {
  outside = g.outside;
  rail = g.rail;
  adjs = g.adjs;
  steps = omega (arith, g.steps, length-snoc p.step_cyc cyc, length-snoc p.steps_seen step);
  slews = omega (arith, g.slews, length-snoc p.slew_at_step slew, length-snoc p.steps_seen step);
}

advance-IsGraded : (p : Phc) → IsGraded p → IsGraded (advance p)
unfolding advance
advance-IsGraded p g = record {
  outside = g.outside;
  rail = g.rail;
  adjs = g.adjs;
  steps = g.steps;
  slews = g.slews;
}

pub clock_phc-IsGraded :
    (cyc : ℕ) (o : EngineOut) (p : Phc) → IsGraded p → IsGraded (clock_phc cyc o p)
unfolding clock_phc
clock_phc-IsGraded cyc o p g = advance-IsGraded _ (
    if_cases IsGraded o.phc_step_we_o (λ e. write_step-IsGraded cyc _ _ _ adjusted) (λ e. adjusted))
  where
    adjusted : IsGraded (if o.phc_addend_we_o then write_addend cyc o.phc_addend_o p else p)
    adjusted = if_cases IsGraded o.phc_addend_we_o (λ e. write_addend-IsGraded cyc _ p g) (λ e. g)

-- The counter after the addend write of the clock, if there is one.
adjusted : (cyc : ℕ) → EngineOut → Phc → Phc
adjusted cyc o p = if o.phc_addend_we_o then write_addend cyc o.phc_addend_o p else p
