-- ===== src/Ucpu/Battery/Laws/Ready.antt =====
-- How a dispatch of the battery ends.
use fpga_g_ptp.Base.{
  ℕ, zero, suc, ◌+◌, ◌^◌, ◌≤◌, ◌<◌, ◌≡◌, refl, ap, ◌∙◌, ◌⊎◌, inl, inr, Bool, true, false, ltb,
  arith, ltb→lt,
}
use fpga_g_ptp.Harness.Verilated.{Verilated}
use fpga_g_ptp.Harness.Tally.{Tally}
use fpga_g_ptp.Ucpu.Operands.{Operands}
use fpga_g_ptp.Ucpu.Battery.{
  UcpuIn, UcpuOut, Battery, tick, cycle_timeout, await_ready, start_dispatch, end_dispatch,
  dispatch_the_battery,
}

module _ (V : Verilated UcpuIn UcpuOut) where
  -- The core shows ready and nothing is recorded, or the time limit has passed and one failure is.
  abbrev pub Ended : (b c : Battery V.State) → Type 0
  Ended b c =
      (((V.out c.dut).disp_ready_o ≡ true) × (c.tally ≡ b.tally))
      ⊎ ((cycle_timeout < c.cyc)
          × (c.tally ≡ record { checks = b.tally.checks; fails = b.tally.fails + 1 }))

  waited : Battery V.State → Battery V.State
  waited b = tick V (record b { ports = record b.ports { disp_valid_i = false } })

  timed_out : Battery V.State → Battery V.State
  timed_out c = record c { tally = record { checks = c.tally.checks; fails = c.tally.fails + 1 } }

  waited_lem :
      (b : Battery V.State)
      → b.cyc + 1 < 2 ^ 64
      → ((waited b).cyc ≡ b.cyc + 1) × ((waited b).tally ≡ b.tally)
  unfolding waited tick
  waited_lem b h = (omega arith, refl)

  Ended-as : (b c d : Battery V.State) → c.tally ≡ b.tally → Ended c d → Ended b d
  Ended-as b c d e (inl (r, t)) = inl (r, t ∙ e)
  Ended-as b c d e (inr (l, t)) =
      inr (l, t ∙ ap (λ (u : Tally). record { checks = u.checks; fails = u.fails + 1 }) e)

  -- One turn of the wait, on the two conditions that it tests.
  turn_ends :
      (fuel : ℕ) (b : Battery V.State)
      → b.cyc + 1 < 2 ^ 64
      → ((waited b).cyc ≤ cycle_timeout → Ended (waited b) (await_ready V fuel (waited b)))
      → (ready : Bool) → (V.out b.dut).disp_ready_o ≡ ready
      → (late : Bool) → ltb cycle_timeout (waited b).cyc ≡ late
      → Ended b (elim ready [
        | true ↦ b
        | false ↦ elim late [ true ↦ timed_out (waited b) | false ↦ await_ready V fuel (waited b) ]
      ])
  unfolding timed_out
  turn_ends fuel b h rest true r late l = inl (r, refl)
  turn_ends fuel b h rest false r true l = inr (
    ltb→lt cycle_timeout (waited b).cyc l,
    ap (λ (u : Tally). record { checks = u.checks; fails = u.fails + 1 }) (waited_lem b h).1,
  )
  turn_ends fuel b h rest false r false l =
      Ended-as b (waited b) (await_ready V fuel (waited b)) (waited_lem b h).1 (rest (ground arith))

  await_ready_ends :
      (fuel : ℕ) (b : Battery V.State)
      → 0 < fuel
      → cycle_timeout < b.cyc + fuel
      → b.cyc + fuel < 2 ^ 64
      → Ended b (await_ready V fuel b)
  unfolding await_ready waited timed_out
  await_ready_ends zero b p h w = absurd (omega arith)
  await_ready_ends (suc fuel) b p h w =
      let next = waited_lem b (omega arith) in
      turn_ends fuel b (omega arith)
        (λ early.
          await_ready_ends fuel (waited b) (omega (arith, next.0)) (omega (arith, next.0))
            (omega (arith, next.0)))
        (V.out b.dut).disp_ready_o refl (ltb cycle_timeout (waited b).cyc) refl

  start_dispatch_lem :
      (ops : Operands) (b : Battery V.State)
      → b.cyc + 1 < 2 ^ 64
      → ((start_dispatch V ops b).cyc ≡ b.cyc + 1) × ((start_dispatch V ops b).tally ≡ b.tally)
  unfolding start_dispatch tick
  start_dispatch_lem ops b h = (omega arith, refl)

  -- Whatever the core does, a dispatch ends, since the guard fires before the fuel of the model is spent, if the cycle counter is not near its wrap-around:
  -- either the core shows ready and the tally is as it was, or more than 2000000 cycles have passed
  -- in all and the tally has one more failure and no more checks.
  pub dispatch_the_battery_ends :
      (ops : Operands) (b : Battery V.State)
      → b.cyc + 2000010 < 2 ^ 64
      → Ended b (dispatch_the_battery V ops b)
  unfolding dispatch_the_battery end_dispatch
  dispatch_the_battery_ends ops b h =
      let s = start_dispatch V ops b in
      let begun = start_dispatch_lem ops b (omega arith) in
      finish (await_ready V (cycle_timeout + 1) s) (
        Ended-as b s (await_ready V (cycle_timeout + 1) s) begun.1 (
          await_ready_ends (cycle_timeout + 1) s (omega arith) (omega (arith, begun.0))
            (omega (arith, begun.0))))
    where
      finish : (c : Battery V.State) → Ended b c → Ended b (end_dispatch V c)
      finish c (inl e) = inl e
      finish c (inr e) = inr e
