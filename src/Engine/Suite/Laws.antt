-- ===== src/Engine/Suite/Laws.antt =====
-- tb/verilator/engine/sim_main.cpp, the loop of `wait_flags`, `wait_exchanges` and `wait_requests`.
use fpga_g_ptp.Base.{
  ℕ, zero, suc, ◌+◌, ◌≤◌, ◌<◌, ◌≡◌, refl, Bool, true, false, Bool-cases, none, some, arith, inl,
  inr,
}
use fpga_g_ptp.Harness.Verilated.{Verilated}
use fpga_g_ptp.Engine.Ports.{EngineIn, EngineOut}
use fpga_g_ptp.Engine.Suite.{Suite, serve_next, serve_loop, turn, wait_until}

module _ (V : Verilated EngineIn EngineOut) (fuel : ℕ) where
  -- The state after `k` turns of the loop, from its turn `n` on.
  unfoldable pub after : (k n : ℕ) → Suite V.State → Suite V.State
  after zero n s = s
  after (suc k) n s = after k (n + 1) (turn V fuel n s)

  -- The wait has ended with success in the state of turn `k`, no earlier turn being ready.
  unfoldable pub EndsAt :
      (ready : Suite V.State → Bool) (n k : ℕ) (s : Suite V.State) (r : Bool × Suite V.State)
      → Type 0
  EndsAt ready n k s r =
      (r ≡ (true, after k n s))
      × (ready (after k n s) ≡ true)
      × ((i : ℕ) → i < k → ready (after i n s) ≡ false)

  ends_now :
      (ready : Suite V.State → Bool) (turns n : ℕ) (s : Suite V.State)
      → ready s ≡ true
      → EndsAt ready n 0 s (wait_until V fuel ready (suc turns) n s)
  unfolding EndsAt after wait_until
  ends_now ready turns n s e = (rw (e, wait_until) refl, e, λ i i<0. absurd (omega arith))

  none_before :
      (ready : Suite V.State → Bool) (n k : ℕ) (s : Suite V.State)
      → ready s ≡ false
      → ((i : ℕ) → i < k → ready (after i (n + 1) (turn V fuel n s)) ≡ false)
      → (i : ℕ) → i < suc k
      → ready (after i n s) ≡ false
  unfolding after
  none_before ready n k s e before zero i<k = e
  none_before ready n k s e before (suc i) i<k = before i (omega arith)

  ends_later :
      (ready : Suite V.State → Bool) (turns n k : ℕ) (s : Suite V.State)
      → ready s ≡ false
      → EndsAt ready
          (n + 1)
          k
          (turn V fuel n s)
          (wait_until V fuel ready turns (n + 1) (turn V fuel n s))
      → EndsAt ready n (suc k) s (wait_until V fuel ready (suc turns) n s)
  unfolding EndsAt after wait_until
  ends_later ready turns n k s e (at, holds, before) =
      (rw (e, wait_until) at, holds, none_before ready n k s e before)

  -- If some state that the wait would reach within its bound is ready, then the wait ends with
  -- success, at the first such state and no later: for every engine, and whatever fuel is given to the
  -- peer that answers it.
  pub wait_until_lem :
      (ready : Suite V.State → Bool) (turns n k : ℕ) (s : Suite V.State)
      → k < turns
      → ready (after k n s) ≡ true
      → (j : ℕ) × (j ≤ k) × EndsAt ready n j s (wait_until V fuel ready turns n s)
  unfolding after
  wait_until_lem ready zero n k s k<0 e = absurd (omega arith)
  wait_until_lem ready (suc turns) n zero s k<turns e = (0, omega arith, ends_now ready turns n s e)
  wait_until_lem ready (suc turns) n (suc k) s k<turns e = elim (Bool-cases (ready s)) [
    | inl now ↦ (0, omega arith, ends_now ready turns n s now)
    | inr later ↦
        let (j, j≤k, ends) =
          wait_until_lem ready turns (n + 1) k (turn V fuel n s) (omega arith) e in
        (suc j, omega arith, ends_later ready turns n j s later ends)
  ]

module _ (V : Verilated EngineIn EngineOut) where
  -- A call of `service_pdelay` whose fuel does not run out gives what any more fuel gives.
  serve_loop_settled :
      (fuel more : ℕ) (s : Suite V.State)
      → fuel ≤ more
      → (serve_loop V fuel s).is_cut ≡ false
      → serve_loop V more s ≡ serve_loop V fuel s
  unfolding serve_loop
  serve_loop_settled zero zero s k e = refl
  serve_loop_settled zero (suc more) s k e =
      elim (serve_next V s)
          as (λ o.
            let cut : Suite V.State = elim o [ none ↦ s | some t ↦ record s { is_cut = true } ] in
            let on : Suite V.State = elim o [ none ↦ s | some t ↦ serve_loop V more t ] in
            cut.is_cut ≡ false → on ≡ cut) [
              | none ↦ λ h. refl
              | some t ↦ λ h. absurd (ground arith)
            ]
        e
  serve_loop_settled (suc fuel) zero s k e = absurd (omega (arith, k))
  serve_loop_settled (suc fuel) (suc more) s k e =
      elim (serve_next V s)
          as (λ o.
            let less : Suite V.State = elim o [ none ↦ s | some t ↦ serve_loop V fuel t ] in
            let on : Suite V.State = elim o [ none ↦ s | some t ↦ serve_loop V more t ] in
            less.is_cut ≡ false → on ≡ less) [
              | none ↦ λ h. refl
              | some t ↦ λ h. serve_loop_settled fuel more t (omega (arith, k)) h
            ]
        e
