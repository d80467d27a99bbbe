-- ===== src/Engine/Bench/Laws.antt =====
-- The clock of the engine suite, for every behaviour of the Verilated engine.
use fpga_g_ptp.Base.{
  ℕ, zero, suc, ◌+◌, ◌≡◌, refl, ap, inl, inr, Bool, Option, none, some, [], arith, get_or, repeat,
  sym, subst, ◌<◌, ◌^◌, u64, if_cases, Bool-cases,
}
use fpga_g_ptp.Harness.Verilated.{Verilated}
use fpga_g_ptp.Harness.Tally.{Tally}
use fpga_g_ptp.Engine.Ports.{EngineIn, EngineOut}
use fpga_g_ptp.Engine.Face.{Face, offer_result, is_withheld}
use fpga_g_ptp.Engine.Transmit.{Transmit, Beat}
use fpga_g_ptp.Engine.Transmit.Laws.{IsRecorded, capture-IsRecorded, stamp-IsRecorded}
use fpga_g_ptp.Engine.Phc.Laws.{IsGraded, clock_phc-IsGraded}
use fpga_g_ptp.Engine.Watch.Laws.{IsWatched, watch_low-IsWatched, watch_high-IsWatched}
use fpga_g_ptp.Engine.Bench.{
  Bench, bench, note_reset_release, offer_stamp, produce, auto_offer, clock, ts_beat, tx_beat,
  low_half, high_half, tick, run,
}

u64_below : (n : ℕ) → n < 2 ^ 64 → u64 n ≡ n
u64_below n k = omega (arith, k)

-- The records of the harness agree with one another.
pub record IsSound {S : Type 0} (b : Bench S) : Type 0 where
  pub frames : IsRecorded b.transmit
  pub steering : IsGraded b.phc
  pub watched : IsWatched b.cyc b.cyc b.cyc b.watch

module _ (V : Verilated EngineIn EngineOut) where
  forget-IsRecorded : (t : Transmit) → IsRecorded t → IsRecorded (record t { auto_pend = none })
  forget-IsRecorded t r = record {
    stamps = r.stamps;
    starts = r.starts;
    begun = r.begun;
    requests = r.requests;
    pending = λ i h. ground arith;
  }

  produce-IsSound :
      (pending : Option ℕ) (b : Bench V.State) → IsSound b → IsSound (produce V pending b)
  unfolding produce
  produce-IsSound none b s = s
  produce-IsSound (some idx) b s =
      if_cases IsSound b.face.ts_offer (λ e. s)
        (λ e.
          if_cases IsSound (is_withheld (get_or b.transmit.txf idx []) b.withheld) (λ h. skipped)
            (λ h. offered))
    where
      skipped : IsSound (record b { transmit = record b.transmit { auto_pend = none } })
      skipped = record {
        frames = forget-IsRecorded b.transmit s.frames;
        steering = s.steering;
        watched = s.watched;
      }

      offered : IsSound (offer_stamp V idx b)
      offered = record {
        frames = stamp-IsRecorded idx _ b.transmit s.frames;
        steering = s.steering;
        watched = s.watched;
      }

  auto_offer-IsSound : (b : Bench V.State) → IsSound b → IsSound (auto_offer V b)
  unfolding auto_offer
  auto_offer-IsSound b s = produce-IsSound b.transmit.auto_pend b s

  low_half-IsSound : (b : Bench V.State) → IsSound b → IsSound (low_half V b)
  unfolding low_half note_reset_release clock
  low_half-IsSound b s =
      let t =
        auto_offer-IsSound (note_reset_release V b)
          record { frames = s.frames; steering = s.steering; watched = s.watched } in
      record {
        frames = t.frames;
        steering = t.steering;
        watched = watch_low-IsWatched _ _ t.watched;
      }

  high_half-IsSound :
      (taken : Bool) (beat : Beat) (b : Bench V.State)
      → b.cyc + 1 < 2 ^ 64
      → IsSound b
      → IsSound (high_half V taken beat b)
  unfolding high_half clock
  high_half-IsSound taken beat b k s = record {
    frames = capture-IsRecorded b.cyc beat b.transmit s.frames;
    steering = clock_phc-IsGraded b.cyc _ b.phc s.steering;
    watched =
        subst (λ c. IsWatched c c c (high_half V taken beat b).watch)
          (sym (u64_below (b.cyc + 1) k))
          (watch_high-IsWatched b.self_present b.ports.rst_n b.cyc _ b.watch k k k s.watched);
  }

  produce_cyc : (pending : Option ℕ) (b : Bench V.State) → (produce V pending b).cyc ≡ b.cyc
  unfolding produce
  produce_cyc none b = refl
  produce_cyc (some idx) b =
      if_cases (λ (c : Bench V.State). c.cyc ≡ b.cyc) b.face.ts_offer (λ e. refl)
        (λ e.
          if_cases (λ (c : Bench V.State). c.cyc ≡ b.cyc)
            (is_withheld (get_or b.transmit.txf idx []) b.withheld) (λ h. refl) (λ h. refl))

  low_half_cyc : (b : Bench V.State) → (low_half V b).cyc ≡ b.cyc
  unfolding low_half auto_offer note_reset_release clock
  low_half_cyc b = produce_cyc b.transmit.auto_pend (note_reset_release V b)

  tick_cyc : (b : Bench V.State) → (tick V b).cyc ≡ u64 (b.cyc + 1)
  unfolding tick high_half clock
  tick_cyc b = ap (λ c. u64 (c + 1)) (low_half_cyc b)

  tick-IsSound : (b : Bench V.State) → b.cyc + 1 < 2 ^ 64 → IsSound b → IsSound (tick V b)
  unfolding tick
  tick-IsSound b k s =
      high_half-IsSound (ts_beat V (low_half V b)) (tx_beat V (low_half V b)) (low_half V b)
        (omega (arith, k, low_half_cyc b)) (low_half-IsSound b s)

  ticks-IsSound :
      (n : ℕ) (b : Bench V.State) → b.cyc + n < 2 ^ 64 → IsSound b → IsSound (repeat n (tick V) b)
  unfolding repeat
  ticks-IsSound zero b k s = s
  ticks-IsSound (suc n) b k s =
      ticks-IsSound n (tick V b) (omega (arith, k, tick_cyc b))
        (tick-IsSound b (omega (arith, k)) s)

  pub bench-IsSound : (not_gm_capable : Bool) → IsSound (bench V not_gm_capable)
  unfolding bench
  bench-IsSound not_gm_capable = record {
    frames = record {
      stamps = refl;
      starts = refl;
      begun = omega arith;
      requests = refl;
      pending = λ i h. ground arith;
    };
    steering = record { outside = refl; rail = refl; adjs = refl; steps = refl; slews = refl };
    watched = record {
      booted = omega arith;
      mastered = omega arith;
      committed = omega arith;
      snaps = refl;
      gm = omega arith;
      path = omega arith;
      present = omega arith;
      synced = omega arith;
      clears = omega arith;
    };
  }

  -- However the engine behaves, in the harness as constructed and after any number of its clocks below
  -- 2^64 the records agree: an egress stamp and a start cycle for each captured frame, at least one accepted first byte
  -- for each frame and one more in an open frame, a count of requests that is that of the captured
  -- Pdelay_Req (modulo 2^64), a pending stamp that names a captured frame,
  -- one cycle for each addend and each step, envelope grades that count (modulo 2^64) exactly the addends
  -- outside and on the rail, snapshots as many as the commits up to the bound of the record, and grades
  -- of the boot, master and slew watch that do not exceed what they grade.
  pub run-IsSound :
      (not_gm_capable : Bool) (n : ℕ) → n < 2 ^ 64 → IsSound (run V n (bench V not_gm_capable))
  unfolding run bench
  run-IsSound not_gm_capable n k =
      ticks-IsSound n (bench V not_gm_capable) (omega (arith, k)) (bench-IsSound not_gm_capable)

  -- The automatic producer never offers over a standing offer.
  produce_tally : (pending : Option ℕ) (b : Bench V.State) → (produce V pending b).tally ≡ b.tally
  unfolding produce offer_result
  produce_tally none b = refl
  produce_tally (some idx) b = elim (Bool-cases b.face.ts_offer) [
    | inl e ↦ rw e refl
    | inr e ↦ rw e (
        if_cases (λ (c : Bench V.State). c.tally ≡ b.tally)
          (is_withheld (get_or b.transmit.txf idx []) b.withheld) (λ h. refl) (λ h. refl))
  ]

  pub tick_tally : (b : Bench V.State) → (tick V b).tally ≡ b.tally
  unfolding tick low_half high_half clock auto_offer note_reset_release
  tick_tally b = produce_tally b.transmit.auto_pend (note_reset_release V b)
