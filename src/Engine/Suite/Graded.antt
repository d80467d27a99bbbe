-- ===== src/Engine/Suite/Graded.antt =====
-- tb/verilator/engine/sim_main.cpp, the tally of the engine suite: how many comparisons its operations
-- make at least, whatever the engine does.
pub mod Peer
pub mod Phases
pub mod Present
use fpga_g_ptp.Base.{
  ℕ, zero, suc, ◌+◌, ◌≤◌, ◌≡◌, refl, ap, sym, subst, Bool, true, false, Option, none, some, List,
  [], ◌∷◌, arith, ◌==◌, if◌then◌else◌, if_cases, Bool-cases, inl, inr, length, is_empty, repeat_inv,
  for_range_inv, bit_and, drop, ltb, get_or,
}
use fpga_g_ptp.Harness.Verilated.{Verilated}
use fpga_g_ptp.Harness.Tally.{Tally, grade_counts, expect_eq}
use fpga_g_ptp.Wire.{Frame}
use fpga_g_ptp.Engine.Ports.{EngineIn, EngineOut}
use fpga_g_ptp.Wire.Read.{seq_of, type_of}
use fpga_g_ptp.Engine.Face.{Face, offer_result, release_withheld}
use fpga_g_ptp.Engine.Bench.{Bench, tick, run, send_bytes, send_frame, offer_loop, deliver_result}
use fpga_g_ptp.Engine.Bench.Laws.{tick_tally}
use fpga_g_ptp.Engine.Pdelay.Peer.{PdMode}
use fpga_g_ptp.Engine.Suite.{Suite, on_bench}
use fpga_g_ptp.Engine.Suite.Send.{expect}

-- From `t` to `u` at least `n` comparisons were made, and no more failed than were made.
pub record Counted (t u : Tally) (n : ℕ) : Type 0 where
  pub checks : t.checks + n ≤ u.checks
  pub kept : t.fails ≤ u.fails
  pub bound : u.fails + t.checks ≤ u.checks + t.fails

pub Counted-more : {t u : Tally} {n : ℕ} → Counted t u (suc n) → Counted t u n
Counted-more g = record { checks = omega (arith, g.checks); kept = g.kept; bound = g.bound }

expect_eq-Counted :
    {t u : Tally} {n : ℕ} (got exp : ℕ) → Counted t u n → Counted t (expect_eq got exp u) (suc n)
unfolding expect_eq
expect_eq-Counted {u} got exp g =
    let one = grade_counts (got == exp) u in
    record {
      checks = omega (arith, one, g.checks);
      kept = omega (arith, one, g.kept);
      bound = omega (arith, one, g.bound);
    }

-- The same of a bench and of a suite, which the rules below go by.
pub record Clocked {S : Type 0} (t : Tally) (b : Bench S) (n : ℕ) : Type 0 where
  pub tally : Counted t b.tally n

pub record Graded {S : Type 0} (t : Tally) (s : Suite S) (n : ℕ) : Type 0 where
  pub bench : Clocked t s.bench n

module _ {S : Type 0} {t : Tally} {n : ℕ} where
  pub Clocked-same : (c : Bench S) {b : Bench S} → c.tally ≡ b.tally → Clocked t b n → Clocked t c n
  Clocked-same c e g = record { tally = subst (λ (u : Tally). Counted t u n) (sym e) g.tally }

  -- A suite whose bench has the same tally.
  pub Graded-same :
      (c : Suite S) {s : Suite S} → c.bench.tally ≡ s.bench.tally → Graded t s n → Graded t c n
  Graded-same c e g = record { bench = Clocked-same c.bench e g.bench }

  pub Graded-more : {s : Suite S} → Graded t s (suc n) → Graded t s n
  Graded-more g = record { bench = record { tally = Counted-more g.bench.tally } }

  pub expect-Graded :
      (got exp : ℕ) {s : Suite S} → Graded t s n → Graded t (expect got exp s) (suc n)
  unfolding expect
  expect-Graded got exp g = record {
    bench = record { tally = expect_eq-Counted got exp g.bench.tally };
  }

  -- Where the count does not matter.
  pub expect-weak : (got exp : ℕ) {s : Suite S} → Graded t s n → Graded t (expect got exp s) n
  expect-weak got exp g = Graded-more (expect-Graded got exp g)

pub Graded-start : {S : Type 0} (s : Suite S) → Graded s.bench.tally s 0
Graded-start s = record {
  bench = record {
    tally = record { checks = omega arith; kept = omega arith; bound = omega arith };
  };
}

module _ (V : Verilated EngineIn EngineOut) {t : Tally} {n : ℕ} where
  pub tick-Clocked : {b : Bench V.State} → Clocked t b n → Clocked t (tick V b) n
  tick-Clocked {b} g = Clocked-same (tick V b) (tick_tally V b) g

  pub run-Clocked : (k : ℕ) {b : Bench V.State} → Clocked t b n → Clocked t (run V k b) n
  unfolding run
  run-Clocked k {b} g =
      repeat_inv (λ (c : Bench V.State). Clocked t c n) (tick V) (λ c. tick-Clocked) k b g

  send_bytes-Clocked :
      (first : Bool) (f : Frame) {b : Bench V.State}
      → Clocked t b n
      → Clocked t (send_bytes V first f b) n
  unfolding send_bytes
  send_bytes-Clocked first [] g = g
  send_bytes-Clocked first (x ∷ xs) {b} g =
      let driven = record b {
        ports = record b.ports {
          rx_valid_i = true;
          rx_data_i = x;
          rx_sof_i = first;
          rx_eof_i = is_empty xs;
          rx_err_i = false;
        };
      } in
      send_bytes-Clocked false xs (tick-Clocked (Clocked-same driven refl g))

  pub send_frame-Clocked :
      (f : Frame) (rx_ts : ℕ) {b : Bench V.State}
      → Clocked t b n
      → Clocked t (send_frame V f rx_ts b) n
  unfolding send_frame
  send_frame-Clocked f rx_ts {b} g =
      let stamped = record b { ports = record b.ports { rx_ts_i = rx_ts } } in
      Clocked-same (send_frame V f rx_ts b) refl
        (send_bytes-Clocked true f (Clocked-same stamped refl g))

  offer_loop-Clocked : (k : ℕ) (b : Bench V.State) → Clocked t b n → Clocked t (offer_loop V k b) n
  unfolding offer_loop
  offer_loop-Clocked zero b g = g
  offer_loop-Clocked (suc k) b g =
      elim b.face.ts_offer
        as (λ o.
          let c : Bench V.State = elim o [ true ↦ offer_loop V k (tick V b) | false ↦ b ] in
          Clocked t c n) [ true ↦ offer_loop-Clocked k (tick V b) (tick-Clocked g) | false ↦ g ]

  offer_result-Counted :
      (ns seq type : ℕ) (ok : Bool) (gen : ℕ) (f : Face) (u : Tally)
      → Counted t u n
      → Counted t (offer_result ns seq type ok gen (f, u)).1 n
  unfolding offer_result
  offer_result-Counted ns seq type ok gen f u g =
      if_cases (λ (v : Tally). Counted t v n) f.ts_offer
        (λ e. Counted-more (expect_eq-Counted 1 0 g)) (λ e. g)

  pub deliver_result-Clocked :
      (idx ns : ℕ) (ok : Bool) (gen : ℕ) {b : Bench V.State}
      → Clocked t b n
      → Clocked t (deliver_result V idx ns ok gen b) n
  unfolding deliver_result
  deliver_result-Clocked idx ns ok gen {b} g =
      let known = ltb idx (length b.transmit.txf) in
      let f = get_or b.transmit.txf idx [] in
      let seq = if known then seq_of f else 0 in
      let type = if known then type_of f else 0 in
      let offered = offer_result ns seq type ok gen (b.face, b.tally) in
      let c = record b {
        withheld = if known then release_withheld type seq b.withheld else b.withheld;
        face = offered.0;
        tally = offered.1;
      } in
      let taken =
        offer_loop-Clocked 200000 c
          record { tally = offer_result-Counted ns seq type ok gen b.face b.tally g.tally } in
      if_cases (λ (d : Bench V.State). Clocked t d n) (offer_loop V 200000 c).face.ts_offer
        (λ e. record { tally = Counted-more (expect_eq-Counted 0 1 taken.tally) }) (λ e. taken)

  -- `on_bench f`
  pub run_on-Graded : (k : ℕ) {s : Suite V.State} → Graded t s n → Graded t (on_bench (run V k) s) n
  run_on-Graded k g = record { bench = run-Clocked k g.bench }
