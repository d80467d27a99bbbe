-- ===== src/Parser/Checks/Errors/Laws.antt =====
-- What the three totals of a sweep of `rx_err_i` say of each position.
use fpga_g_ptp.Base.{
  ℕ, zero, suc, ◌+◌, ◌≤◌, ◌≡◌, ◌↔◌, refl, Bool, true, arith, ◌==◌, ==_iff, length, length-snoc,
  for_range, u16,
}
use fpga_g_ptp.Harness.Verilated.{Verilated}
use fpga_g_ptp.Wire.{Frame}
use fpga_g_ptp.Parser.Feed.{ParserIn, ParserOut, Harness, feed_err}
use fpga_g_ptp.Parser.Expect.{drops}
use fpga_g_ptp.Parser.Checks.Errors.{Sweep, no_sweep, note, flag_at, sweep}

-- A position adds at most one to each total, and one to all of them exactly if it was refused cleanly;
-- else it is listed.
note_counts :
    (p : ℕ) (one : Bool) (events after : ℕ) (s : Sweep)
    → let t = note p one events after s in
      (t.dropped ≤ s.dropped + 1)
      × (t.silent ≤ s.silent + 1)
      × (t.unwritten ≤ s.unwritten + 1)
      × (length s.missed ≤ length t.missed)
      × (((t.dropped ≡ s.dropped + 1) × (t.silent ≡ s.silent + 1) × (t.unwritten ≡ s.unwritten + 1)
          ↔ ((one ≡ true) × (events ≡ 0) × (after ≡ 0))))
      × ((length t.missed ≡ length s.missed) ↔ ((one ≡ true) × (events ≡ 0) × (after ≡ 0)))
unfolding note
note_counts p one events after s = ground (arith, length-snoc s.missed p)

module _ (V : Verilated ParserIn ParserOut) (f : Frame) where
  -- The frame, flagged at byte `p` alone, is refused cleanly from the state `h`: one drop, no event, no
  -- write after the flag.
  abbrev pub Refused : (p : ℕ) → Harness V.State → Type 0
  Refused p h =
      let c = feed_err V f p p h in
      (drops V c ≡ u16 (drops V h + 1)) × (c.ev_count ≡ 0) × (c.writes_after_err ≡ 0)

  -- So it is at `n` positions from `p` on, each from the state that the one before it leaves.
  abbrev pub AllRefused : (n p : ℕ) → Harness V.State → Type 0
  AllRefused zero p h = Unit
  AllRefused (suc n) p h = Refused p h × AllRefused n (p + 1) (feed_err V f p p h)

  -- `t` stands `n` positions behind `s`.
  record Swept (n : ℕ) (s t : Sweep) (clean : Type 0) : Type 0 where
    dropped : t.dropped ≤ s.dropped + n
    silent : t.silent ≤ s.silent + n
    unwritten : t.unwritten ≤ s.unwritten + n
    missed : length s.missed ≤ length t.missed
    full :
        ((t.dropped ≡ s.dropped + n) × (t.silent ≡ s.silent + n) × (t.unwritten ≡ s.unwritten + n))
        ↔ clean
    listed : (length t.missed ≡ length s.missed) ↔ clean

  for_range-Swept :
      (n p : ℕ) (s : Sweep) (h : Harness V.State)
      → Swept n s (for_range n p (flag_at V true f) (s, h)).0 (AllRefused n p h)
  unfolding for_range flag_at
  for_range-Swept zero p s h = record {
    dropped = omega arith;
    silent = omega arith;
    unwritten = omega arith;
    missed = omega arith;
    full = (λ e. tt, λ e. omega arith);
    listed = (λ e. tt, λ e. refl);
  }
  for_range-Swept (suc n) p s h =
      let c = feed_err V f p p h in
      let one = drops V c == u16 (drops V h + 1) in
      let t = note p one c.ev_count c.writes_after_err s in
      let k = note_counts p one c.ev_count c.writes_after_err s in
      let rest = for_range-Swept n (p + 1) t c in
      record {
        dropped = omega (arith, k.0, rest.dropped);
        silent = omega (arith, k.1, rest.silent);
        unwritten = omega (arith, k.2, rest.unwritten);
        missed = omega (arith, k.3, rest.missed);
        full = (
          λ e.
              let now = k.4.0 (
                omega (arith, e, k.0, rest.dropped),
                omega (arith, e, k.1, rest.silent),
                omega (arith, e, k.2, rest.unwritten),
              ) in
              (
                ((==_iff _ _).0 now.0, now.1, now.2),
                rest.full.0 (
                  omega (arith, e, k.0, rest.dropped),
                  omega (arith, e, k.1, rest.silent),
                  omega (arith, e, k.2, rest.unwritten),
                ),
              ),
          λ e.
              let now = k.4.1 ((==_iff _ _).1 e.0.0, e.0.1, e.0.2) in
              let later = rest.full.1 e.1 in omega (arith, now, later),
        );
        listed = (
          λ e.
              let now = k.5.0 (omega (arith, e, k.3, rest.missed)) in
              (
                ((==_iff _ _).0 now.0, now.1, now.2),
                rest.listed.0 (omega (arith, e, k.3, rest.missed)),
              ),
          λ e.
              let now = k.5.1 ((==_iff _ _).1 e.0.0, e.0.1, e.0.2) in
              let later = rest.listed.1 e.1 in omega (arith, now, later),
        );
      }

  -- Whatever the parser does, the three totals of a sweep over a frame are all its length exactly when
  -- the frame, flagged at each of its bytes in turn, was refused cleanly at every one: one drop (modulo
  -- 2^16), no event, no bank write after the flag; and exactly then no position is listed as missed.
  pub sweep_lem :
      (h : Harness V.State)
      → let s = (sweep V f h).0 in
        (((s.dropped ≡ length f) × (s.silent ≡ length f) × (s.unwritten ≡ length f))
          ↔ AllRefused (length f) 0 h)
        × ((length s.missed ≡ 0) ↔ AllRefused (length f) 0 h)
  unfolding sweep
  sweep_lem h =
      let r = for_range-Swept (length f) 0 no_sweep h in
      (
        (λ e. r.full.0 (omega (arith, e)), λ c. omega (arith, r.full.1 c)),
        (λ e. r.listed.0 e, λ c. r.listed.1 c),
      )
