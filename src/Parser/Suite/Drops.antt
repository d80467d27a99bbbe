-- ===== src/Parser/Suite/Drops.antt =====
-- What the drop counts that the suite compares say together, for every parser that passes.
pub mod Arms
pub mod Total
use fpga_g_ptp.Base.{
  more, ℕ, zero, suc, ◌+◌, ◌%◌, ◌^◌, ◌≤◌, ◌≡◌, refl, sym, ap, ◌∙◌, Bool, true, false, arith, ◌==◌,
  ==_iff, u16,
}
use fpga_g_ptp.Harness.Verilated.{Verilated}
use fpga_g_ptp.Harness.Tally.{Tally, grade, grade_counts, expect_eq}
use fpga_g_ptp.Wire.{Frame}
use fpga_g_ptp.Parser.Feed.{ParserIn, ParserOut, load, Harness, feed}
use fpga_g_ptp.Parser.Expect.{
  touch, expect, expect_word, expect_event, expect_seq, expect_silent, expect_absent, expect_size,
  drops, expect_drops, expect_no_drop, expect_dropped, expect_unwritten,
}
use fpga_g_ptp.Parser.Expect.Laws.{aside, feed-aside}

pub grade_kept : (ok : Bool) (t : Tally) → (grade ok t).fails ≡ t.fails → ok ≡ true
unfolding grade
grade_kept true t e = refl
grade_kept false t e = absurd (omega (arith, e))

more-add : (k n : ℕ) → more k n ≡ n + k
more-add zero n = omega arith
more-add (suc k) n = omega (arith, more-add k (suc n))

-- From `h` to `c` there were only comparisons of other things than the drops.
pub record Only {S : Type 0} (h c : Harness S) : Type 0 where
  pub kept : h.tally.fails ≤ c.tally.fails
  pub base : c.drops0 ≡ h.drops0
  pub same : c.dut ≡ h.dut

pub Only-start : {S : Type 0} (h : Harness S) → Only h h
Only-start h = record { kept = omega arith; base = refl; same = refl }

module _ {S : Type 0} {h c : Harness S} where
  pub expect-Only : (got exp : ℕ) → Only h c → Only h (expect got exp c)
  unfolding expect expect_eq
  expect-Only got exp o = record {
    kept = omega (arith, o.kept, grade_counts (got == exp) c.tally);
    base = o.base;
    same = o.same;
  }

  pub expect_event-Only : (code : ℕ) → Only h c → Only h (expect_event code c)
  unfolding expect_event
  expect_event-Only code o = expect-Only _ _ o

  pub expect_seq-Only : (seq : ℕ) → Only h c → Only h (expect_seq seq c)
  unfolding expect_seq
  expect_seq-Only seq o = expect-Only _ _ o

  pub expect_silent-Only : Only h c → Only h (expect_silent c)
  unfolding expect_silent
  expect_silent-Only o = expect-Only _ _ o

  pub expect_absent-Only : (a : ℕ) → Only h c → Only h (expect_absent a c)
  unfolding expect_absent
  expect_absent-Only a o = expect-Only _ _ o

  pub expect_size-Only : (words : ℕ) → Only h c → Only h (expect_size words c)
  unfolding expect_size
  expect_size-Only words o = expect-Only _ _ o

pub expect_word-Only :
    {S : Type 0} {h c : Harness S} (a exp : ℕ) → Only h c → Only h (expect_word a exp c)
unfolding expect_word expect expect_eq
expect_word-Only {c} a exp o =
    let t = expect-Only (load a c.bank) exp o in
    record { kept = t.kept; base = o.base; same = o.same }

pub ruleset only = (
  Only-start, expect-Only, expect_event-Only, expect_seq-Only, expect_silent-Only,
  expect_absent-Only, expect_size-Only, expect_word-Only,
)

module _ (V : Verilated ParserIn ParserOut) where
  -- From `h` to `c` the parser dropped `n` frames, if no comparison on the way failed.
  pub record Dropped (h c : Harness V.State) (n : ℕ) : Type 0 where
    pub kept : h.tally.fails ≤ c.tally.fails
    pub base : c.drops0 ≡ h.drops0
    pub counted : c.tally.fails ≡ h.tally.fails → u16 (drops V c) ≡ u16 (drops V h + n)

  pub Dropped-start : (h : Harness V.State) → Dropped h h 0
  Dropped-start h = record { kept = omega arith; base = refl; counted = λ e. omega arith }

  -- One step more, of `k` drops.
  pub Dropped-then :
      (k : ℕ) {h c d : Harness V.State} {n : ℕ}
      → Dropped c d k
      → Dropped h c n
      → Dropped h d (more k n)
  Dropped-then k {n} g f = record {
    kept = omega (arith, g.kept, f.kept);
    base = g.base ∙ f.base;
    counted = λ e. omega (
      arith,
      more-add k n,
      f.counted (omega (arith, e, g.kept, f.kept)),
      g.counted (omega (arith, e, g.kept, f.kept)),
    );
  }

  -- A feed or a wait `c → d`, other comparisons `d → e`, and the comparison of the drops.
  pub drops-Dropped :
      (k : ℕ) (c d e : Harness V.State)
      → aside d ≡ aside c
      → Only d e
      → Dropped c (expect_drops V (drops V c) k e) k
  unfolding expect_drops expect expect_eq
  drops-Dropped k c d e left o =
      let fails = ap (λ (p : Tally × ℕ). p.0.fails) left in
      let ok = drops V e == u16 (drops V c + k) in
      record {
        kept = omega (arith, fails, o.kept, grade_counts ok e.tally);
        base = o.base ∙ ap (λ (p : Tally × ℕ). p.1) left;
        counted = λ q.
            let kept =
              grade_kept ok e.tally (omega (arith, q, fails, o.kept, grade_counts ok e.tally)) in
            omega (arith, (==_iff (drops V e) (u16 (drops V c + k))).0 kept);
      }

  pub no_drop-Dropped :
      (c d e : Harness V.State)
      → aside d ≡ aside c
      → Only d e
      → Dropped c (expect_no_drop V (drops V c) e) 0
  unfolding expect_no_drop expect expect_eq
  no_drop-Dropped c d e left o =
      let fails = ap (λ (p : Tally × ℕ). p.0.fails) left in
      let ok = drops V e == drops V c in
      record {
        kept = omega (arith, fails, o.kept, grade_counts ok e.tally);
        base = o.base ∙ ap (λ (p : Tally × ℕ). p.1) left;
        counted = λ q.
            let kept =
              grade_kept ok e.tally (omega (arith, q, fails, o.kept, grade_counts ok e.tally)) in
            omega (arith, (==_iff (drops V e) (drops V c)).0 kept);
      }

  -- Comparisons behind that of the drops.
  pub Dropped-Only : (h c d : Harness V.State) (n : ℕ) → Dropped h c n → Only c d → Dropped h d n
  Dropped-Only h c d n g o = record {
    kept = omega (arith, g.kept, o.kept);
    base = o.base ∙ g.base;
    counted = λ e.
        ap (λ s. u16 ((V.out s).drop_cnt_o)) o.same ∙ g.counted (omega (arith, e, g.kept, o.kept));
  }

  pub expect_dropped-Dropped :
      (f : Frame) {h c : Harness V.State} {n : ℕ}
      → Dropped h c n
      → Dropped h (expect_dropped V f c) (suc n)
  unfolding expect_dropped
  expect_dropped-Dropped f {c} =
      Dropped-then 1 (drops-Dropped 1 c (feed V f false c) _ (feed-aside V f false c) (search only))

  pub expect_unwritten-Dropped :
      (f : Frame) {h c : Harness V.State} {n : ℕ}
      → Dropped h c n
      → Dropped h (expect_unwritten V f c) (suc n)
  unfolding expect_unwritten
  expect_unwritten-Dropped f {c} =
      Dropped-then 1 (drops-Dropped 1 c (feed V f false c) _ (feed-aside V f false c) (search only))
