-- ===== src/Parser/Suite/Drops/Total.antt =====
-- The total that `check_the_drop_count_advanced` compares, and the drops of the arms before it.
use fpga_g_ptp.Base.{ℕ, ◌+◌, ◌≤◌, ◌≡◌, refl, ap, ◌∙◌, Bool, arith, ◌==◌, ==_iff, u16}
use fpga_g_ptp.Harness.Verilated.{Verilated}
use fpga_g_ptp.Harness.Tally.{Tally, expect_eq, grade_counts}
use fpga_g_ptp.Wire.{Frame}
use fpga_g_ptp.Parser.Feed.{ParserIn, ParserOut, Harness, feed}
use fpga_g_ptp.Parser.Expect.{drops, expect, expect_silent, expect_event, expect_word, expect_drops}
use fpga_g_ptp.Parser.Expect.Laws.{aside, feed-aside}
use fpga_g_ptp.Parser.Checks.Arms.{
  feed_silent, check_header_level_drop_arms, foreign_payloads, header_only_controls,
  foreign_header_only, check_foreign_domain_is_refused_for_every_type,
}
use fpga_g_ptp.Parser.Checks.Adjacent.{check_the_drop_count_advanced}
use fpga_g_ptp.Parser.Suite.{length_arms, drop_arms}
use fpga_g_ptp.Parser.Suite.Drops.{Only, only, Dropped, Dropped-then, grade_kept}
use fpga_g_ptp.Parser.Suite.Drops.Arms.{
  foreign_payloads-Dropped, foreign_header_only-Dropped, fu_minimum-Dropped, length_minimum-Dropped,
  padded-Dropped, pdreq_minimum-Dropped, unlisted-Dropped, adjacent-Dropped,
}

-- From `h` to `c` no failure was taken back and the base of the total stands, whatever was dropped.
record Onwards {S : Type 0} (h c : Harness S) : Type 0 where
  kept : h.tally.fails ≤ c.tally.fails
  base : c.drops0 ≡ h.drops0

module _ {S : Type 0} {h : Harness S} where
  Onwards-aside : (c d : Harness S) → aside d ≡ aside c → Onwards h c → Onwards h d
  Onwards-aside c d e o = record {
    kept = omega (arith, o.kept, ap (λ (p : Tally × ℕ). p.0.fails) e);
    base = ap (λ (p : Tally × ℕ). p.1) e ∙ o.base;
  }

  Onwards-Only : (c d : Harness S) → Only c d → Onwards h c → Onwards h d
  Onwards-Only c d e o = record { kept = omega (arith, o.kept, e.kept); base = e.base ∙ o.base }

module _ (V : Verilated ParserIn ParserOut) {h c : Harness V.State} (o : Onwards h c) where
  feed-Onwards : (f : Frame) (err : Bool) → Onwards h (feed V f err c)
  feed-Onwards f err = Onwards-aside c (feed V f err c) (feed-aside V f err c) o

module _ {S : Type 0} {h c : Harness S} (o : Onwards h c) where
  silent-Onwards : Onwards h (expect_silent c)
  silent-Onwards = Onwards-Only c (expect_silent c) (search only) o

  event-Onwards : (code : ℕ) → Onwards h (expect_event code c)
  event-Onwards code = Onwards-Only c (expect_event code c) (search only) o

  word-Onwards : (a w : ℕ) → Onwards h (expect_word a w c)
  word-Onwards a w = Onwards-Only c (expect_word a w c) (search only) o

ruleset onwards = (feed-Onwards, silent-Onwards, event-Onwards, word-Onwards)

module _ (V : Verilated ParserIn ParserOut) where
  header_arms-Onwards :
      (h : Harness V.State)
      → Onwards (record h { drops0 = drops V h }) (check_header_level_drop_arms V h)
  unfolding check_header_level_drop_arms feed_silent
  header_arms-Onwards h =
      let start = record h { drops0 = drops V h } in
      let o : Onwards start start = record { kept = omega arith; base = refl } in
      search (onwards) depth 20

  controls-Onwards : (h : Harness V.State) → Onwards h (header_only_controls V h)
  unfolding header_only_controls
  controls-Onwards h =
      let o : Onwards h h = record { kept = omega arith; base = refl } in search (onwards) depth 20

  -- The arms behind the two controls drop 36 frames.
  length_arms-Dropped : (h : Harness V.State) → Dropped V h (length_arms V h) 34
  unfolding length_arms
  length_arms-Dropped h = Dropped-then V 9 (adjacent-Dropped V _) (
      Dropped-then V 9 (unlisted-Dropped V _) (
        Dropped-then V 4 (pdreq_minimum-Dropped V _) (
          Dropped-then V 0 (padded-Dropped V _)
            (Dropped-then V 5 (length_minimum-Dropped V _) (fu_minimum-Dropped V h)))))

  total_kept :
      (d0 k : ℕ) (e : Harness V.State)
      → (e.tally.fails ≤ (expect_drops V d0 k e).tally.fails)
        × ((expect_drops V d0 k e).tally.fails ≡ e.tally.fails → drops V e ≡ u16 (d0 + k))
  unfolding expect_drops expect expect_eq
  total_kept d0 k e =
      let ok = drops V e == u16 (d0 + k) in
      (
        omega (arith, grade_counts ok e.tally),
        λ q. (==_iff (drops V e) (u16 (d0 + k))).0 (grade_kept ok e.tally q),
      )

  -- If a parser fails no comparison of the drop arms nor that of their total, then it dropped the three
  -- frames that carry a foreign domain's payload, and with the header arms and the two header-only
  -- controls, whose drops are not compared one by one, eight frames in all up to there (modulo 2^16).
  pub drop_arms_lem :
      (h : Harness V.State)
      → let a = check_header_level_drop_arms V h in
        let b = foreign_payloads V a in
        let c = header_only_controls V b in
        (check_the_drop_count_advanced V (drop_arms V h)).tally.fails ≡ h.tally.fails
        → (u16 (drops V b) ≡ u16 (drops V a + 3)) × (u16 (drops V c) ≡ u16 (drops V h + 8))
  unfolding drop_arms check_foreign_domain_is_refused_for_every_type check_the_drop_count_advanced
  drop_arms_lem h passed =
      let a = check_header_level_drop_arms V h in
      let b = foreign_payloads V a in
      let c = header_only_controls V b in
      let d = foreign_header_only V c in
      let e = length_arms V d in
      let to_a = header_arms-Onwards h in
      let to_b = foreign_payloads-Dropped V a in
      let to_c = controls-Onwards b in
      let to_e = Dropped-then V 34 (length_arms-Dropped d) (foreign_header_only-Dropped V c) in
      let total = total_kept e.drops0 44 e in
      let base = to_e.base ∙ (to_c.base ∙ (to_b.base ∙ to_a.base)) in
      let end =
        total.1 (omega (arith, passed, to_a.kept, to_b.kept, to_c.kept, to_e.kept, total.0)) in
      let late =
        to_e.counted (omega (arith, passed, to_a.kept, to_b.kept, to_c.kept, to_e.kept, total.0)) in
      (
        to_b.counted (omega (arith, passed, to_a.kept, to_b.kept, to_c.kept, to_e.kept, total.0)),
        omega (arith, end, base, late),
      )
