-- ===== src/Parser/Checks/Stale/Laws.antt =====
-- What `own`, the number of words that a clean frame finds as its own, says of the bank.
use fpga_g_ptp.Base.{
  ℕ, ◌+◌, ◌<◌, ◌<<<◌, u16, bit_or, not, ◌==◌, if◌then◌else◌, ◌≤◌, ◌≡◌, ◌∙◌, sym, ◌↔◌, refl, ap,
  true, some, [], ◌∷◌, arith, length, All, to_nat, Bool-cases, inl, inr,
}
use fpga_g_ptp.Parser.Feed.{ParserIn, ParserOut, Harness, Bank, load, feed_refused_then}
use fpga_g_ptp.Parser.Feed.Memory.{view}
use fpga_g_ptp.Parser.Expect.{count, expect, drops, expect_drops}
use fpga_g_ptp.Harness.Verilated.{Verilated}
use fpga_g_ptp.Harness.Tally.{Tally, expect_eq, grade}
use fpga_g_ptp.Parser.Expect.Laws.{feed_refused_then-aside}
use fpga_g_ptp.Parser.Checks.Stale.{Salted, holds, own_words, grade_pair}

-- The test on the map is one on the memory that it stands for.
holds-view : (bank : Bank) (a v : ℕ) → (holds bank (a, v) ≡ true) ↔ (view bank a ≡ some v)
unfolding view count load
holds-view [] a v = ground arith
holds-view ((k, w) ∷ bank) a v = ground (arith, holds-view bank a v)

own-le-length : (words bank : Bank) → own_words words bank ≤ length words
unfolding own_words
own-le-length [] bank = omega arith
own-le-length (w ∷ words) bank = ground (arith, own-le-length words bank)

words_found :
    (words bank : Bank)
    → own_words words bank ≡ length words
    → All (λ w. view bank w.0 ≡ some w.1) words
unfolding own_words
words_found [] bank e = tt
words_found ((a, v) ∷ words) bank e =
    let h = own-le-length words bank in
    elim (Bool-cases (holds bank (a, v))) [
      | inl own ↦
          ((holds-view bank a v).0 own, words_found words bank (omega (arith, e, ap to_nat own)))
      | inr other ↦ absurd (omega (arith, e, h, ap to_nat other))
    ]

found_words :
    (words bank : Bank)
    → All (λ w. view bank w.0 ≡ some w.1) words
    → own_words words bank ≡ length words
unfolding own_words
found_words [] bank all = refl
found_words ((a, v) ∷ words) bank all =
    omega (arith, found_words words bank all.1, ap to_nat ((holds-view bank a v).1 all.0))

-- A frame finds all its words as its own exactly when each of them is in the bank, at its address and
-- with its value.
own_words_iff :
    (words bank : Bank)
    → (own_words words bank ≡ length words) ↔ All (λ w. view bank w.0 ≡ some w.1) words
own_words_iff words bank = (words_found words bank, found_words words bank)

-- What a pair must show: `h` before its frames and `c` after them, `v` the clean one.
pub record IsClean {S : Type 0} (drops0 drops : ℕ) (v : Salted) (c : Harness S) : Type 0 where
  pub dropped : drops ≡ u16 (drops0 + 1)
  pub once : c.ev_count ≡ 1
  pub event : bit_or (c.ev_code <<< 16) c.ev_seq ≡ bit_or (v.ev <<< 16) v.seq
  pub words : All (λ w. view c.ev_bank w.0 ≡ some w.1) v.words

-- The number of failures that a comparison adds.
expect_fails :
    {S : Type 0} (got exp : ℕ) (h : Harness S)
    → (expect got exp h).tally.fails ≡ h.tally.fails + to_nat (not (got == exp))
unfolding expect expect_eq grade
expect_fails got exp h = ground arith

same_iff : (a b : ℕ) → (to_nat (not (a == b)) ≡ 0) ↔ (a ≡ b)
same_iff a b = ground arith

no_more : (n x y z : ℕ) → (n + x + y + z ≡ n) ↔ ((x ≡ 0) × (y ≡ 0) × (z ≡ 0))
no_more n x y z =
    (λ e. (omega (arith, e), omega (arith, e), omega (arith, e)), λ p. omega (arith, p))

once_iff : (n k want : ℕ) → 0 < want → ((if n == 1 then k else 0) ≡ want) ↔ ((n ≡ 1) × (k ≡ want))
once_iff n k want named = ground arith

module _ (V : Verilated ParserIn ParserOut) where
  -- For any parser and any clean frame that names an event: a pair adds no failure exactly when
  -- one frame more was dropped, there was one event, with the code and the sequence of the clean frame, and
  -- the memory as that event saw it held each word of the clean frame, at its address and with its value.
  pub grade_pair_lem :
      (r v : Salted) (h : Harness V.State)
      → 0 < bit_or (v.ev <<< 16) v.seq
      → let c = feed_refused_then V r.frame v.frame h in
        ((grade_pair V r v h).tally.fails ≡ h.tally.fails) ↔ IsClean (drops V h) (drops V c) v c
  unfolding grade_pair expect_drops expect
  grade_pair_lem r v h named =
      let c = feed_refused_then V r.frame v.frame h in
      let fed : c.tally.fails ≡ h.tally.fails =
        ap (λ (a : Tally × ℕ). a.0.fails) (feed_refused_then-aside V r.frame v.frame h) in
      let want = bit_or (v.ev <<< 16) v.seq in
      let got = if c.ev_count == 1 then bit_or (c.ev_code <<< 16) c.ev_seq else 0 in
      let c1 = expect (drops V c) (u16 (drops V h + 1)) c in
      let c2 = expect got want c1 in
      let f1 = expect_fails (drops V c) (u16 (drops V h + 1)) c in
      let f2 = expect_fails got want c1 in
      let f3 = expect_fails (own_words v.words c.ev_bank) (length v.words) c2 in
      let x = to_nat (not (drops V c == u16 (drops V h + 1))) in
      let y = to_nat (not (got == want)) in
      let z = to_nat (not (own_words v.words c.ev_bank == length v.words)) in
      let total : (grade_pair V r v h).tally.fails ≡ h.tally.fails + x + y + z =
        f3 ∙ ap (λ n. n + z) (f2 ∙ ap (λ n. n + y) (f1 ∙ ap (λ n. n + x) fed)) in
      let none = no_more h.tally.fails x y z in
      let drop_iff = same_iff (drops V c) (u16 (drops V h + 1)) in
      let got_iff = same_iff got want in
      let own_iff = same_iff (own_words v.words c.ev_bank) (length v.words) in
      let event_iff = once_iff c.ev_count (bit_or (c.ev_code <<< 16) c.ev_seq) want named in
      let words_iff = own_words_iff v.words c.ev_bank in
      (
        (λ e.
            let (dx, dy, dz) = none.0 (sym total ∙ e) in
            let event = event_iff.0 (got_iff.0 dy) in
            record {
              dropped = drop_iff.0 dx;
              once = event.0;
              event = event.1;
              words = words_iff.0 (own_iff.0 dz);
            }),
        (λ p.
            let d = drop_iff.1 p.dropped in
            let g = got_iff.1 (event_iff.1 (p.once, p.event)) in
            let o = own_iff.1 (words_iff.1 p.words) in total ∙ none.1 (d, g, o)),
      )
