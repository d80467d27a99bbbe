-- ===== src/Parser/Feed/Split.antt =====
-- tb/verilator/parser/sim_main.cpp, how `feed_err` splits the bank writes of its feed.
use fpga_g_ptp.Base.{
  ℕ, zero, suc, ◌+◌, ◌≤◌, ◌<◌, ◌≡◌, ◌∙◌, refl, ◌⊎◌, inl, inr, true, false, ◌&&◌, [], ◌∷◌, arith,
  ◌==◌, ltb, if◌then◌else◌, leb, length, is_empty, Bool-cases,
}
use fpga_g_ptp.Harness.Verilated.{Verilated}
use fpga_g_ptp.Wire.{Frame}
use fpga_g_ptp.Parser.Feed.{
  ParserIn, ParserOut, Harness, cleared, at_byte, released, quiet, tick, drain_ticks, feed_flagged,
  feed_err,
}
use fpga_g_ptp.Parser.Feed.Laws.{
  feed_flagged_counts, feed_flagged_low, feed_flagged-Records, repeat-Records,
}

-- The counts of `c`, whose feed began with `start` writes, where so many had been made before the
-- first flagged byte and with it.
pub record IsSplit {S : Type 0} (start before through : ℕ) (c : Harness S) : Type 0 where
  pub ahead : start + c.writes_before_err ≡ before
  pub on : before + c.writes_on_err ≡ through
  pub behind : through + c.writes_after_err ≡ c.bank_writes
  pub once : c.writes_on_err ≤ 1

module _ (V : Verilated ParserIn ParserOut) (from to : ℕ) where
  -- The harness when the first `n` bytes of the frame have been clocked in, of which the first is the `i`th.
  unfoldable pub fed : (i n : ℕ) → Frame → Harness V.State → Harness V.State
  fed i zero f h = h
  fed i (suc n) [] h = h
  fed i (suc n) (x ∷ xs) h =
      fed (i + 1) n xs (tick V (at_byte x (i == 0) (is_empty xs) (leb from i && leb i to) h))

  -- Past the first flagged byte nothing is taken.
  past :
      (i : ℕ) (f : Frame) (before through : ℕ) (h : Harness V.State)
      → from < i
      → let r = feed_flagged V from to i f before through h in (r.0 ≡ before) × (r.1 ≡ through)
  unfolding feed_flagged
  past i [] before through h k = (refl, refl)
  past i (x ∷ xs) before through h k =
      let other : (i == from) ≡ false = ground arith in
      let c = tick V (at_byte x (i == 0) (is_empty xs) (leb from i && leb i to) h) in
      let b = if i == from then h.bank_writes else before in
      let t = if i == from then c.bank_writes else through in
      let r = past (i + 1) xs b t c (omega (arith, k)) in (r.0 ∙ rw other refl, r.1 ∙ rw other refl)

  -- Nor where the frame ends before it.
  short :
      (i n : ℕ) (f : Frame) (before through : ℕ) (h : Harness V.State)
      → from ≡ i + n
      → length f ≤ n
      → let r = feed_flagged V from to i f before through h in (r.0 ≡ before) × (r.1 ≡ through)
  unfolding feed_flagged
  short i n [] before through h e k = (refl, refl)
  short i zero (x ∷ xs) before through h e k = absurd (omega (arith, k))
  short i (suc n) (x ∷ xs) before through h e k =
      let other : (i == from) ≡ false = ground arith in
      let c = tick V (at_byte x (i == 0) (is_empty xs) (leb from i && leb i to) h) in
      let b = if i == from then h.bank_writes else before in
      let t = if i == from then c.bank_writes else through in
      let r = short (i + 1) n xs b t c (omega (arith, e)) (omega (arith, k)) in
      (r.0 ∙ rw other refl, r.1 ∙ rw other refl)

  taken :
      (i n : ℕ) (f : Frame) (before through : ℕ) (h : Harness V.State)
      → from ≡ i + n
      → n < length f
      → let r = feed_flagged V from to i f before through h in
        (r.0 ≡ (fed i n f h).bank_writes) × (r.1 ≡ (fed i (suc n) f h).bank_writes)
  unfolding feed_flagged fed
  taken i n [] before through h e k = absurd (omega (arith, k))
  taken i zero (x ∷ xs) before through h e k =
      let here : (i == from) ≡ true = ground arith in
      let c = tick V (at_byte x (i == 0) (is_empty xs) (leb from i && leb i to) h) in
      let b = if i == from then h.bank_writes else before in
      let t = if i == from then c.bank_writes else through in
      let r = past (i + 1) xs b t c (omega (arith, e)) in (r.0 ∙ rw here refl, r.1 ∙ rw here refl)
  taken i (suc n) (x ∷ xs) before through h e k =
      let c = tick V (at_byte x (i == 0) (is_empty xs) (leb from i && leb i to) h) in
      let b = if i == from then h.bank_writes else before in
      let t = if i == from then c.bank_writes else through in
      taken (i + 1) n xs b t c (omega (arith, e)) (omega (arith, k))

  -- Whatever the parser does, if the frame reaches byte `from` then `feed_err` counts the bank writes of its
  -- feed before byte `from` is clocked in, with it (at most one), and after it; if it does not, then it counts
  -- them all as after it. One word 0 is recorded for each event.
  pub feed_err_lem :
      (f : Frame) (h : Harness V.State)
      → let c = feed_err V f from to h in
        (((from < length f)
            × IsSplit h.bank_writes
                (fed 0 from f (cleared h)).bank_writes
                (fed 0 (suc from) f (cleared h)).bank_writes
                c)
          ⊎ ((length f ≤ from) × IsSplit h.bank_writes h.bank_writes h.bank_writes c))
        × (c.ev_count ≡ length c.ev_w0)
  unfolding feed_err
  feed_err_lem f h =
      let w = h.bank_writes in
      let start = cleared h in
      let r = feed_flagged V from to 0 f w w start in
      let c = feed_err V f from to h in
      let counts =
        feed_flagged_counts V from to 0 f w w start (omega arith) (omega arith) (omega arith) in
      let low = feed_flagged_low V from to 0 f w w start (omega arith) in
      let events = feed_flagged-Records V from to 0 f w w start in
      let rest = repeat-Records V drain_ticks (quiet (released r.2)) in
      let grown = rest.writes in
      let split : (before through : ℕ) → r.0 ≡ before → r.1 ≡ through → IsSplit w before through c =
        λ before through eb et. record {
          ahead = omega (arith, counts, low, eb);
          on = omega (arith, counts, eb, et);
          behind = omega (arith, counts, grown, et);
          once = omega (arith, counts);
        } in
      (
        elim (Bool-cases (ltb from (length f))) [
          | inl e ↦
              let far : from < length f = ground arith in
              let t = taken 0 from f w w start (omega arith) far in inl (far, split _ _ t.0 t.1)
          | inr e ↦
              let near : length f ≤ from = ground arith in
              let t = short 0 from f w w start (omega arith) near in inr (near, split _ _ t.0 t.1)
        ],
        rest.words (events.words refl),
      )
