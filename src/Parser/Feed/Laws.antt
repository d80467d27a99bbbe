-- ===== src/Parser/Feed/Laws.antt =====
-- What the parser suite records of a feed, for every behaviour of the Verilated parser.
use fpga_g_ptp.Base.{
  ℕ, ◌+◌, ◌≤◌, ◌≡◌, refl, sym, ap, ◌∙◌, Bool, true, false, ◌&&◌, List, [], ◌∷◌, arith, ◌==◌,
  if◌then◌else◌, leb, length, length-snoc, is_empty, repeat, repeat_inv, if_cases,
}
use fpga_g_ptp.Harness.Verilated.{Verilated}
use fpga_g_ptp.Wire.{Frame}
use fpga_g_ptp.Parser.Feed.{
  ParserIn, ParserOut, Bank, store, load, Harness, record_write, record_event, cleared, at_byte,
  released, quiet, eval_at, tick, drain_ticks, feed_bytes, feed, feed_flagged,
}

-- `bank[a] = v` is read back, and no other word changes.
pub load-store :
    (a v c : ℕ) (bank : Bank) → load c (store a v bank) ≡ (if a == c then v else load c bank)
unfolding store load
load-store a v c [] = refl
load-store a v c ((k, w) ∷ bank) = ground (arith, load-store a v c bank)

-- From `h` to `c` nothing recorded is lost: one word 0 for each event, and the writes only grow.
pub record Records {S : Type 0} (h c : Harness S) : Type 0 where
  pub words : h.ev_count ≡ length h.ev_w0 → c.ev_count ≡ length c.ev_w0
  pub seen : h.ev_seen ≡ leb 1 h.ev_count → c.ev_seen ≡ leb 1 c.ev_count
  pub writes : h.bank_writes ≤ c.bank_writes

Records-then : {S : Type 0} (h c d : Harness S) → Records h c → Records c d → Records h d
Records-then h c d r s = record {
  words = λ e. s.words (r.words e);
  seen = λ e. s.seen (r.seen e);
  writes = omega (arith, r.writes, s.writes);
}

Records-same :
    {S : Type 0} (h c : Harness S)
    → c.ev_count ≡ h.ev_count
    → c.ev_w0 ≡ h.ev_w0
    → c.ev_seen ≡ h.ev_seen
    → c.bank_writes ≡ h.bank_writes
    → Records h c
Records-same h c n w s b = record {
  words = λ e. n ∙ e ∙ ap (λ (l : List ℕ). length l) (sym w);
  seen = λ e. s ∙ e ∙ ap (λ k. leb 1 k) (sym n);
  writes = omega (arith, b);
}

record_write-Records : {S : Type 0} (o : ParserOut) (h : Harness S) → Records h (record_write o h)
unfolding record_write
record_write-Records o h =
    if_cases (Records h) o.bank_we_o
      (λ e. record { words = λ w. w; seen = λ s. s; writes = omega arith })
      (λ e. Records-same h h refl refl refl refl)

record_event-Records : {S : Type 0} (o : ParserOut) (h : Harness S) → Records h (record_event o h)
unfolding record_event
record_event-Records o h =
    if_cases (Records h) o.ev_valid_o
      (λ e. record {
        words = λ w. omega (arith, w, length-snoc h.ev_w0 (load 0 h.bank));
        seen = λ s. ground arith;
        writes = omega arith;
      })
      (λ e. Records-same h h refl refl refl refl)

one_write :
    {S : Type 0} (o : ParserOut) (h : Harness S)
    → (record_event o (record_write o h)).bank_writes ≤ h.bank_writes + 1
unfolding record_write record_event
one_write o h =
    if_cases (λ (c : Harness _). c.bank_writes ≤ h.bank_writes + 1) o.ev_valid_o (λ e. written)
      (λ e. written)
  where
    written : (record_write o h).bank_writes ≤ h.bank_writes + 1
    written =
        if_cases (λ (c : Harness _). c.bank_writes ≤ h.bank_writes + 1) o.bank_we_o
          (λ e. omega arith) (λ e. omega arith)

module _ (V : Verilated ParserIn ParserOut) where
  tick-Records : (h : Harness V.State) → Records h (tick V h)
  unfolding tick eval_at
  tick-Records h =
      let high = eval_at V true (eval_at V false h) in
      let o = V.out high.dut in
      Records-then h high _ (Records-same h high refl refl refl refl) (
        Records-then high (record_write o high) _ (record_write-Records o high)
          (record_event-Records o (record_write o high)))

  tick_one_write : (h : Harness V.State) → (tick V h).bank_writes ≤ h.bank_writes + 1
  unfolding tick eval_at
  tick_one_write h =
      let high = eval_at V true (eval_at V false h) in one_write (V.out high.dut) high

  pub repeat-Records : (n : ℕ) (h : Harness V.State) → Records h (repeat n (tick V) h)
  repeat-Records n h =
      repeat_inv (Records h) (tick V) (λ c r. Records-then h c _ r (tick-Records c)) n h
        (Records-same h h refl refl refl refl)

  feed_bytes-Records :
      (first err : Bool) (f : Frame) (h : Harness V.State) → Records h (feed_bytes V first err f h)
  unfolding feed_bytes
  feed_bytes-Records first err [] h = Records-same h h refl refl refl refl
  feed_bytes-Records first err (x ∷ xs) h =
      let at = at_byte x first (is_empty xs) (err && is_empty xs) h in
      Records-then h at _ (Records-same h at refl refl refl refl) (
        Records-then at (tick V at) _ (tick-Records at)
          (feed_bytes-Records false err xs (tick V at)))

  -- Whatever the parser does and whatever was recorded before, after a feed of any frame there is one word 0
  -- for each event of the feed, and an event is reported seen exactly when there was one.
  pub feed_lem :
      (f : Frame) (err_at_eof : Bool) (h : Harness V.State)
      → let c = feed V f err_at_eof h in
        (c.ev_count ≡ length c.ev_w0)
        × (c.ev_seen ≡ leb 1 c.ev_count)
        × (h.bank_writes ≤ c.bank_writes)
  unfolding feed
  feed_lem f err_at_eof h =
      let start = cleared h in
      let fed = feed_bytes V true err_at_eof f start in
      let idle = quiet (released fed) in
      let all = Records-then start fed _ (feed_bytes-Records true err_at_eof f start) (
        Records-then fed idle _ (Records-same fed idle refl refl refl refl)
          (repeat-Records drain_ticks idle)) in
      (all.words refl, all.seen refl, all.writes)

  -- The two counts taken on the way stand between the writes before and after.
  pub feed_flagged_counts :
      (from to i : ℕ) (f : Frame) (before through : ℕ) (h : Harness V.State)
      → before ≤ through
      → through ≤ before + 1
      → through ≤ h.bank_writes
      → let fed = feed_flagged V from to i f before through h in
        (fed.0 ≤ fed.1) × (fed.1 ≤ fed.0 + 1) × (fed.1 ≤ fed.2.bank_writes)
  unfolding feed_flagged
  feed_flagged_counts from to i [] before through h p q r = (p, q, r)
  feed_flagged_counts from to i (x ∷ xs) before through h p q r =
      let at = at_byte x (i == 0) (is_empty xs) (leb from i && leb i to) h in
      let grows = (tick-Records at).writes in
      let once = tick_one_write at in
      feed_flagged_counts from to (i + 1) xs _ _ (tick V at) (ground (arith, grows))
        (ground (arith, once)) (ground (arith, grows))

  pub feed_flagged_low :
      (from to i : ℕ) (f : Frame) (before through : ℕ) (h : Harness V.State)
      → before ≤ h.bank_writes
      → before ≤ (feed_flagged V from to i f before through h).0
  unfolding feed_flagged
  feed_flagged_low from to i [] before through h p = omega arith
  feed_flagged_low from to i (x ∷ xs) before through h p =
      let at = at_byte x (i == 0) (is_empty xs) (leb from i && leb i to) h in
      let grows = (tick-Records at).writes in
      let kept : before ≤ (if i == from then h.bank_writes else before) = ground arith in
      let rest =
        feed_flagged_low from to (i + 1) xs (if i == from then h.bank_writes else before)
          (if i == from then (tick V at).bank_writes else through) (tick V at)
          (ground (arith, grows)) in
      omega (arith, kept, rest)

  pub feed_flagged-Records :
      (from to i : ℕ) (f : Frame) (before through : ℕ) (h : Harness V.State)
      → Records h (feed_flagged V from to i f before through h).2
  unfolding feed_flagged
  feed_flagged-Records from to i [] before through h = Records-same h h refl refl refl refl
  feed_flagged-Records from to i (x ∷ xs) before through h =
      let at = at_byte x (i == 0) (is_empty xs) (leb from i && leb i to) h in
      Records-then h at _ (Records-same h at refl refl refl refl) (
        Records-then at (tick V at) _ (tick-Records at)
          (feed_flagged-Records from to (i + 1) xs _ _ (tick V at)))
