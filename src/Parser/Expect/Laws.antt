-- ===== src/Parser/Expect/Laws.antt =====
-- What the feeds and the comparisons of the parser suite do to its tally, whatever the parser does.
use fpga_g_ptp.Base.{
  ℕ, more, suc, ◌+◌, ◌≤◌, ◌≡◌, refl, ap, ◌∙◌, Bool, true, false, ◌&&◌, List, [], ◌∷◌, arith, ◌==◌,
  leb, length, is_empty, repeat, repeat_inv, if_cases,
}
use fpga_g_ptp.Harness.Verilated.{Verilated}
use fpga_g_ptp.Harness.Tally.{Tally, grade_counts, expect_eq}
use fpga_g_ptp.Wire.{Frame}
use fpga_g_ptp.Parser.Feed.{
  ParserIn, ParserOut, Harness, record_write, record_event, cleared, at_byte, released, quiet,
  eval_at, tick, drain_ticks, feed_bytes, feed, feed_gap, feed_flagged, feed_err, feed_refused_then,
}
use fpga_g_ptp.Parser.Expect.{
  touch, expect, expect_word, expect_event, expect_seq, expect_silent, expect_absent, expect_size,
  expect_identities, expect_drops, expect_no_drop, expect_refused, expect_dropped, expect_unwritten,
  expect_counted, expect_pathless, expect_path,
}

-- From `h` to `c` exactly `n` comparisons were made, and no more than `n` of them failed.
pub record Graded {S : Type 0} (h c : Harness S) (n : ℕ) : Type 0 where
  pub checks : c.tally.checks ≡ h.tally.checks + n
  pub kept : h.tally.fails ≤ c.tally.fails
  pub bound : c.tally.fails ≤ h.tally.fails + n

pub Graded-start : {S : Type 0} (h : Harness S) → Graded h h 0
Graded-start h = record { checks = omega arith; kept = omega arith; bound = omega arith }

pub Graded-then :
    {S : Type 0} {n m : ℕ} {h c d : Harness S} → Graded h c n → Graded c d m → Graded h d (n + m)
Graded-then g k = record {
  checks = omega (arith, g.checks, k.checks);
  kept = omega (arith, g.kept, k.kept);
  bound = omega (arith, g.bound, k.bound);
}

pub Graded-same :
    {S : Type 0} {n : ℕ} {h : Harness S} (c d : Harness S)
    → d.tally ≡ c.tally
    → Graded h c n
    → Graded h d n
Graded-same c d e g = record {
  checks = ap (λ (t : Tally). t.checks) e ∙ g.checks;
  kept = omega (arith, g.kept, ap (λ (t : Tally). t.fails) e);
  bound = omega (arith, g.bound, ap (λ (t : Tally). t.fails) e);
}

-- One rule for each comparison: it adds itself to a derivation for what stands before it.
module _ {S : Type 0} {n : ℕ} {h c : Harness S} where
  pub expect-Graded : (got exp : ℕ) → Graded h c n → Graded h (expect got exp c) (suc n)
  unfolding expect expect_eq
  expect-Graded got exp g =
      let one = grade_counts (got == exp) c.tally in
      record {
        checks = omega (arith, one, g.checks);
        kept = omega (arith, one, g.kept);
        bound = omega (arith, one, g.bound);
      }

  pub expect_event-Graded : (code : ℕ) → Graded h c n → Graded h (expect_event code c) (suc n)
  unfolding expect_event
  expect_event-Graded code g = expect-Graded _ _ g

  pub expect_seq-Graded : (seq : ℕ) → Graded h c n → Graded h (expect_seq seq c) (suc n)
  unfolding expect_seq
  expect_seq-Graded seq g = expect-Graded _ _ g

  pub expect_silent-Graded : Graded h c n → Graded h (expect_silent c) (suc n)
  unfolding expect_silent
  expect_silent-Graded g = expect-Graded _ _ g

  pub expect_absent-Graded : (a : ℕ) → Graded h c n → Graded h (expect_absent a c) (suc n)
  unfolding expect_absent
  expect_absent-Graded a g = expect-Graded _ _ g

  pub expect_size-Graded : (words : ℕ) → Graded h c n → Graded h (expect_size words c) (suc n)
  unfolding expect_size
  expect_size-Graded words g = expect-Graded _ _ g

pub expect_word-Graded :
    {S : Type 0} {n : ℕ} {h c : Harness S} (a exp : ℕ)
    → Graded h c n
    → Graded h (expect_word a exp c) (suc n)
unfolding expect_word
expect_word-Graded {c} a exp g =
    expect-Graded _ _ (Graded-same c (record c { bank = touch a c.bank }) refl g)

pub expect_identities-Graded :
    {S : Type 0} {h : Harness S} (from : ℕ) (path : List ℕ) {n : ℕ} {c : Harness S}
    → Graded h c n
    → Graded h (expect_identities from path c) (more (length path) n)
unfolding expect_identities
expect_identities-Graded from [] g = g
expect_identities-Graded from (hop ∷ path) {n} g =
    expect_identities-Graded (from + 1) path {n = suc n} (expect_word-Graded from hop g)

-- What the feeds leave alone: the tally and the base of the drop count.
abbrev pub aside : {S : Type 0} → Harness S → Tally × ℕ
aside h = (h.tally, h.drops0)

pub Graded-aside :
    {S : Type 0} {h : Harness S} {n : ℕ} (c d : Harness S)
    → aside d ≡ aside c
    → Graded h c n
    → Graded h d n
Graded-aside c d e g = Graded-same c d (ap (λ (p : Tally × ℕ). p.0) e) g

-- What a clock records of the ports leaves the tally and the base of the drop count alone.
record-aside :
    {S : Type 0} (o : ParserOut) (h : Harness S)
    → aside (record_event o (record_write o h)) ≡ aside h
unfolding record_event record_write
record-aside {S} o h =
    if_cases (λ (c : Harness S). aside c ≡ aside h) o.ev_valid_o (λ e. written) (λ e. written)
  where
    written : aside (record_write o h) ≡ aside h
    written = if_cases (λ (c : Harness S). aside c ≡ aside h) o.bank_we_o (λ e. refl) (λ e. refl)

module _ (V : Verilated ParserIn ParserOut) where
  pub tick-aside : (h : Harness V.State) → aside (tick V h) ≡ aside h
  unfolding tick eval_at
  tick-aside h = let high = eval_at V true (eval_at V false h) in record-aside (V.out high.dut) high

  pub repeat-aside : (n : ℕ) (h : Harness V.State) → aside (repeat n (tick V) h) ≡ aside h
  repeat-aside n h = repeat_inv (λ c. aside c ≡ aside h) (tick V) (λ c e. tick-aside c ∙ e) n h refl

  feed_bytes-aside :
      (first err : Bool) (f : Frame) (h : Harness V.State)
      → aside (feed_bytes V first err f h) ≡ aside h
  unfolding feed_bytes
  feed_bytes-aside first err [] h = refl
  feed_bytes-aside first err (x ∷ xs) h =
      let at = at_byte x first (is_empty xs) (err && is_empty xs) h in
      feed_bytes-aside false err xs (tick V at) ∙ tick-aside at

  feed_flagged-aside :
      (from to i : ℕ) (f : Frame) (before through : ℕ) (h : Harness V.State)
      → aside (feed_flagged V from to i f before through h).2 ≡ aside h
  unfolding feed_flagged
  feed_flagged-aside from to i [] before through h = refl
  feed_flagged-aside from to i (x ∷ xs) before through h =
      let at = at_byte x (i == 0) (is_empty xs) (leb from i && leb i to) h in
      feed_flagged-aside from to (i + 1) xs _ _ (tick V at) ∙ tick-aside at

  pub feed-aside : (f : Frame) (e : Bool) (h : Harness V.State) → aside (feed V f e h) ≡ aside h
  unfolding feed
  feed-aside f e h =
      let fed = feed_bytes V true e f (cleared h) in
      repeat-aside drain_ticks (quiet (released fed)) ∙ feed_bytes-aside true e f (cleared h)

  pub feed_gap-aside :
      (a b : Frame) (gap : ℕ) (h : Harness V.State) → aside (feed_gap V a b gap h) ≡ aside h
  unfolding feed_gap
  feed_gap-aside a b gap h =
      let fed = feed_bytes V true false a (cleared h) in
      let between = repeat gap (tick V) (released fed) in
      repeat-aside drain_ticks (released (feed_bytes V true false b between))
      ∙ (feed_bytes-aside true false b between
          ∙ (repeat-aside gap (released fed) ∙ feed_bytes-aside true false a (cleared h)))

  pub feed_err-aside :
      (f : Frame) (from to : ℕ) (h : Harness V.State) → aside (feed_err V f from to h) ≡ aside h
  unfolding feed_err
  feed_err-aside f from to h =
      let w = h.bank_writes in
      let fed = feed_flagged V from to 0 f w w (cleared h) in
      repeat-aside drain_ticks (quiet (released fed.2))
      ∙ feed_flagged-aside from to 0 f w w (cleared h)

  pub feed_refused_then-aside :
      (r f : Frame) (h : Harness V.State) → aside (feed_refused_then V r f h) ≡ aside h
  unfolding feed_refused_then
  feed_refused_then-aside r f h =
      let start = record h { ev_seen = false; ev_count = 0; ev_w0 = []; ev_bank = [] } in
      let c = feed_bytes V true true r start in
      let left = record c { refused_left = c.bank } in
      let d = feed_bytes V true false f left in
      repeat-aside drain_ticks (quiet (released d))
      ∙ (feed_bytes-aside true false f left ∙ feed_bytes-aside true true r start)

-- The feeds and clocks leave a derivation as it is.
module _ (V : Verilated ParserIn ParserOut) {n : ℕ} {h c : Harness V.State} where
  pub tick-Graded : Graded h c n → Graded h (tick V c) n
  tick-Graded g = Graded-aside c _ (tick-aside V c) g

  pub repeat-Graded : (k : ℕ) → Graded h c n → Graded h (repeat k (tick V) c) n
  repeat-Graded k g = Graded-aside c _ (repeat-aside V k c) g

  pub feed-Graded : (f : Frame) (e : Bool) → Graded h c n → Graded h (feed V f e c) n
  feed-Graded f e g = Graded-aside c _ (feed-aside V f e c) g

  pub feed_gap-Graded : (a b : Frame) (gap : ℕ) → Graded h c n → Graded h (feed_gap V a b gap c) n
  feed_gap-Graded a b gap g = Graded-aside c _ (feed_gap-aside V a b gap c) g

  pub feed_err-Graded :
      (f : Frame) (from to : ℕ) → Graded h c n → Graded h (feed_err V f from to c) n
  feed_err-Graded f from to g = Graded-aside c _ (feed_err-aside V f from to c) g

  pub feed_refused_then-Graded :
      (r f : Frame) → Graded h c n → Graded h (feed_refused_then V r f c) n
  feed_refused_then-Graded r f g = Graded-aside c _ (feed_refused_then-aside V r f c) g

  pub expect_drops-Graded : (d0 k : ℕ) → Graded h c n → Graded h (expect_drops V d0 k c) (suc n)
  unfolding expect_drops
  expect_drops-Graded d0 k g = expect-Graded _ _ g

  pub expect_no_drop-Graded : (d0 : ℕ) → Graded h c n → Graded h (expect_no_drop V d0 c) (suc n)
  unfolding expect_no_drop
  expect_no_drop-Graded d0 g = expect-Graded _ _ g

-- The rules by which `search` grades a chain of comparisons behind a feed, and a chain of blocks.
pub ruleset gradings = (
  Graded-start, expect-Graded, expect_event-Graded, expect_seq-Graded, expect_silent-Graded,
  expect_absent-Graded, expect_size-Graded, expect_word-Graded, tick-Graded, repeat-Graded,
  feed-Graded, feed_gap-Graded, feed_err-Graded, feed_refused_then-Graded, expect_drops-Graded,
  expect_no_drop-Graded,
)

-- The blocks, by the comparisons that they make.
module _ (V : Verilated ParserIn ParserOut) {h c : Harness V.State} {n : ℕ} where
  pub expect_refused-Graded :
      (f : Frame) → Graded h c n → Graded h (expect_refused V f c) (suc (suc (suc n)))
  unfolding expect_refused
  expect_refused-Graded f g = search (gradings)

  pub expect_dropped-Graded :
      (f : Frame) → Graded h c n → Graded h (expect_dropped V f c) (suc (suc n))
  unfolding expect_dropped
  expect_dropped-Graded f g = search (gradings)

  pub expect_unwritten-Graded :
      (f : Frame) → Graded h c n → Graded h (expect_unwritten V f c) (suc (suc (suc n)))
  unfolding expect_unwritten
  expect_unwritten-Graded f g = search (gradings)

  pub expect_counted-Graded :
      (w12 : ℕ) (f : Frame) → Graded h c n → Graded h (expect_counted V w12 f c) (suc (suc (suc n)))
  unfolding expect_counted
  expect_counted-Graded w12 f g = search (gradings)

  pub expect_pathless-Graded :
      (f : Frame) → Graded h c n → Graded h (expect_pathless V f c) (suc (suc (suc (suc n))))
  unfolding expect_pathless
  expect_pathless-Graded f g = search (gradings)

  -- A path is graded entry by entry, and by its event, its count and the drops.
  expect_path-Graded :
      (w12 : ℕ) (path : List ℕ) (f : Frame)
      → Graded h c n
      → Graded h (expect_path V w12 path f c) (suc (more (length path) (suc (suc n))))
  unfolding expect_path
  expect_path-Graded w12 path f g = expect_no_drop-Graded V _ (
      expect_identities-Graded 16 path
        (expect_word-Graded _ _ (expect_event-Graded _ (feed-Graded V f false g))))

  pub one_hop-Graded :
      (w12 x : ℕ) (f : Frame)
      → Graded h c n
      → Graded h (expect_path V w12 (x ∷ []) f c) (suc (suc (suc (suc n))))
  one_hop-Graded w12 x f g = expect_path-Graded w12 (x ∷ []) f g

  pub two_hops-Graded :
      (w12 x y : ℕ) (f : Frame)
      → Graded h c n
      → Graded h (expect_path V w12 (x ∷ y ∷ []) f c) (suc (suc (suc (suc (suc n)))))
  two_hops-Graded w12 x y f g = expect_path-Graded w12 (x ∷ y ∷ []) f g

  pub three_hops-Graded :
      (w12 x y z : ℕ) (f : Frame)
      → Graded h c n
      → Graded h (expect_path V w12 (x ∷ y ∷ z ∷ []) f c) (suc (suc (suc (suc (suc (suc n))))))
  three_hops-Graded w12 x y z f g = expect_path-Graded w12 (x ∷ y ∷ z ∷ []) f g

pub ruleset block_gradings = (
  expect_refused-Graded, expect_dropped-Graded, expect_unwritten-Graded, expect_counted-Graded,
  expect_pathless-Graded, one_hop-Graded, two_hops-Graded, three_hops-Graded,
)
