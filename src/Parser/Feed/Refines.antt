-- ===== src/Parser/Feed/Refines.antt =====
-- A feed as a specification states it: the port values that it drives, clock by clock, and a record of
-- what the parser shows, over a memory instead of a map.
use fpga_g_ptp.Base.{
  ℕ, ◌+◌, ◌≡◌, refl, ap, ◌∙◌, Bool, true, false, ◌&&◌, none, List, [], ◌∷◌, arith, if◌then◌else◌,
  leb, is_empty, snoc, repeat, replicate, zero, suc, ap₂, subst, if_cases, if_both, some, ◌==◌,
}
use fpga_g_ptp.Harness.Verilated.{Verilated}
use fpga_g_ptp.Wire.{Frame}
use fpga_g_ptp.Parser.Feed.{
  ParserIn, ParserOut, Harness, record_write, record_event, cleared, at_byte, released, quiet,
  eval_at, tick, drain_ticks, feed_bytes, feed, load,
}
use fpga_g_ptp.Parser.Feed.Memory.{Memory, view, written, or_zero, view-store, load-view}

-- What is seen of the parser since a feed began: its memory, and its events with the word 0 of each, and
-- of the last one the code, the sequence and the memory as it stood.
pub record Seen : Type 0 where
  pub memory : Memory
  pub words : List ℕ
  pub count : ℕ
  pub code : ℕ
  pub seq : ℕ
  pub at_event : Memory

-- One clock's outputs: the write comes before the event.
abbrev pub observe_write : ParserOut → Memory → Memory
observe_write o m = if o.bank_we_o then written o.bank_addr_o o.bank_wdata_o m else m

abbrev pub observe_event : ParserOut → Seen → Seen
observe_event o s =
    if o.ev_valid_o
    then record {
      memory = s.memory;
      words = snoc s.words (or_zero (s.memory 0));
      count = s.count + 1;
      code = o.ev_code_o;
      seq = o.ev_seq_o;
      at_event = s.memory;
    }
    else s

abbrev pub observe : ParserOut → Seen → Seen
observe o s = observe_event o (record s { memory = observe_write o s.memory })

-- The ports at a byte and behind the last one.
abbrev pub byte_in : ParserIn → (x : ℕ) (sof eof err : Bool) → ParserIn
byte_in p x sof eof err = record p {
  rx_valid_i = true;
  rx_data_i = x;
  rx_sof_i = sof;
  rx_eof_i = eof;
  rx_err_i = err;
}

abbrev pub idle_after : ParserIn → ParserIn
idle_after p = record p { rx_valid_i = false; rx_sof_i = false; rx_eof_i = false; rx_err_i = false }

-- The first byte with `rx_sof_i`, the last with `rx_eof_i` and, if asked, `rx_err_i`; then three idle
-- clocks.
unfoldable pub schedule : ParserIn → (first err_at_eof : Bool) → Frame → List ParserIn
schedule p first err [] = replicate drain_ticks (idle_after p)
schedule p first err (x ∷ xs) =
    let q = byte_in p x first (is_empty xs) (err && is_empty xs) in q ∷ schedule q false err xs

-- The harness agrees with what is to be seen.
pub record Refines {S : Type 0} (h : Harness S) (s : Seen) : Type 0 where
  pub memory : (a : ℕ) → view h.bank a ≡ s.memory a
  pub words : h.ev_w0 ≡ s.words
  pub count : h.ev_count ≡ s.count
  pub seen : h.ev_seen ≡ leb 1 s.count
  pub code : h.ev_code ≡ s.code
  pub seq : h.ev_seq ≡ s.seq
  pub at_event : (a : ℕ) → view h.ev_bank a ≡ s.at_event a

-- The ports and the parser are not among what is seen.
moved :
    {S : Type 0} {h : Harness S} {s : Seen} (d : S) (p : ParserIn)
    → Refines h s
    → Refines (record h { dut = d; ports = p }) s
moved d p r = record {
  memory = r.memory;
  words = r.words;
  count = r.count;
  seen = r.seen;
  code = r.code;
  seq = r.seq;
  at_event = r.at_event;
}

-- The two sides of a clock: what is written, and the event.
record_write-Refines :
    {S : Type 0} (o : ParserOut) (h : Harness S) (s : Seen)
    → Refines h s
    → Refines (record_write o h) (record s { memory = observe_write o s.memory })
unfolding record_write
record_write-Refines {S} o h s r =
    if_both (λ (c : Harness S) (m : Memory). Refines c (record s { memory = m })) o.bank_we_o
      (record {
        memory = λ a.
            view-store o.bank_addr_o o.bank_wdata_o h.bank a
            ∙ ap (λ t. if o.bank_addr_o == a then some o.bank_wdata_o else t) (r.memory a);
        words = r.words;
        count = r.count;
        seen = r.seen;
        code = r.code;
        seq = r.seq;
        at_event = r.at_event;
      })
      r

record_event-Refines :
    {S : Type 0} (o : ParserOut) (h : Harness S) (s : Seen)
    → Refines h s
    → Refines (record_event o h) (observe_event o s)
unfolding record_event
record_event-Refines {S} o h s r =
    if_both (λ (c : Harness S) (t : Seen). Refines c t) o.ev_valid_o
      (record {
        memory = r.memory;
        words =
            ap (λ l. snoc l (load 0 h.bank)) r.words
            ∙ ap (λ w. snoc s.words w) (load-view 0 h.bank ∙ ap or_zero (r.memory 0));
        count = ap (λ n. n + 1) r.count;
        seen = ground arith;
        code = refl;
        seq = refl;
        at_event = r.memory;
      })
      r

module _ (V : Verilated ParserIn ParserOut) where
  -- A clock at the port values `p`.
  abbrev pub clock_in : ParserIn → V.State → V.State
  clock_in p s = V.eval (record p { clk_i = true }) (V.eval (record p { clk_i = false }) s)

  -- Clocks at the port values, one after the other.
  unfoldable pub watch : List ParserIn → V.State → Seen → V.State × Seen
  watch [] d s = (d, s)
  watch (p ∷ ps) d s = let e = clock_in p d in watch ps e (observe (V.out e) s)

  tick-Refines :
      (h : Harness V.State) (s : Seen)
      → Refines h s
      → Refines (tick V h) (observe (V.out (clock_in h.ports h.dut)) s)
  unfolding tick eval_at
  tick-Refines h s r =
      let high = eval_at V true (eval_at V false h) in
      let o = V.out high.dut in
      record_event-Refines o (record_write o high) _
        (record_write-Refines o high s (moved high.dut high.ports r))

  -- The ports and the parser after a clock.
  tick-driven :
      (h : Harness V.State)
      → ((tick V h).ports ≡ record h.ports { clk_i = true })
        × ((tick V h).dut ≡ clock_in h.ports h.dut)
  unfolding tick eval_at
  tick-driven h =
      let high = eval_at V true (eval_at V false h) in
      let o = V.out high.dut in
      let w = record_write o high in
      let kept : (w.ports ≡ high.ports) × (w.dut ≡ high.dut) =
        unfold record_write in
        if_cases (λ (c : Harness V.State). (c.ports ≡ high.ports) × (c.dut ≡ high.dut)) o.bank_we_o
          (λ e. (refl, refl)) (λ e. (refl, refl)) in
      unfold record_event in
      if_cases (λ (c : Harness V.State). (c.ports ≡ high.ports) × (c.dut ≡ high.dut)) o.ev_valid_o
        (λ e. kept) (λ e. kept)

  -- The level of the clock on the ports before a clock does not matter.
  idle-level :
      (n : ℕ) (p : ParserIn) (b : Bool) (d : V.State) (s : Seen)
      → watch (replicate n (record p { clk_i = b })) d s ≡ watch (replicate n p) d s
  unfolding watch
  idle-level zero p b d s = refl
  idle-level (suc n) p b d s = let e = clock_in p d in idle-level n p b e (observe (V.out e) s)

  schedule-level :
      (p : ParserIn) (b first err : Bool) (f : Frame) (d : V.State) (s : Seen)
      → watch (schedule (record p { clk_i = b }) first err f) d s
        ≡ watch (schedule p first err f) d s
  unfolding watch schedule
  schedule-level p b first err [] d s = idle-level drain_ticks (idle_after p) b d s
  schedule-level p b first err (x ∷ xs) d s =
      let q = byte_in p x first (is_empty xs) (err && is_empty xs) in
      let e = clock_in q d in schedule-level q b false err xs e (observe (V.out e) s)

  abbrev pub Agrees : Harness V.State → V.State × Seen → Type 0
  Agrees c w = Refines c w.1 × (c.dut ≡ w.0)

  idle-Agrees :
      (n : ℕ) (h : Harness V.State) (s : Seen)
      → Refines h s
      → Agrees (repeat n (tick V) h) (watch (replicate n h.ports) h.dut s)
  unfolding watch repeat
  idle-Agrees zero h s r = (r, refl)
  idle-Agrees (suc n) h s r =
      let t = observe (V.out (clock_in h.ports h.dut)) s in
      let rest = idle-Agrees n (tick V h) t (tick-Refines h s r) in
      let same =
        ap₂ (λ p d. watch (replicate n p) d t) (tick-driven h).0 (tick-driven h).1
        ∙ idle-level n h.ports true (clock_in h.ports h.dut) t in
      subst (Agrees (repeat n (tick V) (tick V h))) same rest

  feed_bytes-Agrees :
      (first err : Bool) (f : Frame) (h : Harness V.State) (s : Seen)
      → Refines h s
      → Agrees
          (repeat drain_ticks (tick V) (quiet (released (feed_bytes V first err f h))))
          (watch (schedule h.ports first err f) h.dut s)
  unfolding watch schedule feed_bytes
  feed_bytes-Agrees first err [] h s r =
      idle-Agrees drain_ticks (quiet (released h)) s (moved h.dut (idle_after h.ports) r)
  feed_bytes-Agrees first err (x ∷ xs) h s r =
      let at = at_byte x first (is_empty xs) (err && is_empty xs) h in
      let t = observe (V.out (clock_in at.ports at.dut)) s in
      let rest =
        feed_bytes-Agrees false err xs (tick V at) t
          (tick-Refines at s (moved at.dut at.ports r)) in
      let same =
        ap₂ (λ p d. watch (schedule p false err xs) d t) (tick-driven at).0 (tick-driven at).1
        ∙ schedule-level at.ports true false err xs (clock_in at.ports at.dut) t in
      subst
        (Agrees
          (repeat drain_ticks (tick V) (quiet (released (feed_bytes V false err xs (tick V at))))))
        same rest

  -- What is to be seen before a feed: an empty memory, no event, and of the last event what was there.
  abbrev pub nothing_yet : Harness V.State → Seen
  nothing_yet h = record {
    memory = λ a. none;
    words = [];
    count = 0;
    code = h.ev_code;
    seq = h.ev_seq;
    at_event = view h.ev_bank;
  }

  -- Whatever the parser does, a feed implements its specification: it clocks the parser through the
  -- schedule of the frame and no more, ends with the parser in that state, and records the memory, the
  -- events with their words 0, and the last event's code, sequence and memory as they are to be seen.
  pub feed-Refines :
      (f : Frame) (err_at_eof : Bool) (h : Harness V.State)
      → let w = watch (schedule h.ports true err_at_eof f) h.dut (nothing_yet h) in
        Refines (feed V f err_at_eof h) w.1 × ((feed V f err_at_eof h).dut ≡ w.0)
  unfolding feed view
  feed-Refines f err h = feed_bytes-Agrees true err f (cleared h) (nothing_yet h) start
    where
      start : Refines (cleared h) (nothing_yet h)
      start = record {
        memory = λ a. refl;
        words = refl;
        count = refl;
        seen = refl;
        code = refl;
        seq = refl;
        at_event = λ a. refl;
      }
