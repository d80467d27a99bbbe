-- ===== src/Parser/Feed.antt =====
-- tb/verilator/parser/sim_main.cpp, class `RxParserHarness`: the clock, the message bank and the events
-- that it records, and the four ways to feed frames. `std::map` is an association list.
pub mod Laws
pub mod Memory
pub mod Refines
pub mod Split
use fpga_g_ptp.Base.{
  ℕ, zero, suc, ◌+◌, ◌-◌, ◌%◌, ◌^◌, Bool, true, false, not, ◌&&◌, ◌||◌, Option, none, some, List,
  [], ◌∷◌, ◌==◌, if◌then◌else◌, leb, is_empty, snoc, repeat,
}
use fpga_g_ptp.Harness.Verilated.{Verilated}
use fpga_g_ptp.Harness.Tally.{Tally, no_checks}
use fpga_g_ptp.Wire.{Frame}

pub record ParserIn : Type 0 where
  pub clk_i : Bool
  pub rst_n : Bool
  pub rx_valid_i : Bool
  pub rx_data_i : ℕ
  pub rx_sof_i : Bool
  pub rx_eof_i : Bool
  pub rx_err_i : Bool
  pub local_clock_id_i : ℕ
  pub local_clock_valid_i : Bool

pub record ParserOut : Type 0 where
  pub bank_we_o : Bool
  pub bank_addr_o : ℕ
  pub bank_wdata_o : ℕ
  pub ev_valid_o : Bool
  pub ev_code_o : ℕ
  pub ev_seq_o : ℕ
  pub drop_cnt_o : ℕ

abbrev pub Bank : Type 0
Bank = List (ℕ × ℕ)

-- `bank[a] = v`
unfoldable pub store : (a v : ℕ) → Bank → Bank
store a v [] = (a, v) ∷ []
store a v ((k, w) ∷ bank) = if k == a then (a, v) ∷ bank else (k, w) ∷ store a v bank

-- `bank.count(a) ? bank[a] : 0`
unfoldable pub load : (a : ℕ) → Bank → ℕ
load a [] = 0
load a ((k, w) ∷ bank) = if k == a then w else load a bank

pub record Harness (S : Type 0) : Type 0 where
  pub dut : S
  pub ports : ParserIn
  pub bank : Bank
  pub ev_count : ℕ
  pub ev_w0 : List ℕ
  pub ev_seen : Bool
  pub ev_code : ℕ
  pub ev_seq : ℕ
  pub ev_bank : Bank
  pub refused_left : Bank
  pub bank_writes : ℕ
  pub writes_before_err : ℕ
  pub writes_on_err : ℕ
  pub writes_after_err : ℕ
  pub drops0 : ℕ
  pub tally : Tally

abbrev pub idle_in : ParserIn
idle_in = record {
  clk_i = false;
  rst_n = false;
  rx_valid_i = false;
  rx_data_i = 0;
  rx_sof_i = false;
  rx_eof_i = false;
  rx_err_i = false;
  local_clock_id_i = 0;
  local_clock_valid_i = false;
}

-- What a clock records of the bank port and of the event port, in this order.
unfoldable pub record_write : {S : Type 0} → ParserOut → Harness S → Harness S
unfolding store
record_write o h =
    if o.bank_we_o
    then record h {
      bank = store o.bank_addr_o o.bank_wdata_o h.bank;
      bank_writes = h.bank_writes + 1;
    }
    else h

unfoldable pub record_event : {S : Type 0} → ParserOut → Harness S → Harness S
unfolding load
record_event o h =
    if o.ev_valid_o
    then record h {
      ev_seen = true;
      ev_code = o.ev_code_o;
      ev_seq = o.ev_seq_o;
      ev_count = h.ev_count + 1;
      ev_w0 = snoc h.ev_w0 (load 0 h.bank);
      ev_bank = h.bank;
    }
    else h

-- `bank.clear(); ev_seen = false; ev_count = 0; ev_w0.clear();`
abbrev pub cleared : {S : Type 0} → Harness S → Harness S
cleared h = record h { bank = []; ev_seen = false; ev_count = 0; ev_w0 = [] }

-- The receive port at one byte, and idle.
abbrev pub at_byte : {S : Type 0} → (byte : ℕ) (sof eof err : Bool) → Harness S → Harness S
at_byte byte sof eof err h = record h {
  ports = record h.ports {
    rx_valid_i = true;
    rx_data_i = byte;
    rx_sof_i = sof;
    rx_eof_i = eof;
    rx_err_i = err;
  };
}

abbrev pub released : {S : Type 0} → Harness S → Harness S
released h = record h {
  ports = record h.ports { rx_valid_i = false; rx_sof_i = false; rx_eof_i = false };
}

abbrev pub quiet : {S : Type 0} → Harness S → Harness S
quiet h = record h { ports = record h.ports { rx_err_i = false } }

-- The ports in reset, and its release.
abbrev pub held_in_reset : {S : Type 0} → Harness S → Harness S
held_in_reset h = record h {
  ports = record h.ports {
    rst_n = false;
    rx_valid_i = false;
    rx_sof_i = false;
    rx_eof_i = false;
    rx_err_i = false;
    rx_data_i = 0;
    local_clock_id_i = 0x02A1B2FFFEC3D4E5;
    local_clock_valid_i = true;
  };
}

abbrev pub out_of_reset : {S : Type 0} → Harness S → Harness S
out_of_reset h = record h { ports = record h.ports { rst_n = true } }

abbrev pub drain_ticks : ℕ
drain_ticks = 3

module _ (V : Verilated ParserIn ParserOut) where
  unfoldable pub harness : Harness V.State
  harness = record {
    dut = V.fresh;
    ports = idle_in;
    bank = [];
    ev_count = 0;
    ev_w0 = [];
    ev_seen = false;
    ev_code = 0;
    ev_seq = 0;
    ev_bank = [];
    refused_left = [];
    bank_writes = 0;
    writes_before_err = 0;
    writes_on_err = 0;
    writes_after_err = 0;
    drops0 = 0;
    tally = no_checks;
  }

  unfoldable pub eval_at : (level : Bool) → Harness V.State → Harness V.State
  eval_at level h =
      let ports = record h.ports { clk_i = level } in
      record h { ports = ports; dut = V.eval ports h.dut }

  unfoldable pub tick : Harness V.State → Harness V.State
  unfolding eval_at record_write record_event
  tick h =
      let high = eval_at true (eval_at false h) in
      record_event (V.out high.dut) (record_write (V.out high.dut) high)

  -- The bytes of a frame; `err_at_eof` flags the last one.
  unfoldable pub feed_bytes : (first err_at_eof : Bool) → Frame → Harness V.State → Harness V.State
  unfolding tick
  feed_bytes first err_at_eof [] h = h
  feed_bytes first err_at_eof (x ∷ xs) h =
      feed_bytes false err_at_eof xs
        (tick (at_byte x first (is_empty xs) (err_at_eof && is_empty xs) h))

  unfoldable pub feed : Frame → (err_at_eof : Bool) → Harness V.State → Harness V.State
  unfolding feed_bytes
  feed bytes err_at_eof h =
      repeat drain_ticks tick (quiet (released (feed_bytes true err_at_eof bytes (cleared h))))

  unfoldable pub feed_gap : (a b : Frame) (gap : ℕ) → Harness V.State → Harness V.State
  unfolding feed_bytes
  feed_gap a b gap h =
      let between = repeat gap tick (released (feed_bytes true false a (cleared h))) in
      repeat drain_ticks tick (released (feed_bytes true false b between))

  -- The bytes from index `i` on, `rx_err_i` raised on those of [from, to]; the two counts taken at the
  -- first flagged byte are passed along.
  unfoldable pub feed_flagged :
      (from to i : ℕ) → Frame → (before through : ℕ) → Harness V.State → ℕ × ℕ × Harness V.State
  unfolding tick
  feed_flagged from to i [] before through h = (before, through, h)
  feed_flagged from to i (x ∷ xs) before through h =
      let next = tick (at_byte x (i == 0) (is_empty xs) (leb from i && leb i to) h) in
      feed_flagged from to (i + 1) xs (if i == from then h.bank_writes else before)
        (if i == from then next.bank_writes else through) next

  unfoldable pub feed_err : Frame → (from to : ℕ) → Harness V.State → Harness V.State
  unfolding feed_flagged
  feed_err bytes from to h =
      let writes0 = h.bank_writes in
      let fed = feed_flagged from to 0 bytes writes0 writes0 (cleared h) in
      let c = repeat drain_ticks tick (quiet (released fed.2)) in
      record c {
        writes_before_err = fed.0 - writes0;
        writes_on_err = fed.1 - fed.0;
        writes_after_err = c.bank_writes - fed.1;
      }

  unfoldable pub feed_refused_then : (refused clean : Frame) → Harness V.State → Harness V.State
  unfolding feed_bytes
  feed_refused_then refused clean h =
      let start = record h { ev_seen = false; ev_count = 0; ev_w0 = []; ev_bank = [] } in
      let c = feed_bytes true true refused start in
      let d = feed_bytes true false clean (record c { refused_left = c.bank }) in
      repeat drain_ticks tick (quiet (released d))

  unfoldable pub reset_the_parser : Harness V.State → Harness V.State
  unfolding tick
  reset_the_parser h = repeat 2 tick (out_of_reset (repeat 4 tick (held_in_reset h)))
