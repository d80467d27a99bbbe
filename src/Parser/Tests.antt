-- ===== src/Parser/Tests.antt =====
-- The parser suite on concrete frames and a parser that writes and raises an event in each clock.
pub mod Runs
pub mod Reference
use fpga_g_ptp.Base.{
  List, ℕ, ◌↔◌, All, some, ◌+◌, ◌-◌, ◌/◌, ◌%◌, ◌^◌, ◌≤◌, ◌<◌, ◌≡◌, ◌⊎◌, true, [], ◌∷◌, arith, suc,
  length, leb, replicate,
}
use fpga_g_ptp.Harness.Verilated.{Verilated}
use fpga_g_ptp.Wire.Read.{fld16}
use fpga_g_ptp.Parser.Frames.{Hdr, default_hdr, w0_of, append_tlv}
use fpga_g_ptp.Parser.Frames.Laws.{w0_of_lem, append_tlv_lem}
use fpga_g_ptp.Parser.Chain.{FuTlv, tlv_of, info_tlv, put_chain}
use fpga_g_ptp.Parser.Chain.Laws.{put_chain_lem}
use fpga_g_ptp.Parser.Feed.{
  ParserIn, ParserOut, harness, feed, feed_err, cleared, feed_refused_then,
}
use fpga_g_ptp.Parser.Feed.Memory.{view}
use fpga_g_ptp.Parser.Feed.Refines.{Refines, watch, schedule, nothing_yet, feed-Refines}
use fpga_g_ptp.Parser.Checks.Errors.{sweep}
use fpga_g_ptp.Parser.Checks.Errors.Laws.{AllRefused, sweep_lem}
use fpga_g_ptp.Parser.Checks.Stale.{Salted, grade_pair}
use fpga_g_ptp.Parser.Checks.Stale.Laws.{IsClean, grade_pair_lem}
use fpga_g_ptp.Parser.Expect.{drops}
use fpga_g_ptp.Parser.Suite.{run}
use fpga_g_ptp.Parser.Suite.Laws.{parser_run_lem}
use fpga_g_ptp.Parser.Feed.Split.{IsSplit, fed, feed_err_lem}

abbrev parser : Verilated ParserIn ParserOut
parser = record {
  State = ℕ;
  fresh = 0;
  eval = λ ports evals. suc evals;
  out = λ evals. record {
    bank_we_o = true;
    bank_addr_o = 0;
    bank_wdata_o = evals;
    ev_valid_o = true;
    ev_code_o = 3;
    ev_seq_o = 0;
    drop_cnt_o = 0;
  };
}

abbrev sync : Hdr
sync = record default_hdr { seq = 0x1234; flags = 0x0208; dom = 3 }

w0_of_example :
    let w = w0_of sync in
    (w % 2 ^ 8 ≡ 0x7F)
    × (w / 2 ^ 8 % 2 ^ 16 ≡ 0x0208)
    × (w / 2 ^ 24 % 2 ^ 8 ≡ 3)
    × (w / 2 ^ 32 % 2 ^ 16 ≡ 0x1234)
    × (w / 2 ^ 48 ≡ 0 % 16)
w0_of_example = w0_of_lem sync (omega arith) (omega arith) (omega arith) (omega arith)

append_tlv_example :
    let g = append_tlv 0x1234 (0xAA ∷ 0x55 ∷ []) (replicate 78 0) in
    (length g ≡ 78 + 4 + 2) × (fld16 g 16 ≡ length g - 14)
append_tlv_example =
    append_tlv_lem 0x1234 (0xAA ∷ 0x55 ∷ []) (replicate 78 0) (omega arith) (omega arith)

feed-Refines_example :
    let h = harness parser in
    let w = watch parser (schedule h.ports true true (1 ∷ 2 ∷ [])) h.dut (nothing_yet parser h) in
    Refines (feed parser (1 ∷ 2 ∷ []) true h) w.1 × ((feed parser (1 ∷ 2 ∷ []) true h).dut ≡ w.0)
feed-Refines_example = feed-Refines parser (1 ∷ 2 ∷ []) true (harness parser)

sweep_example :
    let h = harness parser in
    let f : List ℕ = 1 ∷ 2 ∷ 3 ∷ [] in
    let s = (sweep parser f h).0 in
    (((s.dropped ≡ length f) × (s.silent ≡ length f) × (s.unwritten ≡ length f))
      ↔ AllRefused parser f (length f) 0 h)
    × ((length s.missed ≡ 0) ↔ AllRefused parser f (length f) 0 h)
sweep_example = sweep_lem parser (1 ∷ 2 ∷ 3 ∷ []) (harness parser)

abbrev refused : Salted
refused = record { frame = 1 ∷ 2 ∷ []; ev = 2; seq = 4; words = [] }

abbrev clean : Salted
clean = record { frame = 3 ∷ 4 ∷ []; ev = 1; seq = 5; words = (0, 5) ∷ (4, 9) ∷ [] }

grade_pair_example :
    let h = harness parser in
    let c = feed_refused_then parser (1 ∷ 2 ∷ []) (3 ∷ 4 ∷ []) h in
    ((grade_pair parser refused clean h).tally.fails ≡ h.tally.fails)
    ↔ IsClean (drops parser h) (drops parser c) clean c
grade_pair_example = grade_pair_lem parser refused clean (harness parser) (omega arith)

parser-run_example :
    let r = run parser (harness parser) in
    (r.1.tally.checks ≡ 482) × (r.1.tally.fails ≤ 482) × ((r.0 ≡ 0) ↔ (r.1.tally.fails ≡ 0))
parser-run_example = parser_run_lem parser

feed_err_example :
    let h = harness parser in
    let c = feed_err parser (1 ∷ 2 ∷ 3 ∷ []) 1 1 h in
    (((1 < length {A = ℕ} (1 ∷ 2 ∷ 3 ∷ []))
        × IsSplit h.bank_writes
            (fed parser 1 1 0 1 (1 ∷ 2 ∷ 3 ∷ []) (cleared h)).bank_writes
            (fed parser 1 1 0 2 (1 ∷ 2 ∷ 3 ∷ []) (cleared h)).bank_writes
            c)
      ⊎ ((length {A = ℕ} (1 ∷ 2 ∷ 3 ∷ []) ≤ 1)
          × IsSplit h.bank_writes h.bank_writes h.bank_writes c))
    × (c.ev_count ≡ length c.ev_w0)
feed_err_example = feed_err_lem parser 1 1 (1 ∷ 2 ∷ 3 ∷ []) (harness parser)

abbrev chain : List FuTlv
chain = tlv_of 0x000A [] ∷ record { type = 0x000A; len = 8; value = 0xC1 ∷ 0xC2 ∷ [] } ∷ []
