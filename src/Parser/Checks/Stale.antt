-- ===== src/Parser/Checks/Stale.antt =====
-- tb/verilator/parser/sim_main.cpp, a clean frame behind a refused one: `Salted`, `salted` and
-- `check_a_refused_frame_leaves_no_stale_word`.
pub mod Laws
use fpga_g_ptp.Base.{
  ℕ, ◌+◌, ◌*◌, ◌%◌, ◌^◌, Bool, true, false, not, ◌&&◌, List, [], ◌∷◌, ◌==◌, if◌then◌else◌, bit_or,
  u8, u16, u32, u64, ◌<<<◌, length, to_nat,
}
use fpga_g_ptp.Harness.Verilated.{Verilated}
use fpga_g_ptp.Wire.{Frame, put_u8, put_u16, put_u32, put_u48, put_u64}
use fpga_g_ptp.Parser.Frames.{Hdr, default_hdr, common, fill, w0_of}
use fpga_g_ptp.Parser.Feed.{ParserIn, ParserOut, Bank, store, load, Harness, feed_refused_then}
use fpga_g_ptp.Parser.Expect.{count, expect, drops, expect_drops}

pub record Salted : Type 0 where
  pub frame : Frame
  pub ev : ℕ
  pub seq : ℕ
  pub words : Bank

-- `s` is the salt as `uint64_t`.
abbrev pub salted_hdr : (mtype s : ℕ) → Hdr
salted_hdr mtype s = record default_hdr {
  mtype = mtype;
  seq = u16 (0x3540 + s);
  flags = u16 (bit_or 0x0200 s);
  corr = bit_or (bit_or 0x0011223344550000 (s <<< 8)) s;
  srcid = bit_or (bit_or 0xAABBCCFFFE000000 (s <<< 8)) s;
  srcpn = u16 (0x0100 + s);
  logint = u8 (0xE0 + s);
}

-- `sec` and `ns`
abbrev pub salted_sec : (s : ℕ) → ℕ
salted_sec s = u64 (0x000012340000 + s)

abbrev pub salted_ns : (s : ℕ) → ℕ
salted_ns s = u32 (0x1DCD0000 + s)

-- The words that every event names.
abbrev pub header_words : Hdr → Bank
header_words h = (0, w0_of h) ∷ (1, h.corr) ∷ (2, h.srcid) ∷ (3, h.srcpn) ∷ []

-- `r.words[4] = sec; r.words[5] = ns;`
abbrev pub stamp_words : (s : ℕ) → Hdr → Bank
stamp_words s h = store 5 (salted_ns s) (store 4 (salted_sec s) (header_words h))

abbrev pub put_stamp : (s : ℕ) → Frame → Frame
put_stamp s f = put_u32 (put_u48 f (salted_sec s)) (salted_ns s)

unfoldable pub salted_sync : (s : ℕ) → Hdr → Salted
salted_sync s h = record {
  frame = put_stamp s (common h 10);
  ev = 1;
  seq = h.seq;
  words = stamp_words s h;
}

unfoldable pub salted_fu : (s : ℕ) → Hdr → Salted
salted_fu s h =
    let csro = u32 (0xFFFFF000 + s) in
    let tbi = u16 (0x0700 + s) in
    let f = put_u16 (put_u16 (put_stamp s (common h (10 + 32))) 0x0003) 28 in
    let f = put_u8 (put_u8 (put_u8 f 0x00) 0x80) 0xC2 in
    let f = put_u8 (put_u8 (put_u8 f 0) 0) 1 in
    record {
      frame = put_u32 (fill 12 0 (put_u16 (put_u32 f csro) tbi)) 0x00000123;
      ev = 2;
      seq = h.seq;
      words = store 11 (bit_or (csro <<< 32) (tbi <<< 16)) (stamp_words s h);
    }

unfoldable pub salted_pdresp : (s : ℕ) → Hdr → Salted
salted_pdresp s h =
    let rqid = u64 (0xDEADBEEFCAFE0000 + s) in
    let rqpn = u16 (0x0200 + s) in
    record {
      frame = put_u16 (put_u64 (put_stamp s (common h 20)) rqid) rqpn;
      ev = 5;
      seq = h.seq;
      words = store 7 rqpn (store 6 rqid (stamp_words s h));
    }

unfoldable pub salted_pdreq : Hdr → Salted
salted_pdreq h = record {
  frame = fill 20 0 (common h 20);
  ev = 4;
  seq = h.seq;
  words = header_words h;
}

unfoldable pub salted : (mtype salt : ℕ) → Salted
salted mtype salt =
    let h = salted_hdr mtype salt in
    if mtype == 0x0
    then salted_sync salt h
    else if mtype == 0x8
    then salted_fu salt h
    else if mtype == 0x3
    then salted_pdresp salt h
    else salted_pdreq h

-- `seen != ev_bank.end() && seen->second == word`
abbrev pub holds : Bank → ℕ × ℕ → Bool
holds bank w = not (count w.0 bank == 0) && (load w.0 bank == w.1)

-- `own`: how many of the words the bank holds.
unfoldable pub own_words : Bank → Bank → ℕ
own_words [] bank = 0
own_words (w ∷ words) bank = to_nat (holds bank w) + own_words words bank

-- `{clean, refused}`
abbrev pub pairs : List (ℕ × ℕ)
pairs =
    (0x0, 0x0)
    ∷ (0x0, 0x3)
    ∷ (0x8, 0x8)
    ∷ (0x8, 0x3)
    ∷ (0x2, 0x2)
    ∷ (0x2, 0x0)
    ∷ (0x3, 0x3)
    ∷ (0x3, 0x8)
    ∷ []

module _ (V : Verilated ParserIn ParserOut) where
  -- The two frames of a pair, fed and graded.
  unfoldable pub grade_pair : (r v : Salted) → Harness V.State → Harness V.State
  grade_pair r v h =
      let c = expect_drops V (drops V h) 1 (feed_refused_then V r.frame v.frame h) in
      let c =
        expect (if c.ev_count == 1 then bit_or (c.ev_code <<< 16) c.ev_seq else 0)
          (bit_or (v.ev <<< 16) v.seq) c in
      expect (own_words v.words c.ev_bank) (length v.words) c

  -- The pairs from the salt `salt` on, two for each.
  unfoldable pub grade_pairs : (salt : ℕ) → List (ℕ × ℕ) → Harness V.State → Harness V.State
  grade_pairs salt [] h = h
  grade_pairs salt (p ∷ ps) h =
      grade_pairs (salt + 2) ps (grade_pair (salted p.1 salt) (salted p.0 (salt + 1)) h)

  unfoldable pub check_a_refused_frame_leaves_no_stale_word : Harness V.State → Harness V.State
  check_a_refused_frame_leaves_no_stale_word = grade_pairs 1 pairs
