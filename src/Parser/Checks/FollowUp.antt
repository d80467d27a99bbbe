-- ===== src/Parser/Checks/FollowUp.antt =====
-- tb/verilator/parser/sim_main.cpp, the Sync and Follow_Up checks: `check_sync`,
-- `check_follow_up_with_information_tlv`, the TLV walk that accepts and refuses, and `fu_frame` with
-- `check_follow_up_minimum_and_tlv_arms`.
use fpga_g_ptp.Base.{
  ℕ, ◌+◌, Bool, true, false, List, [], ◌∷◌, ◌++◌, ◌==◌, if◌then◌else◌, bit_or, ◌<<<◌, ◌>>>◌, u8,
  u16, u64_max, length, replicate, for_range, for_each,
}
use fpga_g_ptp.Harness.Verilated.{Verilated}
use fpga_g_ptp.Wire.{Frame, put_u8, put_u16, put_u32, put_u48, put_u64}
use fpga_g_ptp.Parser.Frames.{Hdr, default_hdr, common, fill, w0_of, set_declared_to_physical}
use fpga_g_ptp.Parser.Chain.{FuTlv, tlv_of, info_tlv, fu_chain_frame, chain_hdr}
use fpga_g_ptp.Parser.Feed.{ParserIn, ParserOut, Bank, load, Harness, feed}
use fpga_g_ptp.Parser.Expect.{
  count, expect, expect_word, expect_event, expect_seq, expect_silent, expect_absent, expect_drops,
  expect_no_drop, block, expect_dropped, expect_unwritten,
}
use fpga_g_ptp.Parser.Checks.Announce.{cut, declare}

-- `f.u48(0x000012345678ull); f.u32(ns);`
abbrev pub put_origin : (ns : ℕ) → Frame → Frame
put_origin ns f = put_u32 (put_u48 f 0x000012345678) ns

abbrev pub sync_hdr : Hdr
sync_hdr = record default_hdr {
  mtype = 0x0;
  seq = 0x0102;
  flags = 0x0208;
  corr = 0x0000001234560000;
  srcid = 0xAABBCCFFFE001122;
  srcpn = 1;
  logint = 0xFD;
}

abbrev pub fu_hdr : (seq srcpn : ℕ) → Hdr
fu_hdr seq srcpn = record default_hdr {
  mtype = 0x8;
  seq = seq;
  srcid = 0xAABBCCFFFE001122;
  srcpn = srcpn;
}

-- What follows the organization identifiers of the information TLV.
abbrev pub put_rates : Frame → Frame
put_rates f = put_u32 (fill 12 0 (put_u16 (put_u32 f 0xFFFFF000) 0x0007)) 0x00000123

-- The frame of `check_follow_up_with_information_tlv`.
unfoldable pub plain_fu : Frame
plain_fu =
    let f = put_origin 0x2FAF0800 (common (fu_hdr 0x0102 0) (10 + 32)) in
    let f = put_u16 (put_u16 f 0x0003) 28 in
    let f = put_u8 (put_u8 (put_u8 f 0x00) 0x80) 0xC2 in
    put_rates (put_u8 (put_u8 (put_u8 f 0) 0) 1)

unfoldable pub fu_frame : (seq tlvt tlvl org sub : ℕ) → Frame
fu_frame seq tlvt tlvl org sub =
    let f = put_origin 0x2FAF0800 (common (fu_hdr seq 1) (10 + 32)) in
    let f = put_u16 (put_u16 f tlvt) tlvl in
    let f = put_u8 (put_u8 (put_u8 f (u8 (org >>> 16))) (u8 (org >>> 8))) (u8 org) in
    put_rates (put_u8 (put_u8 (put_u8 f (u8 (sub >>> 16))) (u8 (sub >>> 8))) (u8 sub))

abbrev pub fu_w11 : ℕ
fu_w11 = bit_or (0xFFFFF000 <<< 32) (0x0007 <<< 16)

abbrev pub org_other : FuTlv
org_other = tlv_of 0x0003 (0x12 ∷ 0x34 ∷ 0x56 ∷ 0xAB ∷ 0xCD ∷ 0xEF ∷ 0x55 ∷ 0xAA ∷ [])

abbrev pub pt_typed : FuTlv
pt_typed = tlv_of 0x0008 (replicate 8 0x33)

abbrev pub zero_len : FuTlv
zero_len = tlv_of 0x000A []

abbrev pub sub2 : FuTlv
sub2 = info_tlv 0x11111111 0x2222 2

abbrev pub mimic : FuTlv
mimic = tlv_of 0x0003 (
    (0x12 ∷ 0x34 ∷ 0x00 ∷ 0x80 ∷ 0xC2 ∷ 0x00 ∷ 0x00 ∷ 0x01 ∷ [])
    ++ (replicate 4 0x11 ++ replicate 18 0x22))

-- The information TLV `INFO` of both walks.
abbrev pub info : FuTlv
info = info_tlv 0xFFFFF000 0x0007 1

-- `bank.count(w) ? bank[w] : ~0ull`
abbrev pub word_or_ones : (w : ℕ) → Bank → ℕ
word_or_ones w bank = if count w bank == 0 then u64_max else load w bank

-- The map `plain`, in the order of its keys.
abbrev pub plain_words : List (ℕ × ℕ)
plain_words =
    (0, w0_of (chain_hdr 0x9800))
    ∷ (1, (chain_hdr 0x9800).corr)
    ∷ (2, (chain_hdr 0x9800).srcid)
    ∷ (3, (chain_hdr 0x9800).srcpn)
    ∷ (4, 0x000012345678)
    ∷ (5, 0x2FAF0800)
    ∷ (11, fu_w11)
    ∷ []

pub record WalkProbe : Type 0 where
  pub chain : List FuTlv
  pub pad : ℕ

abbrev pub walk_probes : List WalkProbe
walk_probes =
    record { chain = info ∷ []; pad = 0 }
    ∷ record { chain = org_other ∷ info ∷ []; pad = 0 }
    ∷ record { chain = zero_len ∷ pt_typed ∷ sub2 ∷ info ∷ []; pad = 0 }
    ∷ record { chain = org_other ∷ info ∷ []; pad = 16 }
    ∷ record { chain = org_other ∷ info ∷ info_tlv 0x00000FFF 0x0009 1 ∷ []; pad = 0 }
    ∷ record { chain = info ∷ zero_len ∷ org_other ∷ zero_len ∷ []; pad = 0 }
    ∷ record { chain = mimic ∷ info ∷ []; pad = 0 }
    ∷ []

abbrev pub raw_tlv : (type len : ℕ) → List ℕ → FuTlv
raw_tlv type len value = record { type = type; len = len; value = value }

-- A Follow_Up whose messageLength ends `octets` octets into a TLV header, with `pad` behind it.
unfoldable pub cut_header : (octets pad : ℕ) → Frame
cut_header octets pad =
    let f =
      for_range octets 0 (λ i f. put_u8 f (if i == 1 then 0x0A else 0x00))
        (fu_chain_frame 0x9814 (info ∷ []) 0 0) in
    set_declared_to_physical f ++ replicate pad 0x02

abbrev pub long_info : FuTlv
long_info = record info {
  value = info.value ++ (0x00 ∷ 0x00 ∷ []);
  len = u16 (length (info.value ++ (0x00 ∷ 0x00 ∷ [])));
}

-- A row of `bad_tlv`.
pub record BadTlv : Type 0 where
  pub tlvt : ℕ
  pub tlvl : ℕ
  pub org : ℕ
  pub sub : ℕ

abbrev pub bad_tlvs : List BadTlv
bad_tlvs =
    record { tlvt = 0x0008; tlvl = 28; org = 0x0080C2; sub = 1 }
    ∷ record { tlvt = 0x0003; tlvl = 27; org = 0x0080C2; sub = 1 }
    ∷ record { tlvt = 0x0003; tlvl = 28; org = 0x001B19; sub = 1 }
    ∷ record { tlvt = 0x0003; tlvl = 28; org = 0x0080C2; sub = 2 }
    ∷ []

-- The complete Follow_Up of the arms, with its sequenceId.
abbrev pub whole_fu : (seq : ℕ) → Frame
whole_fu seq = fu_frame seq 0x0003 28 0x0080C2 1

module _ (V : Verilated ParserIn ParserOut) where
  unfoldable pub check_sync : Harness V.State → Harness V.State
  check_sync h =
      let h = feed V (put_origin 0x1DCD6500 (common sync_hdr 10)) false h in
      let h = expect_word 1 sync_hdr.corr (expect_word 0 (w0_of sync_hdr) (expect_event 1 h)) in
      expect_word 5 0x1DCD6500 (expect_word 4 0x000012345678 h)

  unfoldable pub check_follow_up_with_information_tlv : Harness V.State → Harness V.State
  check_follow_up_with_information_tlv h =
      let h = expect_event 2 (feed V plain_fu false h) in
      expect_word 11 fu_w11 (expect_word 5 0x2FAF0800 (expect_word 4 0x000012345678 h))

  unfoldable pub walk_probe : WalkProbe → Harness V.State → Harness V.State
  walk_probe p =
      block V
        (λ d0 h. expect_no_drop V d0 (
          for_each (λ w c. expect (word_or_ones w.0 c.bank) w.1 c) plain_words
            (expect_seq 0x9800 (expect_event 2 h))))
        (fu_chain_frame 0x9800 p.chain 0 p.pad)

  unfoldable pub check_follow_up_tlv_walk_accepts : Harness V.State → Harness V.State
  check_follow_up_tlv_walk_accepts = for_each walk_probe walk_probes

  unfoldable pub expect_fu_refused : (d0 : ℕ) (no_w11 : Bool) → Harness V.State → Harness V.State
  expect_fu_refused d0 no_w11 h =
      let h = expect_drops V d0 1 (expect_silent h) in if no_w11 then expect_absent 11 h else h

  -- `d0 = dut->drop_cnt_o; feed(f.b, false); expect_fu_refused(tag, d0, no_w11);`
  unfoldable pub refuse_fu : (no_w11 : Bool) → Frame → Harness V.State → Harness V.State
  refuse_fu no_w11 = block V (λ d0 h. expect_fu_refused d0 no_w11 h)

  unfoldable pub check_follow_up_tlv_walk_refuses : Harness V.State → Harness V.State
  check_follow_up_tlv_walk_refuses h =
      let h = refuse_fu true (fu_chain_frame 0x9810 (org_other ∷ pt_typed ∷ sub2 ∷ []) 0 0) h in
      let h = refuse_fu true (fu_chain_frame 0x9811 (org_other ∷ info ∷ []) 76 0) h in
      let h = refuse_fu false (fu_chain_frame 0x9812 (info ∷ raw_tlv 0x000A 2 [] ∷ []) 0 0) h in
      let long = raw_tlv 0x000A 8 (0xC1 ∷ 0xC2 ∷ []) in
      let h = refuse_fu false (fu_chain_frame 0x9813 (info ∷ long ∷ []) 0 6) h in
      let h =
        for_range 3 1
          (λ octets c.
            refuse_fu false (cut_header octets 8) (refuse_fu false (cut_header octets 0) c))
          h in
      let odd = tlv_of 0x000A (1 ∷ 2 ∷ 3 ∷ []) in
      let h = refuse_fu true (fu_chain_frame 0x9815 (odd ∷ info ∷ []) 0 0) h in
      let past = raw_tlv 0x000A 0x0100 [] in
      let h = refuse_fu true (fu_chain_frame 0x9816 (past ∷ info ∷ []) 0 0) h in
      let h = refuse_fu true (fu_chain_frame 0x9817 (raw_tlv 0x000A 1 [] ∷ info ∷ []) 0 0) h in
      refuse_fu true (fu_chain_frame 0x9818 (long_info ∷ []) 0 0) h

  -- One row of `bad_tlv`.
  unfoldable pub bad_tlv_arm : BadTlv → Harness V.State → Harness V.State
  bad_tlv_arm t =
      block V (λ d0 h. expect_drops V d0 1 (expect_absent 11 (expect_silent h)))
        (fu_frame 0x0F50 t.tlvt t.tlvl t.org t.sub)

  unfoldable pub check_follow_up_minimum_and_tlv_arms : Harness V.State → Harness V.State
  check_follow_up_minimum_and_tlv_arms h =
      let h = expect_unwritten V (put_origin 0x2FAF0800 (common (fu_hdr 0x0F44 1) 10)) h in
      let h = expect_unwritten V (cut 1 (declare 75 (whole_fu 0x0F4B))) h in
      let h = expect_dropped V (cut 1 (whole_fu 0x0F4C)) h in
      let h = for_each bad_tlv_arm bad_tlvs h in
      let h =
        block V
          (λ d0 c.
            expect_no_drop V d0 (expect_word 11 fu_w11 (expect_seq 0x0F76 (expect_event 2 c))))
          (whole_fu 0x0F76) h in
      let tail = put_u16 (put_u16 (declare 88 (whole_fu 0x0F88)) 0x0008) 8 in
      block V (λ d0 c. expect_no_drop V d0 (expect_word 11 fu_w11 (expect_event 2 c)))
        (put_u64 tail 0x3333333333333333) h
