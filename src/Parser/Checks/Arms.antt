-- ===== src/Parser/Checks/Arms.antt =====
-- tb/verilator/parser/sim_main.cpp, the arms on the header: `check_pdelay_resp`,
-- `check_header_level_drop_arms`, `check_foreign_domain_is_refused_for_every_type` and
-- `check_unlisted_message_types_are_refused`.
use fpga_g_ptp.Base.{ℕ, ◌+◌, Bool, true, false, List, [], ◌∷◌, for_each, u16}
use fpga_g_ptp.Harness.Verilated.{Verilated}
use fpga_g_ptp.Wire.{Frame, put_u8, put_u16, put_u32, put_u48, put_u64}
use fpga_g_ptp.Parser.Frames.{Hdr, default_hdr, common, fill, w0_of}
use fpga_g_ptp.Parser.Feed.{ParserIn, ParserOut, Harness, feed}
use fpga_g_ptp.Parser.Expect.{
  expect_word, expect_event, expect_seq, expect_silent, drops, expect_no_drop, block,
  expect_unwritten,
}
use fpga_g_ptp.Parser.Checks.FollowUp.{put_origin}

-- The header of most arms, from the peer of the Pdelay and Announce frames.
abbrev pub peer_hdr : (mtype seq : ℕ) → Hdr
peer_hdr mtype seq = record default_hdr {
  mtype = mtype;
  seq = seq;
  srcid = 0x00220FFFFE334455;
  srcpn = 2;
}

-- The header of the Sync arms.
abbrev pub master_hdr : (mtype seq : ℕ) → Hdr
master_hdr mtype seq = record default_hdr {
  mtype = mtype;
  seq = seq;
  flags = 0x0208;
  srcid = 0xAABBCCFFFE001122;
  srcpn = 1;
  logint = 0xFD;
}

-- A Sync-shaped frame of 44 octets.
unfoldable pub sync_of : Hdr → Frame
sync_of h = put_origin 0x1DCD6500 (common h 10)

-- A Pdelay_Resp: requestReceiptTimestamp and requestingPortIdentity.
unfoldable pub pdresp_of : Hdr → Frame
pdresp_of h =
    let f = put_u32 (put_u48 (common h 20) 0x00000000ABCD) 0x075BCD15 in
    put_u16 (put_u64 f 0xDEADBEEFCAFEF00D) 1

-- A Pdelay_Req: two reserved fields.
unfoldable pub pdreq_of : Hdr → Frame
pdreq_of h = fill 20 0 (common h 20)

-- A Signaling message: the targetPortIdentity.
unfoldable pub signaling_of : Hdr → Frame
signaling_of h = put_u16 (put_u64 (common h 10) 0xFFFFFFFFFFFFFFFF) 0xFFFF

-- The better-priority Announce of domain 1.
abbrev pub domain_1_hdr : Hdr
domain_1_hdr = record (peer_hdr 0xB 0x0D01) { dom = 1; flags = 0x0008 }

unfoldable pub domain_1_announce : Frame
domain_1_announce =
    let f = put_u8 (put_u16 (fill 10 0 (common domain_1_hdr 30)) 0xFFC4) 0 in
    let f = put_u8 (put_u32 (put_u8 f 1) 0xF8FE436A) 248 in
    put_u8 (put_u16 (put_u64 f 0x00220FFFFE334455) 0) 0xA0

-- Ten zero octets behind a header that is refused.
unfoldable pub zeros_behind : Hdr → Frame
zeros_behind h = fill 10 0 (common h 10)

-- `0x1` and the other values of `unlisted`
abbrev pub unlisted : List ℕ
unlisted = 0x1 ∷ 0x4 ∷ 0x5 ∷ 0x6 ∷ 0x7 ∷ 0x9 ∷ 0xD ∷ 0xE ∷ 0xF ∷ []

module _ (V : Verilated ParserIn ParserOut) where
  unfoldable pub check_pdelay_resp : Harness V.State → Harness V.State
  check_pdelay_resp h =
      let hdr = record (peer_hdr 0x3 0x77AA) { flags = 0x0200 } in
      let h = expect_event 5 (feed V (pdresp_of hdr) false h) in
      let h = expect_word 5 0x075BCD15 (expect_word 4 0x00000000ABCD h) in
      expect_word 7 1 (expect_word 6 0xDEADBEEFCAFEF00D h)

  -- `feed(f.b, err); expect_eq(n, ev_seen, 0);`
  unfoldable pub feed_silent : (err_at_eof : Bool) → Frame → Harness V.State → Harness V.State
  feed_silent err_at_eof f h = expect_silent (feed V f err_at_eof h)

  unfoldable pub check_header_level_drop_arms : Harness V.State → Harness V.State
  check_header_level_drop_arms h =
      let h = record h { drops0 = drops V h } in
      let h = feed_silent false (zeros_behind (record default_hdr { etype = 0x0800 })) h in
      let h = feed_silent false (zeros_behind (record default_hdr { ver = 1 })) h in
      let h = feed_silent false (zeros_behind (record default_hdr { ts_field = 0 })) h in
      let h = feed_silent false (zeros_behind (record default_hdr { mtype = 0xB })) h in
      feed_silent true (put_u32 (put_u48 (common default_hdr 10) 1) 2) h

  -- The Sync, the Announce and the Pdelay_Resp of a foreign domain.
  unfoldable pub foreign_payloads : Harness V.State → Harness V.State
  foreign_payloads h =
      let h = expect_unwritten V (sync_of (record (master_hdr 0x0 0x0D05) { dom = 5 })) h in
      let h = expect_unwritten V domain_1_announce h in
      let resp = record (peer_hdr 0x3 0x0DFF) { dom = 0xFF; flags = 0x0200 } in
      expect_unwritten V (pdresp_of resp) h

  -- The header-only types in domain 0, which are dispatched; their drops are not compared.
  unfoldable pub header_only_controls : Harness V.State → Harness V.State
  header_only_controls h =
      let req = peer_hdr 0x2 0x0C02 in
      let h = expect_event 4 (feed V (pdreq_of req) false h) in
      let h = expect_word 2 req.srcid (expect_word 0 (w0_of req) h) in
      let sig = record (peer_hdr 0xC 0x0C0C) { flags = 0x0008 } in
      expect_word 0 (w0_of sig) (expect_event 7 (feed V (signaling_of sig) false h))

  -- The same types in a foreign domain.
  unfoldable pub foreign_header_only : Harness V.State → Harness V.State
  foreign_header_only h =
      let h = expect_unwritten V (pdreq_of (record (peer_hdr 0x2 0x0D10) { dom = 0x10 })) h in
      expect_unwritten V
        (signaling_of (record (peer_hdr 0xC 0x0D80) { dom = 0x80; flags = 0x0008 })) h

  unfoldable pub check_foreign_domain_is_refused_for_every_type : Harness V.State → Harness V.State
  check_foreign_domain_is_refused_for_every_type h =
      foreign_header_only (header_only_controls (foreign_payloads h))

  -- One value of `unlisted`.
  unfoldable pub unlisted_arm : (mt : ℕ) → Harness V.State → Harness V.State
  unlisted_arm mt = expect_unwritten V (sync_of (master_hdr mt (u16 (0x0E60 + mt))))

  unfoldable pub check_unlisted_message_types_are_refused : Harness V.State → Harness V.State
  check_unlisted_message_types_are_refused h =
      let h = for_each unlisted_arm unlisted h in
      let req = peer_hdr 0x2 0x0E54 in
      block V
        (λ d0 c. expect_no_drop V d0 (
          expect_word 2 req.srcid
            (expect_word 0 (w0_of req) (expect_seq 0x0E54 (expect_event 4 c)))))
        (pdreq_of req) h
