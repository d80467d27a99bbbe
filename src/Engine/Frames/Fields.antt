-- ===== src/Engine/Frames/Fields.antt =====
-- What a receiver reads back from the frames of the engine suite.
use fpga_g_ptp.Base.{
  ℕ, ◌+◌, Bool, ◌%◌, ◌^◌, ◌≤◌, ◌<◌, ◌≡◌, ◌∙◌, arith, List, [], ◌∷◌, ◌++◌, true, false, u16, u64,
  ◌/◌, length, take, drop,
}
use fpga_g_ptp.Base.Bits.{bit_or_fields, bit_and_mask}
use fpga_g_ptp.Wire.{Frame}
use fpga_g_ptp.Wire.Layout.{encode, length-encode, fld-encode, fld16-encode}
use fpga_g_ptp.Wire.Read.{fld, fld16, fld64, fld48, seq_of, type_of}
use fpga_g_ptp.Engine.Frames.{follow_up, send_announce_frame}
use fpga_g_ptp.Engine.Frames.Layout.{
  announce_fields, header, follow_up_body, follow_up-encode, tlv_fields, tlv_length,
  width-tlv_fields, send_announce_frame-encode,
}

-- What the common header of a frame says, at the offsets that the harness reads.
pub record Says (f : Frame) (mtype seq corr flags message_length src : ℕ) : Type 0 where
  pub type_read : type_of f ≡ mtype
  pub seq_read : seq_of f ≡ seq
  pub length_read : fld16 f 16 ≡ message_length
  pub flags_read : fld16 f 20 ≡ flags
  pub corr_read : fld64 f 22 ≡ corr
  pub src_read : fld64 f 34 ≡ src
  pub port_read : fld16 f 42 ≡ 1

module _ (mtype seq corr flags body_len src : ℕ) (rest : List (ℕ × ℕ)) where
  abbrev table : List (ℕ × ℕ)
  table = header mtype seq corr flags body_len src

  abbrev message : Frame
  message = encode (table ++ rest)

  long : 45 < length message
  long = rw (length-encode (table ++ rest)) (omega arith)

  seq_at : seq_of message ≡ seq % 2 ^ 16
  unfolding seq_of
  seq_at = ground (arith, long, fld16-encode (take 13 table) (encode (drop 14 table ++ rest)) seq)

  type_at : mtype < 16 → type_of message ≡ mtype
  unfolding type_of
  type_at h = ground (arith, long, bit_or_fields 4 1 mtype, bit_and_mask 4 (16 + mtype))

  -- The header that a builder writes is the header that is read, whatever follows it.
  header-Says :
      (n : ℕ)
      → 34 + body_len ≡ n
      → mtype < 16
      → seq < 2 ^ 16
      → flags < 2 ^ 16
      → 34 + body_len < 2 ^ 16
      → corr < 2 ^ 64
      → src < 2 ^ 64
      → Says message mtype seq corr flags n src
  unfolding fld64 fld
  header-Says n e m s fl b c r = record {
    type_read = type_at m;
    seq_read = seq_at ∙ omega arith;
    length_read =
        fld16-encode (take 5 table) (encode (drop 6 table ++ rest)) (34 + body_len) ∙ omega arith;
    flags_read = fld16-encode (take 8 table) (encode (drop 9 table ++ rest)) flags ∙ omega arith;
    corr_read =
        fld-encode (take 9 table) (encode (drop 10 table ++ rest)) 8 corr (omega arith)
        ∙ omega arith;
    src_read =
        fld-encode (take 11 table) (encode (drop 12 table ++ rest)) 8 src (omega arith)
        ∙ omega arith;
    port_read = fld16-encode (take 12 table) (encode (drop 13 table ++ rest)) 1 ∙ omega arith;
  }

-- A Follow_Up is 90 octets on the wire, and messageLength counts all but the Ethernet header. Its
-- header reads back as it was given, and so do the origin timestamp and, first behind it, the
-- tlvType, lengthField and organization identifiers of the information TLV.
pub follow_up_lem :
    (seq corr origin src flags : ℕ)
    → seq < 2 ^ 16
    → corr < 2 ^ 64
    → origin < 2 ^ 64
    → src < 2 ^ 64
    → flags < 2 ^ 16
    → let f = follow_up seq corr origin src flags in
      (length f ≡ 14 + 76)
      × Says f 0x8 seq corr flags 76 src
      × (fld48 f 48 ≡ origin / 1_000_000_000)
      × (fld 4 f 54 ≡ origin % 1_000_000_000)
      × (fld16 f 58 ≡ 0x0003)
      × (fld16 f 60 ≡ 28)
      × (fld48 f 62 ≡ 0x0080C2000001)
unfolding fld48 fld
follow_up_lem seq corr origin src flags hs hc ho hr hf =
    rw (follow_up-encode seq corr origin src flags) (
      length-encode (table ++ follow_up_body origin),
      header-Says 0x8 seq corr flags 42 src (follow_up_body origin) 76 (omega arith) (omega arith)
          hs hf (omega arith) hc hr,
      fld-encode table (encode (drop 1 body)) 6 (u64 origin / 1_000_000_000) (omega arith)
          ∙ omega arith,
      fld-encode (table ++ take 1 body) (encode (drop 2 body)) 4 (u64 origin % 1_000_000_000)
            (omega arith)
          ∙ omega arith,
      fld16-encode (table ++ take 2 body) (encode (drop 3 body)) 3,
      fld16-encode (table ++ take 3 body) (encode (drop 4 body)) 28,
      fld-encode (table ++ take 4 body) (encode (drop 6 body)) 6 0x0080C2000001 (omega arith),
    )
  where
    body : List (ℕ × ℕ)
    body = follow_up_body origin

    table : List (ℕ × ℕ)
    table = header 0x8 seq corr flags 42 src

-- Whatever its path and the TLV flag, an Announce is 78 octets and its path trace TLV, 4 octets and 8
-- a hop, or no octet for an empty path without the flag. messageLength counts all but the Ethernet
-- header, and the header, grandmasterIdentity and stepsRemoved read back as they were given.
pub send_announce_frame_lem :
    (seq p1 gmid steps src : ℕ) (path : List ℕ) (empty_tlv : Bool)
    → seq < 2 ^ 16
    → gmid < 2 ^ 64
    → steps < 2 ^ 16
    → src < 2 ^ 64
    → length path ≤ 8000
    → let f = send_announce_frame seq p1 gmid steps src path empty_tlv in
      (length f ≡ 14 + 64 + tlv_length path empty_tlv)
      × Says f 0xB seq 0 0x0008 (64 + tlv_length path empty_tlv) src
      × (fld64 f 67 ≡ gmid)
      × (fld16 f 75 ≡ steps)
unfolding fld64 fld
send_announce_frame_lem seq p1 gmid steps src path empty_tlv hs hg ht hr short =
    rw (send_announce_frame-encode seq p1 gmid steps src path empty_tlv) (
      length-encode (table ++ (body ++ tlv)) ∙ omega (arith, width-tlv_fields path empty_tlv),
      rw fits (
          header-Says 0xB seq 0 0x0008 (30 + tlv_length path empty_tlv) src (body ++ tlv) _
            (omega arith) (omega arith) hs (omega arith) (omega (arith, small path empty_tlv short))
            (omega arith) hr),
      fld-encode (table ++ take 6 body) (encode (drop 7 body ++ tlv)) 8 gmid (omega arith)
          ∙ omega arith,
      fld16-encode (table ++ take 7 body) (encode (drop 8 body ++ tlv)) steps ∙ omega arith,
    )
  where
    small : (p : List ℕ) (e : Bool) → length p ≤ 8000 → tlv_length p e ≤ 64004
    small [] true h = omega arith
    small [] false h = omega arith
    small (hop ∷ p) e h = omega arith

    fits : u16 (30 + u16 (tlv_length path empty_tlv)) ≡ 30 + tlv_length path empty_tlv
    fits = omega (arith, small path empty_tlv short)

    body : List (ℕ × ℕ)
    body = announce_fields p1 gmid steps

    tlv : List (ℕ × ℕ)
    tlv = tlv_fields path empty_tlv

    table : List (ℕ × ℕ)
    table = header 0xB seq 0 0x0008 (u16 (30 + u16 (tlv_length path empty_tlv))) src
