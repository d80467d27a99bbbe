-- ===== src/Tsngen/Peer/Laws.antt =====
-- The frames of the responder, and the clocks that a pump gives the engine.
use fpga_g_ptp.Base.{
  ℕ, ◌+◌, ◌-◌, ◌/◌, ◌%◌, ◌^◌, ◌<◌, ◌≡◌, ◌∙◌, List, [], ◌∷◌, arith, append_assoc, append-nil, length,
  bit_or, ◌>>>◌, take, drop,
}
use fpga_g_ptp.Base.Bits.{bit_or_fields, bit_and_mask}
use fpga_g_ptp.Wire.BigEndian.{put_u8-append, put_u16-append, put_u32-append, put_u64-append}
use fpga_g_ptp.Wire.Layout.{encode, length-encode, fld-encode, fld16-encode}
use fpga_g_ptp.Wire.Read.{fld, fld64, fld16, seq_of, type_of}
use fpga_g_ptp.Engine.Const.{peer_cid}
use fpga_g_ptp.Tsngen.Peer.{pd_answer}

ruleset appends =
    (put_u8-append, put_u16-append, put_u32-append, put_u64-append, append_assoc, append-nil)

-- The common header and the body of a Pdelay_Resp or a Pdelay_Resp_Follow_Up, field by field.
abbrev pub answer_table : (mtype seq flags logint ts_ns rq_cid : ℕ) → List (ℕ × ℕ)
answer_table mtype seq flags logint ts_ns rq_cid =
    (2, 0x0180)
    ∷ (4, 0xC200000E)
    ∷ (2, 0x0080)
    ∷ (4, 0xE1112233)
    ∷ (2, 0x88F7)
    ∷ (1, bit_or 0x10 mtype)
    ∷ (1, 0x02)
    ∷ (2, 54)
    ∷ (1, 0)
    ∷ (1, 0)
    ∷ (2, flags)
    ∷ (8, 0)
    ∷ (4, 0)
    ∷ (8, peer_cid)
    ∷ (2, 1)
    ∷ (2, seq)
    ∷ (1, 0x05)
    ∷ (1, logint)
    ∷ (2, (ts_ns / 1000000000) >>> 32)
    ∷ (4, ts_ns / 1000000000)
    ∷ (4, ts_ns % 1000000000)
    ∷ (8, rq_cid)
    ∷ (2, 1)
    ∷ []

pd_answer-encode :
    (mtype seq flags logint ts_ns rq_cid : ℕ)
    → pd_answer mtype seq flags logint ts_ns rq_cid
      ≡ encode (answer_table mtype seq flags logint ts_ns rq_cid)
unfolding pd_answer
pd_answer-encode mtype seq flags logint ts_ns rq_cid = simp appends

module _ (mtype seq flags logint ts_ns rq_cid : ℕ) where
  abbrev table : List (ℕ × ℕ)
  table = answer_table mtype seq flags logint ts_ns rq_cid

  long : 45 < length (encode table)
  long = rw (length-encode table) (omega arith)

  seq_at : seq_of (encode table) ≡ seq % 2 ^ 16
  unfolding seq_of
  seq_at = ground (arith, long, fld16-encode (take 15 table) (encode (drop 16 table)) seq)

  type_at : mtype < 16 → type_of (encode table) ≡ mtype
  unfolding type_of
  type_at h = ground (arith, long, bit_or_fields 4 1 mtype, bit_and_mask 4 (16 + mtype))

  -- An answer of the responder is 68 octets and declares 54, and its type, sequence, seconds, nanoseconds and requesting clock read back
  -- as they were given.
  pub pd_answer_lem :
      mtype < 16
      → seq < 2 ^ 16
      → ts_ns < 2 ^ 64
      → rq_cid < 2 ^ 64
      → let f = pd_answer mtype seq flags logint ts_ns rq_cid in
        (length f ≡ 68)
        × (fld16 f 16 ≡ length f - 14)
        × (type_of f ≡ mtype)
        × (seq_of f ≡ seq)
        × (fld16 f 48 ≡ ts_ns / 1000000000 / 2 ^ 32)
        × (fld 4 f 50 ≡ ts_ns / 1000000000 % 2 ^ 32)
        × (fld 4 f 54 ≡ ts_ns % 1000000000)
        × (fld64 f 58 ≡ rq_cid)
  unfolding fld64
  pd_answer_lem hm hs ht hr = rw (pd_answer-encode mtype seq flags logint ts_ns rq_cid) (
    length-encode table,
    fld16-encode (take 7 table) (encode (drop 8 table)) 54 ∙ omega (arith, length-encode table),
    type_at hm,
    seq_at ∙ omega arith,
    fld16-encode (take 18 table) (encode (drop 19 table)) ((ts_ns / 1000000000) >>> 32)
        ∙ omega arith,
    fld-encode (take 19 table) (encode (drop 20 table)) 4 (ts_ns / 1000000000) (omega arith),
    fld-encode (take 20 table) (encode (drop 21 table)) 4 (ts_ns % 1000000000) (omega arith)
        ∙ omega arith,
    fld-encode (take 21 table) (encode (drop 22 table)) 8 rq_cid (omega arith) ∙ omega arith,
  )
