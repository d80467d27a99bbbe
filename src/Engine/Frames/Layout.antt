-- ===== src/Engine/Frames/Layout.antt =====
-- The frames of the engine suite against the tables of 802.1AS-2011: each builder writes its table,
-- field by field, so that every field stands at its offset and messageLength counts the message.
use fpga_g_ptp.Base.{
  ℕ, ◌+◌, Bool, true, false, ◌*◌, ◌/◌, ◌%◌, ◌≡◌, refl, sym, ap, ◌∙◌, arith, List, [], ◌∷◌, ◌++◌,
  append_assoc, append-nil, bit_or, u16, u64, length, ◌==◌, if◌then◌else◌,
}
use fpga_g_ptp.Wire.{Frame, put_u64}
use fpga_g_ptp.Wire.BigEndian.{
  big_endian, put_u8-append, put_u16-append, put_u32-append, put_u48-append, put_u64-append,
  put_ts-append,
}
use fpga_g_ptp.Wire.Layout.{encode, width}
use fpga_g_ptp.Engine.Frames.{ptp, put_zeros, follow_up, put_hops, send_announce_frame}
use fpga_g_ptp.Engine.Const.{our_cq}

ruleset appends = (
  put_u8-append, put_u16-append, put_u32-append, put_u48-append, put_u64-append, put_ts-append,
  append_assoc, append-nil,
)

-- Ethernet header and Table 10-4, the common header.
abbrev pub header : (mtype seq corr flags body_len src : ℕ) → List (ℕ × ℕ)
header mtype seq corr flags body_len src =
    (6, 0x0180C200000E)
    ∷ (6, 0x0080E1112233)
    ∷ (2, 0x88F7)
    ∷ (1, bit_or 0x10 mtype)
    ∷ (1, 0x02)
    ∷ (2, 34 + body_len)
    ∷ (1, 0)
    ∷ (1, 0)
    ∷ (2, flags)
    ∷ (8, corr)
    ∷ (4, 0)
    ∷ (8, src)
    ∷ (2, 1)
    ∷ (2, seq)
    ∷ (1, 0x05)
    ∷ (1, (if mtype == 0xB then 0 else 0x7F))
    ∷ []

pub ptp-encode :
    (mtype seq corr flags body_len src : ℕ)
    → ptp mtype seq corr flags body_len src ≡ encode (header mtype seq corr flags body_len src)
unfolding ptp
ptp-encode mtype seq corr flags body_len src = simp appends

-- Table 11-9: preciseOriginTimestamp and the Follow_Up information TLV of Table 11-10.
abbrev pub follow_up_body : (origin : ℕ) → List (ℕ × ℕ)
follow_up_body origin =
    (6, u64 origin / 1_000_000_000)
    ∷ (4, u64 origin % 1_000_000_000)
    ∷ (2, 0x0003)
    ∷ (2, 28)
    ∷ (3, 0x0080C2)
    ∷ (3, 1)
    ∷ (4, 0)
    ∷ (2, 0)
    ∷ (12, 0)
    ∷ (4, 0)
    ∷ []

pub follow_up-encode :
    (seq corr origin src flags : ℕ)
    → follow_up seq corr origin src flags
      ≡ encode (header 0x8 seq corr flags 42 src ++ follow_up_body origin)
unfolding follow_up ptp put_zeros
follow_up-encode seq corr origin src flags = simp appends

-- Table 10-7 up to timeSource.
abbrev pub announce_fields : (p1 gmid steps : ℕ) → List (ℕ × ℕ)
announce_fields p1 gmid steps =
    (10, 0)
    ∷ (2, 0xFFC4)
    ∷ (1, 0)
    ∷ (1, p1)
    ∷ (4, our_cq)
    ∷ (1, 248)
    ∷ (8, gmid)
    ∷ (2, steps)
    ∷ (1, 0xA0)
    ∷ []

-- The pathSequence of Table 10-8, eight octets a hop.
abbrev pub hop_fields : List ℕ → List (ℕ × ℕ)
hop_fields [] = []
hop_fields (hop ∷ path) = (8, hop) ∷ hop_fields path

put_hops-encode : (path : List ℕ) (a : Frame) → put_hops path a ≡ a ++ encode (hop_fields path)
unfolding put_hops
put_hops-encode [] a = sym (append-nil a)
put_hops-encode (hop ∷ path) a =
    put_hops-encode path (put_u64 a hop)
    ∙ ap (λ t. t ++ encode (hop_fields path)) (put_u64-append a hop)
    ∙ append_assoc a (big_endian 8 hop) (encode (hop_fields path))

width-hop_fields : (path : List ℕ) → width (hop_fields path) ≡ 8 * length path
width-hop_fields [] = refl
width-hop_fields (hop ∷ path) = omega (arith, width-hop_fields path)

abbrev pub path_tlv_fields : List ℕ → List (ℕ × ℕ)
path_tlv_fields path = (2, 0x0008) ∷ (2, 8 * length path) ∷ hop_fields path

-- The TLV that the path and the flag call for: none for an empty path without the flag.
abbrev pub tlv_fields : List ℕ → Bool → List (ℕ × ℕ)
tlv_fields [] false = []
tlv_fields [] true = path_tlv_fields []
tlv_fields (hop ∷ path) empty_tlv = path_tlv_fields (hop ∷ path)

-- Its octets, header included.
abbrev pub tlv_length : List ℕ → Bool → ℕ
tlv_length [] false = 0
tlv_length [] true = 4
tlv_length (hop ∷ path) empty_tlv = 4 + 8 * length (hop ∷ path)

pub width-tlv_fields :
    (path : List ℕ) (empty_tlv : Bool)
    → width (tlv_fields path empty_tlv) ≡ tlv_length path empty_tlv
width-tlv_fields [] false = refl
width-tlv_fields [] true = refl
width-tlv_fields (hop ∷ path) empty_tlv = omega (arith, width-hop_fields path)

abbrev pub send_announce_table : (seq p1 gmid steps src : ℕ) → List ℕ → Bool → List (ℕ × ℕ)
send_announce_table seq p1 gmid steps src path empty_tlv =
    header 0xB seq 0 0x0008 (u16 (30 + u16 (tlv_length path empty_tlv))) src
    ++ (announce_fields p1 gmid steps ++ tlv_fields path empty_tlv)

pub send_announce_frame-encode :
    (seq p1 gmid steps src : ℕ) (path : List ℕ) (empty_tlv : Bool)
    → send_announce_frame seq p1 gmid steps src path empty_tlv
      ≡ encode (send_announce_table seq p1 gmid steps src path empty_tlv)
unfolding send_announce_frame ptp put_zeros put_hops
send_announce_frame-encode seq p1 gmid steps src [] true = simp appends
send_announce_frame-encode seq p1 gmid steps src [] false = simp appends
send_announce_frame-encode seq p1 gmid steps src (hop ∷ path) empty_tlv =
    simp (put_hops-encode, appends)
