-- ===== src/Parser/Frames/Laws.antt =====
-- What a receiver reads of the frames of the parser suite.
use fpga_g_ptp.Base.{
  ℕ, ◌+◌, ◌-◌, ◌*◌, ◌/◌, ◌%◌, ◌^◌, ◌≤◌, ◌<◌, ◌≡◌, sym, ap, ◌∙◌, arith, List, [], ◌∷◌, bit_or,
  bit_and, u8, u16, ◌>>>◌, length, length-set, length-snoc, get_or-set_self, get_or-set_ne, set,
}
use fpga_g_ptp.Base.Bits.{bit_or_fields, bit_and_mask}
use fpga_g_ptp.Wire.{Frame, put_u8, put_u16}
use fpga_g_ptp.Wire.Read.{fld16}
use fpga_g_ptp.Parser.Frames.{Hdr, w0_of, put_bytes, set_declared_to_physical, append_tlv}

-- A field below the lowest set bit of the rest is added.
or_at : (k x lo : ℕ) → x / 2 ^ k * 2 ^ k ≡ x → lo < 2 ^ k → bit_or x lo ≡ x + lo
or_at k x lo e h =
    ap (λ (t : ℕ). bit_or t lo) (sym e) ∙ bit_or_fields k (x / 2 ^ k) lo h ∙ omega (arith, e)

-- Word 0 of a header whose fields are of their widths holds each field at its place: the low eight bits, the flags at 8, the domain
-- at 24, the sequence at 32 and the low four bits of the message type at 48.
pub w0_of_lem :
    (h : Hdr)
    → h.logint < 2 ^ 8
    → h.flags < 2 ^ 16
    → h.dom < 2 ^ 8
    → h.seq < 2 ^ 16
    → let w = w0_of h in
      (w % 2 ^ 8 ≡ h.logint)
      × (w / 2 ^ 8 % 2 ^ 16 ≡ h.flags)
      × (w / 2 ^ 24 % 2 ^ 8 ≡ h.dom)
      × (w / 2 ^ 32 % 2 ^ 16 ≡ h.seq)
      × (w / 2 ^ 48 ≡ h.mtype % 16)
unfolding w0_of
w0_of_lem h l f d s =
    let m = bit_and_mask 4 h.mtype in
    let a =
      or_at 48 (bit_and h.mtype 0xF * 2 ^ 48) (h.seq * 2 ^ 32) (omega (arith, m)) (omega arith) in
    let x = bit_or (bit_and h.mtype 0xF * 2 ^ 48) (h.seq * 2 ^ 32) in
    let b = or_at 32 x (h.dom * 2 ^ 24) (omega (arith, a, m)) (omega arith) in
    let y = bit_or x (h.dom * 2 ^ 24) in
    let c = or_at 24 y (h.flags * 2 ^ 8) (omega (arith, a, b, m)) (omega arith) in
    let z = bit_or y (h.flags * 2 ^ 8) in
    let e = or_at 8 z h.logint (omega (arith, a, b, c, m)) (omega arith) in
    (
      omega (arith, a, b, c, e, m),
      omega (arith, a, b, c, e, m),
      omega (arith, a, b, c, e, m),
      omega (arith, a, b, c, e, m),
      omega (arith, a, b, c, e, m),
    )

length-put_u8 : (f : Frame) (v : ℕ) → length (put_u8 f v) ≡ length f + 1
unfolding put_u8
length-put_u8 f v = omega (arith, length-snoc f (u8 v))

pub length-put_u16 : (f : Frame) (v : ℕ) → length (put_u16 f v) ≡ length f + 2
unfolding put_u16
length-put_u16 f v = omega (
  arith,
  length-put_u8 (put_u8 f (u16 v >>> 8)) (bit_and (u16 v) 0xff),
  length-put_u8 f (u16 v >>> 8),
)

pub length-put_bytes : (f : Frame) (bs : List ℕ) → length (put_bytes f bs) ≡ length f + length bs
unfolding put_bytes
length-put_bytes f [] = omega arith
length-put_bytes f (b ∷ bs) = omega (arith, length-put_bytes (put_u8 f b) bs, length-put_u8 f b)

-- Any frame long enough to have the field, and short enough for it, declares its physical length.
declared :
    (f : Frame)
    → 18 ≤ length f
    → length f < 2 ^ 16
    → let g = set_declared_to_physical f in (length g ≡ length f) × (fld16 g 16 ≡ length f - 14)
unfolding set_declared_to_physical fld16
declared f h k = (
  length-set (set f 16 hi) 17 lo ∙ length-set f 16 hi,
  rw
      (
        get_or-set_ne (set f 16 hi) 17 16 lo 0 (λ e. absurd (omega arith)),
        get_or-set_self f 16 hi 0 (omega arith),
        get_or-set_self (set f 16 hi) 17 lo 0 (omega (arith, length-set f 16 hi)),
        bit_or_fields 8 hi lo (omega arith),
      )
      (omega arith),
)
  where
    hi : ℕ
    hi = (length f - 14) % 65536 / 256

    lo : ℕ
    lo = (length f - 14) % 65536 % 256

-- A TLV appended to a frame, as long as the declared length can say it, makes the frame longer by four octets and its value, and
-- messageLength again counts every octet behind the Ethernet header.
pub append_tlv_lem :
    (type : ℕ) (value : List ℕ) (f : Frame)
    → 18 ≤ length f
    → length f + 4 + length value < 2 ^ 16
    → let g = append_tlv type value f in
      (length g ≡ length f + 4 + length value) × (fld16 g 16 ≡ length g - 14)
unfolding append_tlv
append_tlv_lem type value f h k =
    let g = put_bytes (put_u16 (put_u16 f type) (u16 (length value))) value in
    let long : length g ≡ length f + 4 + length value = omega (
      arith,
      length-put_bytes (put_u16 (put_u16 f type) (u16 (length value))) value,
      length-put_u16 (put_u16 f type) (u16 (length value)),
      length-put_u16 f type,
    ) in
    let d = declared g (omega (arith, long)) (omega (arith, long)) in
    (d.0 ∙ long, d.1 ∙ ap (λ (n : ℕ). n - 14) (sym d.0))
