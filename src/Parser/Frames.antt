-- ===== src/Parser/Frames.antt =====
-- tb/verilator/parser/sim_main.cpp, the frame builders of the parser suite.
pub mod Laws
use fpga_g_ptp.Base.{
  ℕ, zero, suc, ◌+◌, ◌-◌, ◌*◌, ◌/◌, ◌%◌, ◌^◌, List, [], ◌∷◌, if◌then◌else◌, length, is_empty, set,
  bit_and, bit_or, u8, u16, ◌<<<◌, ◌>>>◌, repeat,
}
use fpga_g_ptp.Wire.{Frame, put_u8, put_u16, put_u32, put_u64}

pub record Hdr : Type 0 where
  pub mtype : ℕ
  pub dom : ℕ
  pub logint : ℕ
  pub ts_field : ℕ
  pub ver : ℕ
  pub seq : ℕ
  pub flags : ℕ
  pub etype : ℕ
  pub corr : ℕ
  pub srcid : ℕ
  pub srcpn : ℕ

-- The values of the member initialisers.
abbrev pub default_hdr : Hdr
default_hdr = record {
  mtype = 0;
  dom = 0;
  logint = 0x7F;
  ts_field = 1;
  ver = 2;
  seq = 0;
  flags = 0;
  etype = 0x88F7;
  corr = 0;
  srcid = 0;
  srcpn = 0;
}

-- `for (int i = 0; i < n; i++) f.u8(v);`
unfoldable pub fill : (n v : ℕ) → Frame → Frame
fill zero v f = f
fill (suc n) v f = fill n v (put_u8 f v)

unfoldable pub common : Hdr → (body_len : ℕ) → Frame
unfolding fill
common h body_len =
    let f = fill 6 0x22 (fill 6 0x01 []) in
    let f = put_u16 f h.etype in
    let f = put_u8 f (u8 (bit_or (h.ts_field <<< 4) (bit_and h.mtype 0xF))) in
    let f = put_u8 f h.ver in
    let f = put_u16 f (u16 (34 + body_len)) in
    let f = put_u8 (put_u8 f h.dom) 0 in
    let f = put_u16 f h.flags in
    let f = put_u32 (put_u64 f h.corr) 0 in
    let f = put_u16 (put_u64 f h.srcid) h.srcpn in
    let f = put_u16 f h.seq in put_u8 (put_u8 f 0x05) h.logint

-- Word 0 of the message bank, as the parser packs the header.
unfoldable pub w0_of : Hdr → ℕ
w0_of h =
    bit_or
      (bit_or (bit_or (bit_or (bit_and h.mtype 0xF <<< 48) (h.seq <<< 32)) (h.dom <<< 24))
        (h.flags <<< 8))
      h.logint

unfoldable pub put_hops : Frame → List ℕ → Frame
put_hops f [] = f
put_hops f (hop ∷ path) = put_hops (put_u64 f hop) path

abbrev pub announce_hdr : (seq src : ℕ) → Hdr
announce_hdr seq src = record default_hdr {
  mtype = 0xB;
  seq = seq;
  flags = 0x0008;
  srcid = src;
  srcpn = 1;
}

unfoldable pub announce_frame : (seq gm steps src : ℕ) (path : List ℕ) → Frame
unfolding common fill put_hops
announce_frame seq gm steps src path =
    let suffix = if is_empty path then 0 else u16 (4 + 8 * length path) in
    let f = fill 10 0 (common (announce_hdr seq src) (u16 (30 + suffix))) in
    let f = put_u8 (put_u16 f 0xFFC4) 0 in
    let f = put_u8 (put_u32 (put_u8 f 100) 0xF8FE436A) 248 in
    let f = put_u8 (put_u16 (put_u64 f gm) steps) 0xA0 in
    if is_empty path then f else put_hops (put_u16 (put_u16 f 0x0008) (u16 (8 * length path))) path

unfoldable pub set_declared_to_physical : Frame → Frame
set_declared_to_physical f = let n = u16 (length f - 14) in set (set f 16 (n >>> 8)) 17 (u8 n)

unfoldable pub put_bytes : Frame → List ℕ → Frame
put_bytes f [] = f
put_bytes f (b ∷ bs) = put_bytes (put_u8 f b) bs

unfoldable pub append_tlv : (type : ℕ) (value : List ℕ) → Frame → Frame
unfolding put_bytes set_declared_to_physical
append_tlv type value f =
    set_declared_to_physical (put_bytes (put_u16 (put_u16 f type) (u16 (length value))) value)

unfoldable pub append_path_tlv : (path : List ℕ) → Frame → Frame
unfolding put_hops set_declared_to_physical
append_path_tlv path f =
    set_declared_to_physical (put_hops (put_u16 (put_u16 f 0x0008) (u16 (8 * length path))) path)
