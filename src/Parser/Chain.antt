-- ===== src/Parser/Chain.antt =====
-- tb/verilator/parser/sim_main.cpp, the Follow_Up TLV chains: `FuTlv`, `tlv_of`, `info_tlv` and
-- `fu_chain_frame`.
pub mod Laws
use fpga_g_ptp.Base.{
  ℕ, ◌+◌, ◌-◌, ◌^◌, ◌/◌, ◌%◌, List, [], ◌∷◌, ◌++◌, ◌==◌, if◌then◌else◌, length, replicate, set, u8,
  u16, ◌>>>◌,
}
use fpga_g_ptp.Wire.{Frame, put_u16, put_u32, put_u48}
use fpga_g_ptp.Parser.Frames.{Hdr, default_hdr, common, put_bytes, set_declared_to_physical}

pub record FuTlv : Type 0 where
  pub type : ℕ
  pub len : ℕ  -- `length`, as written on the wire
  pub value : List ℕ

unfoldable pub tlv_of : (type : ℕ) (value : List ℕ) → FuTlv
tlv_of type value = record { type = type; len = u16 (length value); value = value }

unfoldable pub info_tlv : (csro tbi sub : ℕ) → FuTlv
unfolding tlv_of
info_tlv csro tbi sub = tlv_of 0x0003 (
    (0x00 ∷ 0x80 ∷ 0xC2 ∷ 0x00 ∷ 0x00 ∷ sub ∷ [])
    ++ ((u8 (csro >>> 24) ∷ u8 (csro >>> 16) ∷ u8 (csro >>> 8) ∷ u8 csro ∷ [])
        ++ ((u8 (tbi >>> 8) ∷ u8 tbi ∷ [])
            ++ (replicate 12 0x00 ++ (0x00 ∷ 0x00 ∷ 0x01 ∷ 0x23 ∷ [])))))

unfoldable pub put_chain : List FuTlv → Frame → Frame
put_chain [] f = f
put_chain (t ∷ chain) f = put_chain chain (put_bytes (put_u16 (put_u16 f t.type) t.len) t.value)

abbrev pub chain_hdr : (seq : ℕ) → Hdr
chain_hdr seq = record default_hdr { mtype = 0x8; seq = seq; srcid = 0xAABBCCFFFE001122; srcpn = 1 }

-- `declared` 0 stands for every octet of the chain.
unfoldable pub fu_chain_frame : (seq : ℕ) → List FuTlv → (declared pad : ℕ) → Frame
unfolding put_chain
fu_chain_frame seq chain declared pad =
    let f = put_u32 (put_u48 (common (chain_hdr seq) 10) 0x000012345678) 0x2FAF0800 in
    let f = set_declared_to_physical (put_chain chain f) in
    let f = if declared == 0 then f else set (set f 16 (u8 (declared >>> 8))) 17 (u8 declared) in
    f ++ replicate pad 0x00
