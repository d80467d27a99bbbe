-- ===== src/Parser/Chain/Laws.antt =====
-- The lengths of a Follow_Up TLV chain.
use fpga_g_ptp.Base.{ℕ, ◌+◌, ◌≡◌, refl, arith, List, [], ◌∷◌, length}
use fpga_g_ptp.Wire.{Frame, put_u16}
use fpga_g_ptp.Parser.Frames.{put_bytes}
use fpga_g_ptp.Parser.Frames.Laws.{length-put_u16, length-put_bytes}
use fpga_g_ptp.Parser.Chain.{FuTlv, info_tlv, put_chain}

-- The octets of a chain: a header of four for each TLV, and its value.
abbrev pub chain_octets : List FuTlv → ℕ
chain_octets [] = 0
chain_octets (t ∷ chain) = 4 + length t.value + chain_octets chain

-- A chain written behind any frame makes it longer by four octets and the value of each of its TLVs, whatever their lengthFields
-- say, and the lengthField of an information TLV is 28, as its value is.
pub put_chain_lem :
    (chain : List FuTlv) (f : Frame) (csro tbi sub : ℕ)
    → (length (put_chain chain f) ≡ length f + chain_octets chain)
      × ((info_tlv csro tbi sub).len ≡ 28)
      × (length (info_tlv csro tbi sub).value ≡ 28)
unfolding put_chain info_tlv
put_chain_lem [] f csro tbi sub = (omega arith, refl, refl)
put_chain_lem (t ∷ chain) f csro tbi sub =
    let head = put_u16 (put_u16 f t.type) t.len in
    let rest = put_chain_lem chain (put_bytes head t.value) csro tbi sub in
    (
      omega (
        arith,
        rest.0,
        length-put_bytes head t.value,
        length-put_u16 (put_u16 f t.type) t.len,
        length-put_u16 f t.type,
      ),
      rest.1,
      rest.2,
    )
