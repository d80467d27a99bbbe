-- ===== src/Engine/Frames.antt =====
-- The frame builders of the engine suite: `ptp`, `follow_up`, and the Announce frames that
-- `announce` and `send_announce` inject.
pub mod Layout
pub mod Fields
use fpga_g_ptp.Base.{
  ℕ, ◌+◌, ◌*◌, ◌-◌, Bool, true, false, List, [], ◌∷◌, bit_or, u8, u16, u64, not, ◌||◌, length,
  is_empty, ◌==◌, leb, if◌then◌else◌, snoc, for_range,
}
use fpga_g_ptp.Wire.{Frame, put_u8, put_u16, put_u32, put_u48, put_u64, put_ts}
use fpga_g_ptp.Engine.Const.{our_cq}

abbrev ann_log_interval : ℕ
ann_log_interval = 0

-- The arguments are of type `uint8_t`, `uint16_t` and `uint64_t`.
unfoldable pub ptp : (mtype seq corr flags body_len src : ℕ) → Frame
ptp mtype seq corr flags body_len src =
    let f = put_u48 [] 0x0180C200000E in
    let f = put_u48 f 0x0080E1112233 in
    let f = put_u16 f 0x88F7 in
    let f = put_u8 f (bit_or 0x10 mtype) in
    let f = put_u8 f 0x02 in
    let f = put_u16 f (34 + body_len) in
    let f = put_u8 f 0 in
    let f = put_u8 f 0 in
    let f = put_u16 f flags in
    let f = put_u64 f corr in
    let f = put_u32 f 0 in
    let f = put_u64 f src in
    let f = put_u16 f 1 in
    let f = put_u16 f seq in
    let f = put_u8 f 0x05 in put_u8 f (if mtype == 0xB then ann_log_interval else 0x7F)

-- `for (int i = 0; i < n; i++) g.u8(0)`
unfoldable pub put_zeros : ℕ → Frame → Frame
unfolding for_range
put_zeros n g = for_range n 0 (λ i f. put_u8 f 0) g

unfoldable pub follow_up : (seq corr origin src flags : ℕ) → Frame
follow_up seq corr origin src flags =
    let g = ptp 0x8 seq corr flags 42 src in
    let g = put_ts g origin in
    let g = put_u16 g 0x0003 in
    let g = put_u16 g 28 in
    let g = put_u8 g 0x00 in
    let g = put_u8 g 0x80 in
    let g = put_u8 g 0xC2 in
    let g = put_u8 g 0x00 in
    let g = put_u8 g 0x00 in
    let g = put_u8 g 0x01 in
    let g = put_u32 g 0 in let g = put_u16 g 0 in let g = put_zeros 12 g in put_u32 g 0

-- `for (uint64_t hop : path) a.u64(hop)`
unfoldable pub put_hops : List ℕ → Frame → Frame
put_hops [] a = a
put_hops (hop ∷ path) a = put_hops path (put_u64 a hop)

-- The body that both Announce builders write behind the header.
announce_body : (p1 gmid steps : ℕ) → Frame → Frame
announce_body p1 gmid steps a =
    let a = put_zeros 10 a in
    let a = put_u16 a 0xFFC4 in
    let a = put_u8 a 0 in
    let a = put_u8 a p1 in
    let a = put_u32 a our_cq in
    let a = put_u8 a 248 in let a = put_u64 a gmid in let a = put_u16 a steps in put_u8 a 0xA0

path_tlv : List ℕ → Frame → Frame
path_tlv path a = put_hops path (put_u16 (put_u16 a 0x0008) (8 * length path))

-- The hops between the grandmaster and the announcing source: `i` counts from 1 while `i < steps`.
hops_between : (i left : ℕ) → List ℕ → List ℕ
hops_between i left path = for_range left i (λ j p. snoc p (0x00A000FFFE000000 + j)) path

-- The canonical path of `announce`.
unfoldable pub announce_path : (gmid steps src : ℕ) → List ℕ
unfolding hops_between
announce_path gmid steps src =
    let path = hops_between 1 (steps - 1) (gmid ∷ []) in if steps == 0 then path else snoc path src

-- The frame of `announce`.
unfoldable pub announce_frame : (seq p1 gmid steps src : ℕ) → Frame
unfolding announce_body path_tlv
announce_frame seq p1 gmid steps src =
    let path = announce_path gmid steps src in
    let tlv = u16 (4 + 8 * length path) in
    path_tlv path (announce_body p1 gmid steps (ptp 0xB seq 0 0x0008 (u16 (30 + tlv)) src))

-- The frame of `send_announce`.
unfoldable pub send_announce_frame :
    (seq p1 gmid steps src : ℕ) → List ℕ → (empty_tlv : Bool) → Frame
unfolding announce_body path_tlv
send_announce_frame seq p1 gmid steps src path empty_tlv =
    let has_tlv = not (is_empty path) || empty_tlv in
    let tlv = if has_tlv then u16 (4 + 8 * length path) else 0 in
    let a = announce_body p1 gmid steps (ptp 0xB seq 0 0x0008 (u16 (30 + tlv)) src) in
    if has_tlv then path_tlv path a else a
