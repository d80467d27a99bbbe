-- ===== src/Wire.antt =====
-- `struct Frame` of the engine suite: an Ethernet frame under construction, one method for each
-- field width. The parser suite has the same structure, less `ts`.
pub mod BigEndian
pub mod Layout
pub mod Read
use fpga_g_ptp.Base.{ℕ, ◌/◌, ◌%◌, ◌^◌, bit_and, List, u8, u16, u32, u64, ◌>>>◌, snoc}

-- `std::vector<uint8_t> b`
abbrev pub Frame : Type 0
Frame = List ℕ

unfoldable pub put_u8 : Frame → ℕ → Frame
put_u8 f v = snoc f (u8 v)

unfoldable pub put_u16 : Frame → ℕ → Frame
put_u16 f v = let w = u16 v in put_u8 (put_u8 f (w >>> 8)) (bit_and w 0xff)

unfoldable pub put_u32 : Frame → ℕ → Frame
put_u32 f v = let w = u32 v in put_u16 (put_u16 f (w >>> 16)) (bit_and w 0xffff)

unfoldable pub put_u48 : Frame → ℕ → Frame
put_u48 f v =
    let w = u64 v in put_u32 (put_u16 f (bit_and (w >>> 32) 0xffff)) (bit_and w 0xffff_ffff)

unfoldable pub put_u64 : Frame → ℕ → Frame
put_u64 f v = let w = u64 v in put_u32 (put_u32 f (w >>> 32)) (bit_and w 0xffff_ffff)

-- A PTP timestamp: 48 bits of seconds and 32 bits of nanoseconds.
unfoldable pub put_ts : Frame → ℕ → Frame
put_ts f ns = let n = u64 ns in put_u32 (put_u48 f (n / 1_000_000_000)) (n % 1_000_000_000)
