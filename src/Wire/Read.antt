-- ===== src/Wire/Read.antt =====
-- What the harnesses read out of a frame: `fld16` to `fld64` of the engine suite, and the two tags
-- of the boundary stamper. A read past the end of a vector, which C++ leaves undefined, gives 0.
use fpga_g_ptp.Base.{
  ℕ, ◌+◌, bit_and, bit_or, u8, u16, u32, u64, ◌<<<◌, ltb, get_or, length, if◌then◌else◌, for_range,
}
use fpga_g_ptp.Wire.{Frame}

abbrev pub byte_at : Frame → ℕ → ℕ
byte_at f i = get_or f i 0

-- `v = (v << 8) | f[o + i]` for `n` bytes
unfoldable pub fld : ℕ → Frame → ℕ → ℕ
unfolding for_range
fld n f o = for_range n 0 (λ i v. bit_or (u64 (v <<< 8)) (byte_at f (o + i))) 0

unfoldable pub fld48 : Frame → ℕ → ℕ
fld48 = fld 6

unfoldable pub fld64 : Frame → ℕ → ℕ
fld64 = fld 8

unfoldable pub fld32 : Frame → ℕ → ℕ
fld32 f o = u32 (
    bit_or
      (bit_or (bit_or (byte_at f o <<< 24) (byte_at f (o + 1) <<< 16)) (byte_at f (o + 2) <<< 8))
      (byte_at f (o + 3)))

unfoldable pub fld16 : Frame → ℕ → ℕ
fld16 f o = u16 (bit_or (byte_at f o <<< 8) (byte_at f (o + 1)))

-- The sequenceId, frame bytes 44 and 45.
unfoldable pub seq_of : Frame → ℕ
unfolding fld16
seq_of f = if ltb 45 (length f) then fld16 f 44 else 0

-- The messageType, low nibble of frame byte 14.
unfoldable pub type_of : Frame → ℕ
type_of f = if ltb 14 (length f) then u8 (bit_and (byte_at f 14) 0xf) else 0
