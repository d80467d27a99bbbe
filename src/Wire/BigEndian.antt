-- ===== src/Wire/BigEndian.antt =====
-- Network byte order, and that each method of `Frame` appends its value in it.
use fpga_g_ptp.Base.{
  ℕ, zero, suc, ◌+◌, ◌*◌, ◌/◌, ◌%◌, ◌^◌, ◌<◌, ◌≡◌, refl, ap, ◌∙◌, arith, List, [], ◌∷◌, ◌++◌,
  append_assoc, bit_and, u16, u32, u64, ◌>>>◌, snoc-append, length,
}
use native.Mathlib.Nat.{
  pow-suc, one-le-pow, div-add-mod, mul-add-mod_self_left, mod-eq_of_lt, mod-lt,
}
use fpga_g_ptp.Base.Bits.{bit_and_mask}
use fpga_g_ptp.Wire.{Frame, put_u8, put_u16, put_u32, put_u48, put_u64, put_ts}

-- The last `n` bytes of `v`, the most significant first.
abbrev pub big_endian : ℕ → ℕ → List ℕ
big_endian zero v = []
big_endian (suc n) v = (v / 256 ^ n % 256) ∷ big_endian n v

pub length-big_endian : (n v : ℕ) → length (big_endian n v) ≡ n
length-big_endian zero v = refl
length-big_endian (suc n) v = ap suc (length-big_endian n v)

-- Reading bytes back, as `v = (v << 8) | byte` does.
abbrev pub read_from : ℕ → List ℕ → ℕ
read_from acc [] = acc
read_from acc (b ∷ bs) = read_from (acc * 256 + b) bs

pub put_u8-append : (f : Frame) (v : ℕ) → put_u8 f v ≡ f ++ big_endian 1 v
unfolding put_u8
put_u8-append f v = snoc-append f _ ∙ ap (λ (b : ℕ). f ++ (b ∷ [])) (omega arith)

-- Appending a word by its high and its low half.
module _ (f : Frame) (a b c : List ℕ) (g : Frame) where
  pub two_parts : g ≡ f ++ a → a ++ b ≡ c → g ++ b ≡ f ++ c
  two_parts high e = ap (λ t. t ++ b) high ∙ append_assoc f a b ∙ ap (λ t. f ++ t) e

halves16 :
    (v : ℕ) → big_endian 1 (u16 v >>> 8) ++ big_endian 1 (bit_and (u16 v) 0xff) ≡ big_endian 2 v
halves16 v = ground (arith, bit_and_mask 8 (u16 v))

pub put_u16-append : (f : Frame) (v : ℕ) → put_u16 f v ≡ f ++ big_endian 2 v
unfolding put_u16
put_u16-append f v =
    put_u8-append (put_u8 f (u16 v >>> 8)) (bit_and (u16 v) 0xff)
    ∙ two_parts f _ _ _ _ (put_u8-append f (u16 v >>> 8)) (halves16 v)

halves32 :
    (v : ℕ) → big_endian 2 (u32 v >>> 16) ++ big_endian 2 (bit_and (u32 v) 0xffff) ≡ big_endian 4 v
halves32 v = ground (arith, bit_and_mask 16 (u32 v))

pub put_u32-append : (f : Frame) (v : ℕ) → put_u32 f v ≡ f ++ big_endian 4 v
unfolding put_u32
put_u32-append f v =
    put_u16-append (put_u16 f (u32 v >>> 16)) (bit_and (u32 v) 0xffff)
    ∙ two_parts f _ _ _ _ (put_u16-append f (u32 v >>> 16)) (halves32 v)

parts48 :
    (v : ℕ)
    → big_endian 2 (bit_and (u64 v >>> 32) 0xffff) ++ big_endian 4 (bit_and (u64 v) 0xffff_ffff)
      ≡ big_endian 6 v
parts48 v = ground (arith, bit_and_mask 16 (u64 v >>> 32), bit_and_mask 32 (u64 v))

pub put_u48-append : (f : Frame) (v : ℕ) → put_u48 f v ≡ f ++ big_endian 6 v
unfolding put_u48
put_u48-append f v =
    put_u32-append (put_u16 f (bit_and (u64 v >>> 32) 0xffff)) (bit_and (u64 v) 0xffff_ffff)
    ∙ two_parts f _ _ _ _ (put_u16-append f (bit_and (u64 v >>> 32) 0xffff)) (parts48 v)

halves64 :
    (v : ℕ)
    → big_endian 4 (u64 v >>> 32) ++ big_endian 4 (bit_and (u64 v) 0xffff_ffff) ≡ big_endian 8 v
halves64 v = ground (arith, bit_and_mask 32 (u64 v))

pub put_u64-append : (f : Frame) (v : ℕ) → put_u64 f v ≡ f ++ big_endian 8 v
unfolding put_u64
put_u64-append f v =
    put_u32-append (put_u32 f (u64 v >>> 32)) (bit_and (u64 v) 0xffff_ffff)
    ∙ two_parts f _ _ _ _ (put_u32-append f (u64 v >>> 32)) (halves64 v)

pub put_ts-append :
    (f : Frame) (ns : ℕ)
    → put_ts f ns
      ≡ f ++ (big_endian 6 (u64 ns / 1_000_000_000) ++ big_endian 4 (u64 ns % 1_000_000_000))
unfolding put_ts
put_ts-append f ns =
    put_u32-append (put_u48 f (u64 ns / 1_000_000_000)) (u64 ns % 1_000_000_000)
    ∙ two_parts f _ _ _ _ (put_u48-append f (u64 ns / 1_000_000_000)) refl

digit_below : (q k m r : ℕ) → q < k → r < m → q * m + r < m * k
digit_below q k m r p h = grind arith

-- The lowest digits of a number, from those above the last `m`.
mod_mul : (m k a : ℕ) → 0 < m → 0 < k → a % (m * k) ≡ a / m % k * m + a % m
mod_mul m k a p q =
    ap (λ t. t % (m * k)) parts
    ∙ mul-add-mod_self_left (m * k) (a / m / k) (a / m % k * m + a % m)
    ∙ mod-eq_of_lt (digit_below (a / m % k) k m (a % m) (mod-lt (a / m) q) (mod-lt a p))
  where
    parts : a ≡ m * k * (a / m / k) + (a / m % k * m + a % m)
    parts = omega (arith, div-add-mod a m, ap (λ (t : ℕ). m * t) (div-add-mod (a / m) k))

-- Bytes read back behind the bytes read so far.
pub read_from-big_endian :
    (n acc v : ℕ) → read_from acc (big_endian n v) ≡ acc * 256 ^ n + v % 256 ^ n
read_from-big_endian zero acc v = omega arith
read_from-big_endian (suc n) acc v =
    read_from-big_endian n (acc * 256 + v / 256 ^ n % 256) v
    ∙ rw (pow-suc 256 n)
        (omega (arith, mod_mul (256 ^ n) 256 v (one-le-pow n 256 (omega arith)) (omega arith)))
