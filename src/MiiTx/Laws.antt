-- ===== src/MiiTx/Laws.antt =====
-- The FIFO of the tag test.
use fpga_g_ptp.Base.{
  ℕ, ◌+◌, ◌/◌, ◌%◌, ◌^◌, ◌<◌, ◌≡◌, ap, ap₂, Bool, true, false, List, [], ◌∷◌, arith, if◌then◌else◌,
  is_empty, All, bit_or, ◌<<<◌,
}
use fpga_g_ptp.Base.Bits.{bit_or_fields_right}
use fpga_g_ptp.Harness.Verilated.{Verilated}
use fpga_g_ptp.Wire.{Frame}
use fpga_g_ptp.MiiTx.{words_of}

-- What the device reads of a FIFO word: the byte, and the marks of the first and the last.
abbrev pub byte_of : ℕ → ℕ
byte_of w = w % 2 ^ 8

abbrev pub last_of : ℕ → ℕ
last_of w = w / 2 ^ 8 % 2

abbrev pub first_of : ℕ → ℕ
first_of w = w / 2 ^ 9 % 2

abbrev pub bytes_of : List ℕ → Frame
bytes_of [] = []
bytes_of (w ∷ ws) = byte_of w ∷ bytes_of ws

-- The mark of the first word is as said, no later one is marked first, and only the last word is marked last.
abbrev pub IsFramed : (first : Bool) → List ℕ → Type 0
IsFramed first [] = Unit
IsFramed first (w ∷ ws) =
    (first_of w ≡ (if first then 1 else 0))
    × (last_of w ≡ (if is_empty ws then 1 else 0))
    × IsFramed false ws

last_mark : (x : ℕ) → x < 2 ^ 8 → bit_or x (1 <<< 8) ≡ 256 + x
last_mark x h = bit_or_fields_right 8 1 x h

first_mark : (x : ℕ) → x < 2 ^ 8 → bit_or x (1 <<< 9) ≡ 512 + x
first_mark x h = bit_or_fields_right 9 1 x (omega arith)

rest-IsFramed :
    (x : ℕ) (xs : Frame)
    → All (λ b. b < 2 ^ 8) (x ∷ xs)
    → IsFramed false (words_of false (x ∷ xs)) × (bytes_of (words_of false (x ∷ xs)) ≡ x ∷ xs)
unfolding words_of
rest-IsFramed x [] h =
    let e = last_mark x h.0 in
    ((omega (arith, e), omega (arith, e), tt), ap (λ n. n ∷ []) (omega (arith, e)))
rest-IsFramed x (y ∷ xs) h =
    let r = rest-IsFramed y xs h.1 in
    let byte : x % 2 ^ 8 ≡ x = omega arith in
    ((omega (arith, h.0), omega (arith, h.0), r.0), ap₂ (λ n t. n ∷ t) byte r.1)

-- The FIFO words of a frame of two bytes or more carry its bytes in order, the first of them alone marked as the first and the
-- last of them alone marked as the last.
pub words_of_lem :
    (x y : ℕ) (xs : Frame)
    → All (λ b. b < 2 ^ 8) (x ∷ y ∷ xs)
    → IsFramed true (words_of true (x ∷ y ∷ xs))
      × (bytes_of (words_of true (x ∷ y ∷ xs)) ≡ x ∷ y ∷ xs)
unfolding words_of
words_of_lem x y xs h =
    let r = rest-IsFramed y xs h.1 in
    let e = first_mark x h.0 in
    let byte : bit_or x (1 <<< 9) % 2 ^ 8 ≡ x = omega (arith, e, h.0) in
    ((omega (arith, e, h.0), omega (arith, e, h.0), r.0), ap₂ (λ n t. n ∷ t) byte r.1)
