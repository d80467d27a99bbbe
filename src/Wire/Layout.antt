-- ===== src/Wire/Layout.antt =====
-- A message as a table of fields, each a width in octets and a value, and reading a field back at
-- its offset in the table.
use fpga_g_ptp.Base.{
  ℕ, zero, suc, ◌+◌, ◌*◌, ◌/◌, ◌%◌, ◌^◌, ◌≤◌, ◌<◌, ◌≡◌, refl, sym, ap, ◌∙◌, arith, List, [], ◌∷◌,
  ◌++◌, append_assoc, bit_or, u64, ◌<<<◌, length, length-append, get_or, get_or-append_right,
  get_or-append_left, subst, for_range, All, All-append,
}
use native.Mathlib.Numerals.{add-one}
use native.Mathlib.Nat.{add-zero, pow-suc, pow-le-pow_right, mod-eq_of_lt}
use fpga_g_ptp.Base.Bits.{bit_or_fields}
use fpga_g_ptp.Wire.{Frame}
use fpga_g_ptp.Wire.BigEndian.{big_endian, length-big_endian, read_from, read_from-big_endian}
use fpga_g_ptp.Wire.Read.{byte_at, fld, fld16}

abbrev pub encode : List (ℕ × ℕ) → List ℕ
encode [] = []
encode ((n, v) ∷ fields) = big_endian n v ++ encode fields

abbrev pub width : List (ℕ × ℕ) → ℕ
width [] = 0
width ((n, v) ∷ fields) = n + width fields

pub length-encode : (fields : List (ℕ × ℕ)) → length (encode fields) ≡ width fields
length-encode [] = refl
length-encode ((n, v) ∷ fields) =
    length-append (big_endian n v) (encode fields)
    ∙ omega (arith, length-big_endian n v, length-encode fields)

pub encode-append : (xs ys : List (ℕ × ℕ)) → encode (xs ++ ys) ≡ encode xs ++ encode ys
encode-append [] ys = refl
encode-append ((n, v) ∷ xs) ys =
    ap (λ t. big_endian n v ++ t) (encode-append xs ys)
    ∙ sym (append_assoc (big_endian n v) (encode xs) (encode ys))

abbrev pub IsByte : ℕ → Type 0
IsByte b = b < 256

pub All-big_endian : (n v : ℕ) → All IsByte (big_endian n v)
All-big_endian zero v = tt
All-big_endian (suc n) v = (omega arith, All-big_endian n v)

pub All-encode : (fields : List (ℕ × ℕ)) → All IsByte (encode fields)
All-encode [] = tt
All-encode ((n, v) ∷ fields) =
    All-append IsByte (big_endian n v) (encode fields) (All-big_endian n v) (All-encode fields)

module _ (f : Frame) (o : ℕ) where
  abbrev shift_in : ℕ → ℕ → ℕ
  shift_in i v = bit_or (u64 (v <<< 8)) (byte_at f (o + i))

  -- The loop reads the bytes `bs` that stand at `o + i`, and no bit of the word is lost.
  shift_in-All :
      (bs : List ℕ) (i acc : ℕ)
      → ((j : ℕ) → j < length bs → byte_at f (o + i + j) ≡ get_or bs j 0)
      → All IsByte bs
      → acc < 256 ^ i
      → i + length bs ≤ 8
      → for_range (length bs) i shift_in acc ≡ read_from acc bs
  unfolding for_range
  shift_in-All [] i acc at small low fits = refl
  shift_in-All (b ∷ bs) i acc at small low fits =
      ap (for_range (length bs) (i + 1) shift_in) once
      ∙ shift_in-All bs (i + 1) (acc * 256 + b)
          (λ j h. ap (byte_at f) (omega arith) ∙ at (suc j) (omega arith)) small.1 grown
          (omega arith)
    where
      cap : 256 ^ i ≤ 256 ^ 7
      cap = pow-le-pow_right (omega arith) {i = i} {j = 7} (omega arith)

      here : byte_at f (o + i) ≡ b
      here = ap (byte_at f) (omega arith) ∙ at 0 (omega arith)

      once : shift_in i acc ≡ acc * 256 + b
      once =
          rw (here, mod-eq_of_lt {n = acc * 256} {m = 2 ^ 64} (omega (arith, cap)))
            (bit_or_fields 8 acc b small.0)

      grown : acc * 256 + b < 256 ^ (i + 1)
      grown = rw (add-one i, pow-suc 256 i) (omega (arith, small.0))

module _ (before : List (ℕ × ℕ)) (after : List ℕ) (n v : ℕ) where
  abbrev whole : Frame
  whole = encode before ++ (big_endian n v ++ after)

  at_field : (j : ℕ) → j < n → byte_at whole (width before + j) ≡ get_or (big_endian n v) j 0
  at_field j h =
      ap (λ k. byte_at whole (k + j)) (sym (length-encode before))
      ∙ get_or-append_right (encode before) (big_endian n v ++ after) j 0
      ∙ get_or-append_left (big_endian n v) after j 0 (omega (arith, length-big_endian n v))

  -- `fld48` and `fld64` give back the value of the field at their offset.
  pub fld-encode : n ≤ 8 → fld n whole (width before) ≡ v % 256 ^ n
  unfolding fld
  fld-encode h =
      subst (λ m. for_range m 0 (shift_in whole (width before)) 0 ≡ v % 256 ^ n)
        (length-big_endian n v)
        (shift_in-All whole (width before) (big_endian n v) 0 0
            (λ j p.
              ap (byte_at whole) (omega arith) ∙ at_field j (omega (arith, length-big_endian n v)))
            (All-big_endian n v) (omega arith) (omega (arith, length-big_endian n v))
          ∙ read_from-big_endian n 0 v
          ∙ omega arith)

-- `fld16` too.
pub fld16-encode :
    (before : List (ℕ × ℕ)) (after : List ℕ) (v : ℕ)
    → fld16 (encode before ++ (big_endian 2 v ++ after)) (width before) ≡ v % 2 ^ 16
unfolding fld16
fld16-encode before after v =
    rw
      (
        ap (byte_at (whole before after 2 v)) (sym (add-zero (width before)))
            ∙ at_field before after 2 v 0 (omega arith),
        at_field before after 2 v 1 (omega arith),
        bit_or_fields 8 (v / 256 ^ 1 % 256) (v / 256 ^ 0 % 256) (omega arith),
      )
      (omega arith)
