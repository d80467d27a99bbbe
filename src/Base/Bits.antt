-- ===== src/Base/Bits.antt =====
-- Laws of `bit_and`, `bit_or` and `bit_xor` at variables. The native operations are recursions on
-- the binary digits with a count of digits to go; the count is dropped first.
use Prim.Native.Nat.{
  ℕ, zero, suc, ◌+◌, ◌-◌, ◌*◌, ◌/◌, ◌%◌, ◌^◌, ◌≤◌, ◌<◌, min, max, bit_and, bit_or, bit_xor, digits,
  bitwise, differ, bit_and-bitwise, bit_or-bitwise, bit_xor-bitwise,
}
use mathlib.Core.Path.{◌≡◌, refl, ap, ◌∙◌}
use native.Mathlib.Nat.{
  pow-suc, one-le-pow, le_refl, div-add-mod, mul-add-mod_self_left, mod-eq_of_lt, mod-lt,
}
use native.Mathlib.Omega.{arith}

module _ (z : ℕ → ℕ) (f : ℕ → ℕ → ℕ) where
  -- Any two counts that cover the first number give the same digits.
  count_free : (j k x y : ℕ) → x ≤ j → x ≤ k → digits z f j x y ≡ digits z f k x y
  count_free (suc j) (suc k) (suc x) y below also =
      ap (λ high. high * 2 + f (suc x % 2) (y % 2))
        (count_free j k (suc x / 2) (y / 2) (omega arith) (omega arith))
  count_free (suc j) (suc k) zero y below also = refl
  count_free (suc j) zero (suc x) y below also = elim also [ ]
  count_free (suc j) zero zero y below also = refl
  count_free zero (suc k) (suc x) y below also = elim below [ ]
  count_free zero (suc k) zero y below also = refl
  count_free zero zero x y below also = refl

  -- The lowest digit, if the operation agrees with `z` where the first number has run out.
  low_digit :
      ((y : ℕ) → z y ≡ z (y / 2) * 2 + f 0 (y % 2))
      → (x y : ℕ) → bitwise z f x y ≡ bitwise z f (x / 2) (y / 2) * 2 + f (x % 2) (y % 2)
  low_digit out zero y = out y
  low_digit out (suc x) y =
      ap (λ high. high * 2 + f (suc x % 2) (y % 2))
        (count_free x (suc x / 2) (suc x / 2) (y / 2) (omega arith) (le_refl _))

-- What the halves and the lowest digits give.
abbrev pub from_halves : (whole digit : ℕ → ℕ → ℕ) → ℕ → ℕ → ℕ
from_halves whole digit x y = whole (x / 2) (y / 2) * 2 + digit (x % 2) (y % 2)

pub bit_and_step : (x y : ℕ) → bit_and x y ≡ from_halves bit_and min x y
bit_and_step x y = simp bit_and-bitwise (low_digit (λ w. 0) min (λ w. omega arith) x y)

pub bit_or_step : (x y : ℕ) → bit_or x y ≡ from_halves bit_or max x y
bit_or_step x y = simp bit_or-bitwise (low_digit (λ w. w) max (λ w. omega arith) x y)

pub bit_xor_step : (x y : ℕ) → bit_xor x y ≡ from_halves bit_xor differ x y
bit_xor_step x y = simp bit_xor-bitwise (low_digit (λ w. w) differ (λ w. omega arith) x y)

differ-bit : (x y : ℕ) → x < 2 → y < 2 → (differ x y < 2) × (differ x y ≡ 0 → x ≡ y)
differ-bit zero y p q = (q, λ e. omega arith)
differ-bit (suc zero) zero p q = (omega arith, λ e. omega arith)
differ-bit (suc zero) (suc zero) p q = (omega arith, λ e. refl)
differ-bit (suc zero) (suc (suc y)) p q = absurd (omega arith)
differ-bit (suc (suc x)) y p q = absurd (omega arith)

-- The halves of a number below `2 ^ suc k` are below `2 ^ k`.
half-lt : (k a : ℕ) → a < 2 ^ suc k → a / 2 < 2 ^ k
half-lt k a h = omega (arith, pow-suc 2 k)

pub bit_or-lt : (k a b : ℕ) → a < 2 ^ k → b < 2 ^ k → bit_or a b < 2 ^ k
bit_or-lt zero zero zero p q = omega arith
bit_or-lt zero zero (suc b) p q = absurd (omega arith)
bit_or-lt zero (suc a) b p q = absurd (omega arith)
bit_or-lt (suc k) a b p q = omega (
  arith,
  pow-suc 2 k,
  bit_or_step a b,
  bit_or-lt k (a / 2) (b / 2) (half-lt k a p) (half-lt k b q),
)

pub bit_xor-lt : (k a b : ℕ) → a < 2 ^ k → b < 2 ^ k → bit_xor a b < 2 ^ k
bit_xor-lt zero zero zero p q = omega arith
bit_xor-lt zero zero (suc b) p q = absurd (omega arith)
bit_xor-lt zero (suc a) b p q = absurd (omega arith)
bit_xor-lt (suc k) a b p q = omega (
  arith,
  pow-suc 2 k,
  bit_xor_step a b,
  differ-bit (a % 2) (b % 2) (omega arith) (omega arith),
  bit_xor-lt k (a / 2) (b / 2) (half-lt k a p) (half-lt k b q),
)

-- Two numbers with no differing digit are equal.
xor_zero : (n a b : ℕ) → a ≤ n → b ≤ n → bit_xor a b ≡ 0 → a ≡ b
xor_zero zero a b p q e = omega arith
xor_zero (suc n) a b p q e =
    let d = differ-bit (a % 2) (b % 2) (omega arith) (omega arith) in
    let low : a % 2 ≡ b % 2 = d.1 (omega (arith, bit_xor_step a b)) in
    let high : a / 2 ≡ b / 2 =
      xor_zero n (a / 2) (b / 2) (omega arith) (omega arith) (omega (arith, bit_xor_step a b)) in
    omega arith

pub eq_of_bit_xor-zero : (a b : ℕ) → bit_xor a b ≡ 0 → a ≡ b
eq_of_bit_xor-zero a b e = xor_zero (a + b) a b (omega arith) (omega arith) e

double-shift : (q k : ℕ) → q * 2 ^ suc k ≡ 2 * (q * 2 ^ k)
double-shift q k = omega (arith, ap (λ (t : ℕ). q * t) (pow-suc 2 k))

or_nothing : (n a : ℕ) → a ≤ n → bit_or a 0 ≡ a
or_nothing n zero p = refl
or_nothing zero (suc a) p = elim p [ ]
or_nothing (suc n) (suc a) p =
    omega (arith, bit_or_step (suc a) 0, or_nothing n (suc a / 2) (omega arith))

and_nothing : (n a : ℕ) → a ≤ n → bit_and a 0 ≡ 0
and_nothing n zero p = refl
and_nothing zero (suc a) p = elim p [ ]
and_nothing (suc n) (suc a) p =
    omega (arith, bit_and_step (suc a) 0, and_nothing n (suc a / 2) (omega arith))

-- `(hi << k) | lo` of disjoint fields is a sum.
pub bit_or_fields : (k hi lo : ℕ) → lo < 2 ^ k → bit_or (hi * 2 ^ k) lo ≡ hi * 2 ^ k + lo
bit_or_fields zero hi zero p = omega (arith, or_nothing (hi * 2 ^ 0) (hi * 2 ^ 0) (le_refl _))
bit_or_fields zero hi (suc lo) p = absurd (omega arith)
bit_or_fields (suc k) hi lo p = omega (
  arith,
  bit_or_step (hi * 2 ^ suc k) lo,
  double-shift hi k,
  ap (λ (t : ℕ). bit_or t (lo / 2)) (halved hi k),
  bit_or_fields k hi (lo / 2) (half-lt k lo p),
)
  where
    halved : (q j : ℕ) → q * 2 ^ suc j / 2 ≡ q * 2 ^ j
    halved q j = omega (arith, double-shift q j)

-- The remainder by twice `m`, from the lowest digit and the rest.
mod_double : (m a : ℕ) → 0 < m → a % (m * 2) ≡ a / 2 % m * 2 + a % 2
mod_double m a p =
    ap (λ t. t % (m * 2)) parts
    ∙ mul-add-mod_self_left (m * 2) (a / 2 / m) (a / 2 % m * 2 + a % 2)
    ∙ mod-eq_of_lt (omega (arith, mod-lt (a / 2) p))
  where
    parts : a ≡ m * 2 * (a / 2 / m) + (a / 2 % m * 2 + a % 2)
    parts = omega (arith, div-add-mod (a / 2) m)

-- `x & ((1 << k) - 1)` is the remainder by `2 ^ k`.
pub bit_and_mask : (k a : ℕ) → bit_and a (2 ^ k - 1) ≡ a % 2 ^ k
bit_and_mask zero a = omega (arith, and_nothing a a (le_refl _))
bit_and_mask (suc k) a =
    rw (pow-suc 2 k, mod_double (2 ^ k) a (one-le-pow k 2 (omega arith)))
      (omega (
        arith,
        one-le-pow k 2,
        bit_and_step a (2 ^ k * 2 - 1),
        ap (λ (t : ℕ). bit_and (a / 2) t) (halved (2 ^ k) (one-le-pow k 2 (omega arith))),
        bit_and_mask k (a / 2),
      ))
  where
    halved : (m : ℕ) → 0 < m → (m * 2 - 1) / 2 ≡ m - 1
    halved m p = omega arith

or_comm : (n a b : ℕ) → a ≤ n → b ≤ n → bit_or a b ≡ bit_or b a
or_comm zero zero zero p q = refl
or_comm zero zero (suc b) p q = absurd (omega arith)
or_comm zero (suc a) b p q = absurd (omega arith)
or_comm (suc n) a b p q =
    omega (
      arith,
      bit_or_step a b,
      bit_or_step b a,
      or_comm n (a / 2) (b / 2) (omega arith) (omega arith),
    )

-- `lo | (hi << k)` of disjoint fields is a sum.
pub bit_or_fields_right : (k hi lo : ℕ) → lo < 2 ^ k → bit_or lo (hi * 2 ^ k) ≡ hi * 2 ^ k + lo
bit_or_fields_right k hi lo p =
    or_comm (lo + hi * 2 ^ k) lo (hi * 2 ^ k) (omega arith) (omega arith) ∙ bit_or_fields k hi lo p
