-- ===== src/Parser/Feed/Memory.antt =====
-- The recorded message bank as what it stands for: a memory, some of whose words were written.
use fpga_g_ptp.Base.{ℕ, ◌≡◌, refl, Option, none, some, [], ◌∷◌, arith, ◌==◌, if◌then◌else◌}
use fpga_g_ptp.Parser.Feed.{Bank, store, load}

abbrev pub Memory : Type 0
Memory = ℕ → Option ℕ

-- The word at `a`, if one was written.
unfoldable pub view : Bank → Memory
view [] a = none
view ((k, w) ∷ bank) a = if k == a then some w else view bank a

-- A memory with `v` written at `a`.
abbrev pub written : (a v : ℕ) → Memory → Memory
written a v m c = if a == c then some v else m c

abbrev pub or_zero : Option ℕ → ℕ
or_zero none = 0
or_zero (some w) = w

pub view-store :
    (a v : ℕ) (bank : Bank) (c : ℕ) → view (store a v bank) c ≡ written a v (view bank) c
unfolding view store
view-store a v [] c = refl
view-store a v ((k, w) ∷ bank) c = ground (arith, view-store a v bank c)

pub load-view : (a : ℕ) (bank : Bank) → load a bank ≡ or_zero (view bank a)
unfolding view load
load-view a [] = refl
load-view a ((k, w) ∷ bank) = ground (arith, load-view a bank)
