-- ===== src/Engine/Face/Laws.antt =====
-- The frames whose result a phase withholds.
use fpga_g_ptp.Base.{ℕ, ◌+◌, ◌-◌, ◌≡◌, refl, ◌&&◌, [], ◌∷◌, arith, ◌==◌, leb, to_nat}
use fpga_g_ptp.Wire.{Frame}
use fpga_g_ptp.Wire.Read.{seq_of, type_of}
use fpga_g_ptp.Engine.Face.{Tags, withhold, release_withheld, tag_withheld, is_withheld}

-- How often a tag is withheld.
abbrev pub times_withheld : (type seq : ℕ) → Tags → ℕ
times_withheld type seq [] = 0
times_withheld type seq ((t, s) ∷ withheld) =
    to_nat (t == type && s == seq) + times_withheld type seq withheld

times_withheld-withhold :
    (type seq t s : ℕ) (withheld : Tags)
    → times_withheld type seq (withhold t s withheld)
      ≡ times_withheld type seq withheld + to_nat (t == type && s == seq)
unfolding withhold
times_withheld-withhold type seq t s [] = omega arith
times_withheld-withhold type seq t s (w ∷ withheld) =
    omega (arith, times_withheld-withhold type seq t s withheld)

times_withheld-release :
    (type seq t s : ℕ) (withheld : Tags)
    → times_withheld type seq (release_withheld t s withheld)
      ≡ times_withheld type seq withheld - to_nat (t == type && s == seq)
unfolding release_withheld
times_withheld-release type seq t s [] = omega arith
times_withheld-release type seq t s ((u, v) ∷ withheld) =
    ground (arith, times_withheld-release type seq t s withheld)

tag_withheld_iff :
    (type seq : ℕ) (withheld : Tags)
    → tag_withheld type seq withheld ≡ leb 1 (times_withheld type seq withheld)
unfolding tag_withheld
tag_withheld_iff type seq [] = refl
tag_withheld_iff type seq ((t, s) ∷ withheld) = ground (arith, tag_withheld_iff type seq withheld)

-- A frame is withheld exactly when its tag was withheld more often than it was released: withholding a tag counts it
-- once more and releasing it once less (never below none), for that tag and no other.
pub is_withheld_lem :
    (f : Frame) (type seq : ℕ) (withheld : Tags)
    → let count = times_withheld (type_of f) (seq_of f) in
      let same = to_nat (type == type_of f && seq == seq_of f) in
      (is_withheld f withheld ≡ leb 1 (count withheld))
      × (count (withhold type seq withheld) ≡ count withheld + same)
      × (count (release_withheld type seq withheld) ≡ count withheld - same)
unfolding is_withheld
is_withheld_lem f type seq withheld = (
  tag_withheld_iff (type_of f) (seq_of f) withheld,
  times_withheld-withhold (type_of f) (seq_of f) type seq withheld,
  times_withheld-release (type_of f) (seq_of f) type seq withheld,
)
