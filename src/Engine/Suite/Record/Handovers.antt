-- ===== src/Engine/Suite/Record/Handovers.antt =====
-- tb/verilator/engine/sim_main.cpp, what `keep_sync_ok_in_every_master_cycle` and
-- `announce_the_image_clock_accuracy` say of the record they grade.
use fpga_g_ptp.Base.{
  ℕ, ◌≤◌, ◌<◌, ◌≡◌, ◌≢◌, ◌∙◌, ◌⊎◌, refl, sym, ap, Bool, true, false, not, ◌||◌, List, [], ◌∷◌, All,
  arith, if◌then◌else◌, ◌==◌, ltb, length, bit_and, bit_or,
}
use fpga_g_ptp.Wire.{Frame}
use fpga_g_ptp.Wire.Read.{byte_at, fld16, type_of}
use fpga_g_ptp.Engine.Const.{our_cid, fl_amgm, fl_syncok}
use fpga_g_ptp.Engine.Watch.{PubSnap}
use fpga_g_ptp.Engine.Suite.Record.{
  Grades, none_graded, grade_one, grade_handover, handovers_after, handovers, is_wrong,
  grade_announce, announces,
}
use fpga_g_ptp.Engine.Suite.Record.Counts.{Unless, none_bad, grade_step_up, grade_step_same}

-- Two commits in a row: a master that hands over to a peer clears its flags.
unfoldable pub HandsOver : (last c : PubSnap) → Type 0
HandsOver last c =
    (bit_and last.flags fl_amgm ≡ 0)
    ⊎ (c.gm ≡ our_cid)
    ⊎ (bit_and c.flags (bit_or fl_amgm fl_syncok) ≡ 0)

unfoldable pub HandOver : (last : PubSnap) → List PubSnap → Type 0
HandOver last [] = Unit
HandOver last (c ∷ commits) = HandsOver last c × HandOver c commits

unfoldable pub HandOvers : List PubSnap → Type 0
HandOvers [] = Unit
HandOvers (c ∷ commits) = HandOver c commits

abbrev keeps : (last c : PubSnap) → Bool
keeps last c = (bit_and last.flags fl_amgm == 0) || (c.gm == our_cid)

abbrev is_unsynced : PubSnap → Bool
is_unsynced c = not (bit_and c.flags (bit_or fl_amgm fl_syncok) == 0)

-- The nested tests of the loop are one.
grade_handover_or :
    (last c : PubSnap) (g : Grades)
    → grade_handover last c g ≡ (if keeps last c then g else grade_one (is_unsynced c) g)
unfolding grade_handover
grade_handover_or last c g = go (bit_and last.flags fl_amgm == 0) (c.gm == our_cid)
  where
    go :
        (a b : Bool)
        → (if a then g else (if b then g else grade_one (is_unsynced c) g))
          ≡ (if (a || b) then g else grade_one (is_unsynced c) g)
    go true b = refl
    go false true = refl
    go false false = refl

kept-HandsOver :
    (last c : PubSnap)
    → (keeps last c ≡ true) ⊎ ((keeps last c ≡ false) × (is_unsynced c ≡ false))
    → HandsOver last c
unfolding HandsOver
kept-HandsOver last c h = ground arith

handovers_up :
    (last : PubSnap) (commits : List PubSnap) (g : Grades)
    → g.bad ≤ (handovers_after last commits g).bad
unfolding handovers_after
handovers_up last [] g = omega arith
handovers_up last (c ∷ commits) g =
    let here = grade_step_up (keeps last c) (is_unsynced c) g in
    let later = handovers_up c commits (grade_handover last c g) in
    omega (arith, here, later, ap (λ (k : Grades). k.bad) (grade_handover_or last c g))

handovers_after-HandOver :
    (last : PubSnap) (commits : List PubSnap) (g : Grades)
    → (handovers_after last commits g).bad ≡ g.bad
    → HandOver last commits
unfolding handovers_after HandOver
handovers_after-HandOver last [] g e = tt
handovers_after-HandOver last (c ∷ commits) g e =
    let up = handovers_up c commits (grade_handover last c g) in
    let or = ap (λ (k : Grades). k.bad) (grade_handover_or last c g) in
    let (h, same) = grade_step_same (keeps last c) (is_unsynced c) g _ (omega (arith, up, or)) e in
    (
      kept-HandsOver last c h,
      handovers_after-HandOver c commits (grade_handover last c g) (e ∙ sym same ∙ sym or),
    )

pub handovers-HandOvers : (commits : List PubSnap) → (handovers commits).bad ≡ 0 → HandOvers commits
unfolding handovers HandOvers
handovers-HandOvers [] e = tt
handovers-HandOvers (c ∷ commits) e = handovers_after-HandOver c commits none_graded e

-- A frame that is an Announce of the image has its clock quality.
unfoldable pub AnnouncesQuality : (want : ℕ) → Frame → Type 0
AnnouncesQuality want f =
    (length f < 66)
    ⊎ (type_of f ≢ 0xB)
    ⊎ ((byte_at f 63 ≡ want) × (byte_at f 62 ≡ 0xF8) × (fld16 f 64 ≡ 0x436A))

abbrev is_other : Frame → Bool
is_other f = ltb (length f) 66 || not (type_of f == 0xB)

graded-AnnouncesQuality :
    (want : ℕ) (f : Frame) → Unless is_other (is_wrong want) f → AnnouncesQuality want f
unfolding is_wrong AnnouncesQuality
graded-AnnouncesQuality want f h = ground arith

All-AnnouncesQuality :
    (want : ℕ) (txf : List Frame)
    → All (Unless is_other (is_wrong want)) txf
    → All (AnnouncesQuality want) txf
All-AnnouncesQuality want [] h = tt
All-AnnouncesQuality want (f ∷ txf) h =
    (graded-AnnouncesQuality want f h.0, All-AnnouncesQuality want txf h.1)

pub announces-AnnouncesQuality :
    (want : ℕ) (txf : List Frame) → (announces want txf).bad ≡ 0 → All (AnnouncesQuality want) txf
unfolding announces grade_announce
announces-AnnouncesQuality want txf e =
    All-AnnouncesQuality want txf (none_bad is_other (is_wrong want) txf none_graded e)
