-- ===== src/Engine/Suite/Record/Counts.antt =====
-- tb/verilator/engine/sim_main.cpp, the loops of the last phases: what a count of zero says.
use fpga_g_ptp.Base.{
  ℕ, ◌≤◌, ◌≡◌, ◌∙◌, ◌⊎◌, inl, inr, refl, sym, Bool, true, false, List, [], ◌∷◌, All, arith,
  if◌then◌else◌, for_each,
}
use fpga_g_ptp.Engine.Watch.{count_if}
use fpga_g_ptp.Engine.Suite.Record.{Grades, grade_one}

-- A property of the elements that `skip` does not pass over.
abbrev pub Unless {ℓ} : {A : Type ℓ} (skip bad : A → Bool) → A → Type 0
Unless skip bad a = (skip a ≡ true) ⊎ ((skip a ≡ false) × (bad a ≡ false))

count_step :
    (is_bad : Bool) (n k : ℕ)
    → count_if is_bad n ≤ k
    → k ≡ n
    → (is_bad ≡ false) × (count_if is_bad n ≡ n)
count_step true n k le e = absurd (omega arith)
count_step false n k le e = (refl, refl)

pub grade_step_up :
    (is_skipped is_bad : Bool) (g : Grades)
    → g.bad ≤ (if is_skipped then g else grade_one is_bad g).bad
unfolding grade_one
grade_step_up true is_bad g = omega arith
grade_step_up false true g = omega arith
grade_step_up false false g = omega arith

pub grade_step_same :
    (is_skipped is_bad : Bool) (g : Grades) (k : ℕ)
    → (if is_skipped then g else grade_one is_bad g).bad ≤ k
    → k ≡ g.bad
    → ((is_skipped ≡ true) ⊎ ((is_skipped ≡ false) × (is_bad ≡ false)))
      × ((if is_skipped then g else grade_one is_bad g).bad ≡ g.bad)
unfolding grade_one
grade_step_same true is_bad g k le e = (inl refl, refl)
grade_step_same false true g k le e = absurd (omega arith)
grade_step_same false false g k le e = (inr (refl, refl), refl)

module _ {ℓ} {A : Type ℓ} (bad : A → Bool) where
  counts_up : (xs : List A) (n : ℕ) → n ≤ for_each (λ a k. count_if (bad a) k) xs n
  unfolding for_each
  counts_up [] n = omega arith
  counts_up (x ∷ xs) n = let later = counts_up xs (count_if (bad x) n) in ground arith

  pub none_counted :
      (xs : List A) (n : ℕ)
      → for_each (λ a k. count_if (bad a) k) xs n ≡ n
      → All (λ a. bad a ≡ false) xs
  unfolding for_each
  none_counted [] n e = tt
  none_counted (x ∷ xs) n e =
      let (h, same) = count_step (bad x) n _ (counts_up xs (count_if (bad x) n)) e in
      (h, none_counted xs (count_if (bad x) n) (e ∙ sym same))

module _ {ℓ} {A : Type ℓ} (skip bad : A → Bool) where
  abbrev grade_unless : A → Grades → Grades
  grade_unless a g = if skip a then g else grade_one (bad a) g

  grades_up : (xs : List A) (g : Grades) → g.bad ≤ (for_each grade_unless xs g).bad
  unfolding for_each
  grades_up [] g = omega arith
  grades_up (x ∷ xs) g =
      let here = grade_step_up (skip x) (bad x) g in
      let later = grades_up xs (grade_unless x g) in omega arith

  pub none_bad :
      (xs : List A) (g : Grades)
      → (for_each grade_unless xs g).bad ≡ g.bad
      → All (Unless skip bad) xs
  unfolding for_each
  none_bad [] g e = tt
  none_bad (x ∷ xs) g e =
      let (h, same) = grade_step_same (skip x) (bad x) g _ (grades_up xs (grade_unless x g)) e in
      (h, none_bad xs (grade_unless x g) (e ∙ sym same))
