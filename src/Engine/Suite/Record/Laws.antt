-- ===== src/Engine/Suite/Record/Laws.antt =====
-- tb/verilator/engine/sim_main.cpp, what the last phases say of the record they grade.
use fpga_g_ptp.Base.{
  ℕ, zero, suc, ◌+◌, ◌≤◌, ◌≡◌, ◌≢◌, ◌∙◌, ◌⊎◌, inl, inr, refl, sym, ap, Bool, true, false, not, ◌&&◌,
  Bool-cases, List, [], ◌∷◌, All, arith, ◌==◌, ==_iff, and_iff, length, snoc, min, for_range,
}
use fpga_g_ptp.Engine.Const.{our_cid}
use fpga_g_ptp.Engine.Watch.{PubSnap, committed_path_is}
use fpga_g_ptp.Engine.Suite.Record.{
  Places, none_graded, self_is_bad, self_bad, entry, note_place, places_of, is_appended, is_filled,
  grade_path, peer_paths,
}
use fpga_g_ptp.Engine.Suite.Record.Counts.{Unless, none_counted, none_bad}

-- The published path of a commit, `n` entries from the `k`th on.
unfoldable pub entries : (n k : ℕ) → PubSnap → List ℕ
entries zero k c = []
entries (suc n) k c = entry c k ∷ entries n (k + 1) c

abbrev pub Foreign : ℕ → Type 0
Foreign hop = hop ≢ our_cid

-- Our identity ends the path and is nowhere else in it.
unfoldable pub EndsWithOurs : (path : List ℕ) (count : ℕ) → Type 0
EndsWithOurs path count =
    (before : List ℕ) × (path ≡ snoc before our_cid)
    × All Foreign before
    × (length before + 1 ≡ count)

-- A commit of ours has exactly our path; the path of a peer's ends with us, or has the full eight
-- entries of others.
unfoldable pub Coherent : PubSnap → Type 0
Coherent c =
    ((c.gm ≡ our_cid) × (committed_path_is c (our_cid ∷ []) ≡ true))
    ⊎ ((c.gm ≢ our_cid)
        × (EndsWithOurs (entries (min c.count 8) 0 c) c.count
            ⊎ (All Foreign (entries (min c.count 8) 0 c) × (c.count ≡ 8))))

pub ne_of : (a b : ℕ) → (a == b) ≡ false → a ≢ b
ne_of a b e = ground arith

note_place_cases :
    (c : PubSnap) (k : ℕ) (p : Places)
    → ((entry c k ≡ our_cid) × (note_place c k p ≡ record { seen = p.seen + 1; at = k }))
      ⊎ ((entry c k ≢ our_cid) × (note_place c k p ≡ p))
unfolding note_place
note_place_cases c k p = elim (Bool-cases (entry c k == our_cid)) [
  | inl e ↦ inl ((==_iff (entry c k) our_cid).0 e, rw (e, note_place) refl)
  | inr e ↦ inr (ne_of (entry c k) our_cid e, rw (e, note_place) refl)
]

abbrev seen_of : Places → ℕ
seen_of p = p.seen

scan_up : (c : PubSnap) (n k : ℕ) (p : Places) → p.seen ≤ (for_range n k (note_place c) p).seen
unfolding for_range
scan_up c zero k p = omega arith
scan_up c (suc n) k p =
    let later = scan_up c n (k + 1) (note_place c k p) in
    elim (note_place_cases c k p) [
      | inl (e, q) ↦ omega (arith, later, ap seen_of q)
      | inr (e, q) ↦ omega (arith, later, ap seen_of q)
    ]

-- A scan that sees our identity nowhere leaves all as it was.
scan_none :
    (c : PubSnap) (n k : ℕ) (p : Places)
    → (for_range n k (note_place c) p).seen ≡ p.seen
    → All Foreign (entries n k c) × (for_range n k (note_place c) p ≡ p)
unfolding for_range entries
scan_none c zero k p e = (tt, refl)
scan_none c (suc n) k p e = elim (note_place_cases c k p) [
  | inl (same, q) ↦
      let later = scan_up c n (k + 1) (note_place c k p) in
      absurd (omega (arith, later, ap seen_of q, e))
  | inr (differs, q) ↦
      let (all, kept) = scan_none c n (k + 1) (note_place c k p) (e ∙ sym (ap seen_of q)) in
      ((differs, all), kept ∙ q)
]

ends_here :
    (c : PubSnap) (k n : ℕ)
    → entry c k ≡ our_cid
    → k + 1 ≡ k + suc n
    → (before : List ℕ) × (entry c k ∷ entries n (k + 1) c ≡ snoc before our_cid)
      × All Foreign before
      × (length before + 1 ≡ suc n)
unfolding entries
ends_here c k zero e h = ([], ap (λ hop. hop ∷ []) e, tt, refl)
ends_here c k (suc n) e h = absurd (omega arith)

-- A scan that sees it once, at the last place, has it at the end and nowhere else.
scan_last :
    (c : PubSnap) (n k : ℕ) (p : Places)
    → (for_range n k (note_place c) p).seen ≡ p.seen + 1
    → (for_range n k (note_place c) p).at + 1 ≡ k + n
    → (before : List ℕ) × (entries n k c ≡ snoc before our_cid)
      × All Foreign before
      × (length before + 1 ≡ n)
unfolding for_range entries
scan_last c zero k p e at = absurd (omega arith)
scan_last c (suc n) k p e at = elim (note_place_cases c k p) [
  | inl (same, q) ↦
      let (all, kept) = scan_none c n (k + 1) (note_place c k p) (e ∙ sym (ap seen_of q)) in
      ends_here c k n same (omega (arith, at, ap (λ (t : Places). t.at) (kept ∙ q)))
  | inr (differs, q) ↦
      let (before, path, all, size) =
        scan_last c n (k + 1) (note_place c k p) (omega (arith, e, ap seen_of q)) (omega arith) in
      (entry c k ∷ before, ap (λ hops. entry c k ∷ hops) path, (differs, all), omega arith)
]

scan_at :
    (c : PubSnap) (last n k : ℕ) (p : Places)
    → p.at ≤ last
    → k + n ≤ suc last
    → (for_range n k (note_place c) p).at ≤ last
unfolding for_range
scan_at c last zero k p at le = at
scan_at c last (suc n) k p at le = elim (note_place_cases c k p) [
  | inl (e, q) ↦
      let here = ap (λ (t : Places). t.at) q in
      scan_at c last n (k + 1) (note_place c k p) (omega arith) (omega arith)
  | inr (e, q) ↦
      let here = ap (λ (t : Places). t.at) q in
      scan_at c last n (k + 1) (note_place c k p) (omega arith) (omega arith)
]

abbrev nowhere : Places
nowhere = record { seen = 0; at = 0 }

appended-EndsWithOurs :
    (c : PubSnap) → is_appended c ≡ true → EndsWithOurs (entries (min c.count 8) 0 c) c.count
unfolding is_appended places_of EndsWithOurs
appended-EndsWithOurs c e =
    let (once, end) = (and_iff ((places_of c).seen == 1) ((places_of c).at + 1 == c.count)).0 e in
    let seen : (for_range (min c.count 8) 0 (note_place c) nowhere).seen ≡ 1 =
      (==_iff (places_of c).seen 1).0 once in
    let at : (for_range (min c.count 8) 0 (note_place c) nowhere).at + 1 ≡ c.count =
      (==_iff ((places_of c).at + 1) c.count).0 end in
    let low = scan_at c 7 (min c.count 8) 0 nowhere (omega arith) (omega arith) in
    let (before, path, all, size) = scan_last c (min c.count 8) 0 nowhere seen (omega arith) in
    (before, path, all, omega arith)

filled-Foreign :
    (c : PubSnap) → is_filled c ≡ true → All Foreign (entries (min c.count 8) 0 c) × (c.count ≡ 8)
unfolding is_filled places_of
filled-Foreign c e =
    let (none, full) = (and_iff ((places_of c).seen == 0) (c.count == 8)).0 e in
    (
      (scan_none c (min c.count 8) 0 nowhere ((==_iff (places_of c).seen 0).0 none)).0,
      (==_iff c.count 8).0 full,
    )

abbrev is_ours : PubSnap → Bool
is_ours c = c.gm == our_cid

abbrev path_is_bad : PubSnap → Bool
path_is_bad c = not (is_appended c) && not (is_filled c)

one_of : (a b : Bool) → (not a && not b) ≡ false → (a ≡ true) ⊎ (b ≡ true)
one_of true b e = inl refl
one_of false true e = inr refl
one_of false false e = ground arith

both_of : (a b : Bool) → (a && not b) ≡ false → a ≡ true → b ≡ true
both_of true true e h = refl
both_of true false e h = ground arith
both_of false b e h = ground arith

graded-Coherent : (c : PubSnap) → self_is_bad c ≡ false → Unless is_ours path_is_bad c → Coherent c
unfolding self_is_bad Coherent
graded-Coherent c own (inl same) = inl (
  (==_iff c.gm our_cid).0 same,
  both_of (is_ours c) (committed_path_is c (our_cid ∷ [])) own same,
)
graded-Coherent c own (inr (differs, good)) = inr (
  ne_of c.gm our_cid differs,
  elim (one_of (is_appended c) (is_filled c) good) [
    | inl e ↦ inl (appended-EndsWithOurs c e)
    | inr e ↦ inr (filled-Foreign c e)
  ],
)

All-Coherent :
    (commits : List PubSnap)
    → All (λ c. self_is_bad c ≡ false) commits
    → All (Unless is_ours path_is_bad) commits
    → All Coherent commits
All-Coherent [] own peers = tt
All-Coherent (c ∷ commits) own peers =
    (graded-Coherent c own.0 peers.0, All-Coherent commits own.1 peers.1)

pub commits-Coherent :
    (commits : List PubSnap)
    → self_bad commits ≡ 0
    → (peer_paths commits).bad ≡ 0
    → All Coherent commits
unfolding self_bad peer_paths grade_path
commits-Coherent commits own peers =
    All-Coherent commits (none_counted self_is_bad commits 0 own)
      (none_bad is_ours path_is_bad commits none_graded peers)
