-- ===== src/Session/Analyzer/Sound.antt =====
-- What the analyzer keeps, and the median of it.
use ivckolpak.Prelude.{
  ℕ, zero, suc, ◌/◌, ◌<◌, ◌≡◌, refl, true, false, List, [], ◌∷◌, Option, none, some, arith,
  if◌then◌else◌, length, get_elem?, All, All-append, Bool-cases, inl, inr,
}
use ivckolpak.Prelude.Bytes.{is_empty}
use ivckolpak.Prelude.Int.{ℤ, pos, negsuc, ◌-ℤ◌, ltb_ℤ, leb_ℤ, eqb_ℤ, is_pos, ◌≤ℤ◌}
use ivckolpak.Session.Packet.{AvPacket, nopts}
use ivckolpak.Session.Analyzer.{
  StreamAnalyzer, fresh, is_step, keep_step, add_diff, analyze_live, analyze_packet, insert_sorted,
  sort, median,
}

-- A difference that the analyzer keeps.
abbrev pub IsStep : ℤ → Type 0
IsStep d = (pos 1 ≤ℤ d) × (d ≤ℤ pos 999999)

-- Every kept difference is a step, and there is none before two time stamps were seen.
pub record IsSound (a : StreamAnalyzer) : Type 0 where
  pub steps : All IsStep a.pts_diffs
  pub seen :
      is_empty a.pts_diffs ≡ false
      → (eqb_ℤ a.first_pts nopts ≡ false) × (eqb_ℤ a.last_pts nopts ≡ false)

IsSound-fresh : IsSound fresh
IsSound-fresh = record { steps = tt; seen = λ h. cc }

is_step-IsStep : (d : ℤ) → is_step d ≡ true → IsStep d
unfolding is_step
is_step-IsStep (pos n) h = ground arith
is_step-IsStep (negsuc n) h = cc

keep_step-steps : (d : ℤ) (diffs : List ℤ) → All IsStep diffs → All IsStep (keep_step d diffs)
unfolding keep_step
keep_step-steps d diffs h = elim (Bool-cases (is_step d)) [
  | inl e ↦ rw e (All-append IsStep diffs (d ∷ []) h (is_step-IsStep d e, tt))
  | inr e ↦ rw e h
]

add_diff-steps :
    (pts last : ℤ) (diffs : List ℤ) → All IsStep diffs → All IsStep (add_diff pts last diffs)
add_diff-steps pts last diffs h = elim (Bool-cases (eqb_ℤ last nopts)) [
  | inl e ↦ unfold add_diff in rw e h
  | inr e ↦ elim (Bool-cases (ltb_ℤ last pts)) [
    | inl l ↦ unfold add_diff in rw (e, l) (keep_step-steps (pts -ℤ last) diffs h)
    | inr l ↦ unfold add_diff in rw (e, l) h
  ]
]

first_known :
    (first pts : ℤ)
    → eqb_ℤ pts nopts ≡ false
    → eqb_ℤ (if eqb_ℤ first nopts then pts else first) nopts ≡ false
first_known first pts h = elim (Bool-cases (eqb_ℤ first nopts)) [ inl e ↦ rw e h | inr e ↦ rw e e ]

analyzed-IsSound :
    (p : AvPacket) (a : StreamAnalyzer)
    → IsSound a
    → eqb_ℤ p.pts nopts ≡ false
    → IsSound (analyze_live p a)
unfolding analyze_live
analyzed-IsSound p a s h = simp h (record {
  steps = add_diff-steps p.pts a.last_pts a.pts_diffs s.steps;
  seen = λ k. (first_known a.first_pts p.pts h, h);
})

-- `analyze_packet` keeps the analyzer sound, whatever the time stamp.
pub analyze_packet-IsSound :
    (p : Option AvPacket) (a : StreamAnalyzer) → IsSound a → IsSound (analyze_packet p a)
unfolding analyze_packet
analyze_packet-IsSound none a s = s
analyze_packet-IsSound (some p) a s = elim (Bool-cases (eqb_ℤ p.pts nopts)) [
  | inl absent ↦ unfold analyze_live in rw absent s
  | inr present ↦ analyzed-IsSound p a s present
]

insert_sorted-steps :
    (x : ℤ) (ys : List ℤ) → IsStep x → All IsStep ys → All IsStep (insert_sorted x ys)
unfolding insert_sorted
insert_sorted-steps x [] h k = (h, tt)
insert_sorted-steps x (y ∷ ys) h k = elim (Bool-cases (leb_ℤ x y)) [
  | inl e ↦ rw e (h, k)
  | inr e ↦ rw e (k.0, insert_sorted-steps x ys h k.1)
]

pub sort-steps : (xs : List ℤ) → All IsStep xs → All IsStep (sort xs)
unfolding sort
sort-steps [] h = tt
sort-steps (x ∷ xs) h = insert_sorted-steps x (sort xs) h.0 (sort-steps xs h.1)

length-insert_sorted : (x : ℤ) (ys : List ℤ) → length (insert_sorted x ys) ≡ suc (length ys)
unfolding insert_sorted
length-insert_sorted x [] = refl
length-insert_sorted x (y ∷ ys) = ground (arith, length-insert_sorted x ys)

pub length-sort : (xs : List ℤ) → length (sort xs) ≡ length xs
unfolding sort
length-sort [] = refl
length-sort (x ∷ xs) = omega (arith, length-insert_sorted x (sort xs), length-sort xs)

pub nth-IsStep :
    (xs : List ℤ) (i : ℕ)
    → All IsStep xs
    → i < length xs
    → (d : ℤ) × (get_elem? xs i ≡ some d) × IsStep d
nth-IsStep [] i h k = elim k [ ]
nth-IsStep (x ∷ xs) zero h k = (x, refl, h.0)
nth-IsStep (x ∷ xs) (suc i) h k = nth-IsStep xs i h.1 (omega arith)

pub nonempty_length : (xs : List ℤ) → is_empty xs ≡ false → 0 < length xs
nonempty_length [] h = cc
nonempty_length (x ∷ xs) h = omega arith

pub step_positive : (d : ℤ) → IsStep d → is_pos d ≡ true
step_positive (pos n) h = ground arith
step_positive (negsuc n) h = absurd (omega arith)

pub median-IsStep : (xs : List ℤ) → All IsStep xs → is_empty xs ≡ false → IsStep (median (sort xs))
unfolding median
median-IsStep xs h k =
    let (d, e, s) =
      nth-IsStep (sort xs) (length (sort xs) / 2) (sort-steps xs h)
        (omega (arith, length-sort xs, nonempty_length xs k)) in
    rw (e, median) s
