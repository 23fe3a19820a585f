-- ===== src/Session/Analyzer/Median.antt =====
-- The rate comes from the median of the kept differences.
use ivckolpak.Prelude.{
  ℕ, zero, suc, ◌+◌, ◌/◌, ◌≤◌, ◌<◌, ◌≡◌, refl, ◌∙◌, Bool, true, false, List, [], ◌∷◌, some, arith,
  if◌then◌else◌, length, get_elem?, All, Bool-cases, inl, inr,
}
use mathlib.Core.Path.{subst}
use ivckolpak.Prelude.Bytes.{is_empty}
use ivckolpak.Prelude.Int.{ℤ, ltb_ℤ, leb_ℤ, eqb_ℤ}
use ivckolpak.Prelude.Double.{FloatOps}
use ivckolpak.Session.Analyzer.{StreamAnalyzer, insert_sorted, sort, median, rate_of, finalize}
use ivckolpak.Session.Analyzer.Sound.{
  IsSound, IsStep, length-sort, nonempty_length, step_positive, median-IsStep,
}

-- How many of the integers pass a test.
abbrev pub count : (ℤ → Bool) → List ℤ → ℕ
count f [] = 0
count f (x ∷ xs) = let rest = count f xs in if f x then suc rest else rest

count-insert_sorted :
    (f : ℤ → Bool) (x : ℤ) (ys : List ℤ) → count f (insert_sorted x ys) ≡ count f (x ∷ ys)
unfolding insert_sorted
count-insert_sorted f x [] = refl
count-insert_sorted f x (y ∷ ys) = ground (arith, count-insert_sorted f x ys)

count-sort : (f : ℤ → Bool) (xs : List ℤ) → count f (sort xs) ≡ count f xs
unfolding sort
count-sort f [] = refl
count-sort f (x ∷ xs) = count-insert_sorted f x (sort xs) ∙ ground (arith, count-sort f xs)

abbrev Sorted : List ℤ → Type 0
Sorted [] = Unit
Sorted (x ∷ xs) = All (λ y. leb_ℤ x y ≡ true) xs × Sorted xs

All-insert_sorted :
    (P : ℤ → Type 0) (x : ℤ) (ys : List ℤ) → P x → All P ys → All P (insert_sorted x ys)
unfolding insert_sorted
All-insert_sorted P x [] h k = (h, tt)
All-insert_sorted P x (y ∷ ys) h k = elim (Bool-cases (leb_ℤ x y)) [
  | inl e ↦ rw e (h, k)
  | inr e ↦ rw e (k.0, All-insert_sorted P x ys h k.1)
]

leb_ℤ-trans : (x y z : ℤ) → leb_ℤ x y ≡ true → leb_ℤ y z ≡ true → leb_ℤ x z ≡ true
leb_ℤ-trans x y z h k = ground arith

leb_ℤ-total : (x y : ℤ) → leb_ℤ x y ≡ false → leb_ℤ y x ≡ true
leb_ℤ-total x y h = ground arith

below_all :
    (x y : ℤ) (ys : List ℤ)
    → leb_ℤ x y ≡ true
    → All (λ z. leb_ℤ y z ≡ true) ys
    → All (λ z. leb_ℤ x z ≡ true) ys
below_all x y [] h k = tt
below_all x y (z ∷ ys) h k = (leb_ℤ-trans x y z h k.0, below_all x y ys h k.1)

insert_sorted-Sorted : (x : ℤ) (ys : List ℤ) → Sorted ys → Sorted (insert_sorted x ys)
unfolding insert_sorted
insert_sorted-Sorted x [] s = (tt, tt)
insert_sorted-Sorted x (y ∷ ys) s = elim (Bool-cases (leb_ℤ x y)) [
  | inl e ↦ rw e ((e, below_all x y ys e s.0), s)
  | inr e ↦ rw e (
    All-insert_sorted (λ z. leb_ℤ y z ≡ true) x ys (leb_ℤ-total x y e) s.0,
    insert_sorted-Sorted x ys s.1,
  )
]

sort-Sorted : (xs : List ℤ) → Sorted (sort xs)
unfolding sort
sort-Sorted [] = tt
sort-Sorted (x ∷ xs) = insert_sorted-Sorted x (sort xs) (sort-Sorted xs)

abbrev pub lower : ℤ → ℤ → Bool
lower d x = ltb_ℤ x d

abbrev pub higher : ℤ → ℤ → Bool
higher d x = ltb_ℤ d x

none_lower : (d : ℤ) (xs : List ℤ) → All (λ y. leb_ℤ d y ≡ true) xs → count (lower d) xs ≡ 0
none_lower d [] h = refl
none_lower d (x ∷ xs) h = let e = h.0 in ground (arith, e, none_lower d xs h.1)

count-≤ : (f : ℤ → Bool) (xs : List ℤ) → count f xs ≤ length xs
count-≤ f [] = omega arith
count-≤ f (x ∷ xs) = ground (arith, count-≤ f xs)

All-get : (P : ℤ → Type 0) (xs : List ℤ) (i : ℕ) (d : ℤ) → All P xs → get_elem? xs i ≡ some d → P d
All-get P [] i d h e = absurd cc
All-get P (x ∷ xs) zero d h e = let q : x ≡ d = cc in subst P q h.0
All-get P (x ∷ xs) (suc i) d h e = All-get P xs i d h.1 e

-- The element at a position of a sorted list has at most that many below it, and at most those behind the
-- position above it.
position_bounds :
    (xs : List ℤ) (i : ℕ) (d : ℤ)
    → Sorted xs
    → get_elem? xs i ≡ some d
    → (count (lower d) xs ≤ i)
      × (count (higher d) xs + suc i ≤ length xs)
      × (1 ≤ count (eqb_ℤ d) xs)
position_bounds [] i d s e = absurd cc
position_bounds (x ∷ xs) zero d s e =
    let q : x ≡ d = cc in
    subst
      (λ d.
        (count (lower d) (x ∷ xs) ≤ 0)
        × (count (higher d) (x ∷ xs) + 1 ≤ length (x ∷ xs))
        × (1 ≤ count (eqb_ℤ d) (x ∷ xs)))
      q (ground (arith, none_lower x xs s.0), ground (arith, count-≤ (higher x) xs), ground arith)
position_bounds (x ∷ xs) (suc i) d s e =
    let (a, b, c) = position_bounds xs i d s.1 e in
    let l : leb_ℤ x d ≡ true = All-get (λ y. leb_ℤ x y ≡ true) xs i d s.0 e in
    (ground (arith, a), ground (arith, b, l), ground (arith, c))

-- A median of a list is in it, and at most one half of the list is below it and less than one half above.
abbrev pub IsMedian : List ℤ → ℤ → Type 0
IsMedian xs d =
    (1 ≤ count (eqb_ℤ d) xs)
    × (count (lower d) xs ≤ length xs / 2)
    × (count (higher d) xs + suc (length xs / 2) ≤ length xs)

get-median : (xs : List ℤ) (i : ℕ) → i < length xs → (d : ℤ) × (get_elem? xs i ≡ some d)
get-median [] i k = absurd (omega arith)
get-median (x ∷ xs) zero k = (x, refl)
get-median (x ∷ xs) (suc i) k = get-median xs i (omega arith)

sort-IsMedian : (xs : List ℤ) → is_empty xs ≡ false → IsMedian xs (median (sort xs))
unfolding median
sort-IsMedian xs k =
    let n = length-sort xs in
    let (d, e) =
      get-median (sort xs) (length (sort xs) / 2) (omega (arith, n, nonempty_length xs k)) in
    let (a, b, c) = position_bounds (sort xs) (length (sort xs) / 2) d (sort-Sorted xs) e in
    rw (e, median)
      (
        omega (arith, c, count-sort (eqb_ℤ d) xs),
        omega (arith, n, a, count-sort (lower d) xs),
        omega (arith, n, b, count-sort (higher d) xs),
      )

-- After the first kept difference, `finalize` always sets a rate, and takes it from the median of the kept
-- differences, which is between 1 and 999999: one of them, with at most one half of them below it and less
-- than one half above it.
pub finalize_rate :
    (ops : FloatOps) (a : StreamAnalyzer)
    → IsSound a
    → is_empty a.pts_diffs ≡ false
    → (d : ℤ) × IsMedian a.pts_diffs d
      × IsStep d
      × ((finalize ops a).detected_fps ≡ rate_of ops a.time_base d)
unfolding finalize
finalize_rate ops a s h =
    let m = median-IsStep a.pts_diffs s.steps h in
    (
      median (sort a.pts_diffs),
      sort-IsMedian a.pts_diffs h,
      m,
      rw (h, (s.seen h).0, (s.seen h).1, step_positive (median (sort a.pts_diffs)) m),
    )
