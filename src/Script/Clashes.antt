-- ===== src/Script/Clashes.antt =====
-- No macro of a command begins another one.
use ivckolpak.Prelude.{
  ℕ, zero, suc, ◌<◌, ◌≡◌, refl, ◌∙◌, ap, Bool, true, false, not, ◌&&◌, ◌||◌, List, [], ◌∷◌, ◌++◌,
  arith, ◌==◌, ==_iff, Bool-cases, inl, inr, All,
}
use ivckolpak.Prelude.Bytes.{Bytes}
use ivckolpak.Prelude.Text.{starts_with}
use ivckolpak.Script.Plain.{IsPlain, is_plain, is_plain-lem}
use ivckolpak.Script.Macros.{macros, num_macros, nth, Piece, literal, macro, IsPiece, shown}

pub shown-ext :
    (f g : ℕ → Bytes) (ps : List Piece)
    → ((i : ℕ) → i < num_macros → f i ≡ g i)
    → All IsPiece ps
    → shown f ps ≡ shown g ps
unfolding shown
shown-ext f g [] e h = refl
shown-ext f g (literal r ∷ ps) e h = ap (λ s. r ++ s) (shown-ext f g ps e h.1)
shown-ext f g (macro i ∷ ps) e h =
    ap (λ s. s ++ shown f ps) (e i h.0) ∙ ap (λ s. g i ++ s) (shown-ext f g ps e h.1)

-- A test of all numbers below a bound.
unfoldable pub all_below : ℕ → (ℕ → Bool) → Bool
all_below zero f = true
all_below (suc n) f = f n && all_below n f

pub all_below-lem : (n i : ℕ) (f : ℕ → Bool) → all_below n f ≡ true → i < n → f i ≡ true
unfolding all_below
all_below-lem zero i f h l = ground arith
all_below-lem (suc n) i f h l = elim (Bool-cases (i == n)) [
  | inl e ↦ ap f ((==_iff i n).0 e) ∙ ground arith
  | inr d ↦ all_below-lem n i f (ground arith) (ground arith)
]

-- The two texts differ where both have a byte.
unfoldable pub clashes : Bytes → Bytes → Bool
clashes [] u = false
clashes (a ∷ t) [] = false
clashes (a ∷ t) (b ∷ u) = not (a == b) || clashes t u

pub clashes-lem : (t u r : Bytes) → clashes t u ≡ true → starts_with t (u ++ r) ≡ false
unfolding clashes starts_with
clashes-lem [] u r h = ground arith
clashes-lem (a ∷ t) [] r h = ground arith
clashes-lem (a ∷ t) (b ∷ u) r h = elim (Bool-cases (a == b)) [
  | inl e ↦ ground (arith, e, clashes-lem t u r (ground (arith, e, h)))
  | inr d ↦ ground (arith, d)
]

pub macros-IsPlain : (i : ℕ) → i < num_macros → IsPlain (nth macros i)
unfolding all_below is_plain nth
macros-IsPlain i l =
    is_plain-lem (nth macros i) (all_below-lem num_macros i (λ i. is_plain (nth macros i)) refl l)

pub macros_clash :
    (i j : ℕ)
    → i < num_macros
    → j < num_macros
    → (i == j) || clashes (nth macros i) (nth macros j) ≡ true
unfolding all_below clashes nth
macros_clash i j l k =
    all_below-lem num_macros j (λ j. (i == j) || clashes (nth macros i) (nth macros j))
      (all_below-lem num_macros i
        (λ i. all_below num_macros (λ j. (i == j) || clashes (nth macros i) (nth macros j))) refl l)
      k
