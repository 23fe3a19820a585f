-- ===== src/Script/Template.antt =====
-- All macros of a command that is made of texts and macros.
use ivckolpak.Prelude.{
  ℕ, zero, suc, ◌<◌, ◌≡◌, refl, ◌∙◌, ap, sym, Bool, true, false, ◌||◌, List, [], ◌∷◌, ◌++◌, Option,
  none, some, not, ◌&&◌, if◌then◌else◌, arith, ltb, ltb→lt, ◌==◌, ==_iff, Bool-cases, inl, inr, All,
}
use ivckolpak.Prelude.Bytes.{Bytes, is_empty}
use ivckolpak.Alarm.Event.{AlarmEvent}
use ivckolpak.Config.Types.{CameraConfig}
use ivckolpak.Config.Filename.{LocalTime}
use ivckolpak.Script.{rep_from, rep, rep_event, rep_camera, rep_time, execute_script_async}
use ivckolpak.Script.Plain.{IsPlain}
use ivckolpak.Script.Macros.{
  macros, num_macros, values, nth, Piece, literal, macro, IsPiece, shown, spelling, is_filled,
  filling,
}
use ivckolpak.Script.Clashes.{
  all_below, all_below-lem, shown-ext, clashes, macros-IsPlain, macros_clash,
}
use ivckolpak.Script.Replace.{kept-IsPlain, replaced, kept-other}

other_macro : {a b : Bool} → a ≡ false → a || b ≡ true → b ≡ true
other_macro d h = ground arith

-- Some of the macros have been replaced.
abbrev partly : List Bytes → (ℕ → Bool) → ℕ → Bytes
partly vs done i = if done i then nth vs i else spelling i

-- One more.
abbrev and_also : (ℕ → Bool) → ℕ → ℕ → Bool
and_also done k i = done i || k == i

-- A macro is replaced where it stands, and nothing else.
module _ (vs : List Bytes) (plain : (i : ℕ) → IsPlain (nth vs i)) (done : ℕ → Bool) (k : ℕ)
    (below : k < num_macros) (new : done k ≡ false) where
  rep-macro :
      (i : ℕ) (s : Bytes)
      → i < num_macros
      → rep_from (spelling k) (nth vs k) zero (partly vs done i ++ s)
        ≡ partly vs (and_also done k) i ++ rep_from (spelling k) (nth vs k) zero s
  rep-macro i s l = elim (Bool-cases (done i)) [
    | inl h ↦ simp h (kept-IsPlain (nth macros k) (nth vs k) (nth vs i) s (plain i))
    | inr h ↦ elim (Bool-cases (k == i)) [
      | inl e ↦
          let q : i ≡ k = sym ((==_iff k i).0 e) in
          simp (h, e)
            (ap (λ j. rep_from (spelling k) (nth vs k) zero (spelling j ++ s)) q
              ∙ replaced (nth macros k) (nth vs k) s
              ∙ ap (λ j. nth vs j ++ rep_from (spelling k) (nth vs k) zero s) (sym q))
      | inr d ↦
          let c : clashes (nth macros k) (nth macros i) ≡ true =
            other_macro d (macros_clash k i below l) in
          simp (h, d) (kept-other (nth macros k) (nth vs k) (nth macros i) s (macros-IsPlain i l) c)
    ]
  ]

  rep-partly :
      (ps : List Piece)
      → All IsPiece ps
      → rep_from (spelling k) (nth vs k) zero (shown (partly vs done) ps)
        ≡ shown (partly vs (and_also done k)) ps
  unfolding shown
  rep-partly [] h = unfold rep_from in refl
  rep-partly (literal r ∷ ps) h =
      kept-IsPlain (nth macros k) (nth vs k) r (shown (partly vs done) ps) h.0
      ∙ ap (λ s. r ++ s) (rep-partly ps h.1)
  rep-partly (macro i ∷ ps) h =
      rep-macro i (shown (partly vs done) ps) h.0
      ∙ ap (λ s. partly vs (and_also done k) i ++ s) (rep-partly ps h.1)

-- The replacements of some macros, one after the other.
unfoldable reps : List Bytes → List ℕ → Bytes → Bytes
reps vs [] r = r
reps vs (k ∷ ks) r = reps vs ks (rep (spelling k) (nth vs k) r)

-- No macro is replaced twice.
unfoldable are_new : (ℕ → Bool) → List ℕ → Bool
are_new done [] = true
are_new done (k ∷ ks) = (not (done k) && ltb k num_macros) && are_new (and_also done k) ks

unfoldable all_done : (ℕ → Bool) → List ℕ → ℕ → Bool
all_done done [] = done
all_done done (k ∷ ks) = all_done (and_also done k) ks

reps-partly :
    (vs : List Bytes) (done : ℕ → Bool) (ks : List ℕ) (ps : List Piece)
    → ((i : ℕ) → IsPlain (nth vs i))
    → are_new done ks ≡ true
    → All IsPiece ps
    → reps vs ks (shown (partly vs done) ps) ≡ shown (partly vs (all_done done ks)) ps
unfolding reps rep are_new all_done
reps-partly vs done [] ps a n h = refl
reps-partly vs done (k ∷ ks) ps a n h =
    let below : k < num_macros = ltb→lt k num_macros (ground arith) in
    ap (reps vs ks) (rep-partly vs a done k below (ground arith) ps h)
    ∙ reps-partly vs (and_also done k) ks ps a (ground arith) h

-- The macros that are replaced, in their order.
abbrev order : Option AlarmEvent → List ℕ
order none = 0 ∷ 1 ∷ 2 ∷ 3 ∷ 4 ∷ 5 ∷ 6 ∷ 7 ∷ 8 ∷ 9 ∷ 18 ∷ []
order (some evt) =
    0 ∷ 1 ∷ 2 ∷ 3 ∷ 4 ∷ 5 ∷ 6 ∷ 7 ∷ 8 ∷ 9 ∷ 10 ∷ 11 ∷ 12 ∷ 13 ∷ 14 ∷ 15 ∷ 16 ∷ 17 ∷ 18 ∷ []

abbrev nothing_done : ℕ → Bool
nothing_done i = false

order-are_new : (evt : Option AlarmEvent) → are_new nothing_done (order evt) ≡ true
unfolding are_new
order-are_new none = refl
order-are_new (some evt) = refl

abbrev agrees : Option AlarmEvent → ℕ → Bool
agrees evt i =
    if is_filled evt i
    then all_done nothing_done (order evt) i
    else not (all_done nothing_done (order evt) i)

order-agrees : (evt : Option AlarmEvent) (i : ℕ) → i < num_macros → agrees evt i ≡ true
unfolding all_done all_below
order-agrees none i l = all_below-lem num_macros i (agrees none) refl l
order-agrees (some evt) i l = all_below-lem num_macros i (agrees (some evt)) refl l

same_test : (a b : Bool) → (if a then b else not b) ≡ true → b ≡ a
same_test a b h = ground arith

all_replaced :
    (evt : Option AlarmEvent) (vs : List Bytes) (i : ℕ)
    → i < num_macros
    → partly vs (all_done nothing_done (order evt)) i ≡ filling evt vs i
all_replaced evt vs i l =
    ap (λ b. if b then nth vs i else spelling i)
      (same_test (is_filled evt i) (all_done nothing_done (order evt) i) (order-agrees evt i l))

execute_script_async-reps :
    (now : LocalTime) (cmd : Bytes) (cfg : CameraConfig) (evt : Option AlarmEvent) (fp : Bytes)
    → is_empty cmd ≡ false
    → execute_script_async now cmd cfg evt fp ≡ some (reps (values now cfg evt fp) (order evt) cmd)
unfolding execute_script_async reps rep_event rep_camera rep_time nth
execute_script_async-reps now cmd cfg none fp e = simp e refl
execute_script_async-reps now cmd cfg (some evt) fp e = simp e refl

nth-IsPlain : (vs : List Bytes) (i : ℕ) → All IsPlain vs → IsPlain (nth vs i)
unfolding nth
nth-IsPlain [] i h = tt
nth-IsPlain (v ∷ vs) zero h = h.0
nth-IsPlain (v ∷ vs) (suc i) h = nth-IsPlain vs i h.1

-- A command is made of texts without `%` and of macros, and no value holds a `%`. What is submitted has the
-- texts as they are, and each macro's value in its place; but without an alarm its eight macros stay as they
-- are written.
pub execute_script_async-shown :
    (now : LocalTime) (ps : List Piece) (cfg : CameraConfig) (evt : Option AlarmEvent) (fp : Bytes)
    → All IsPiece ps
    → All IsPlain (values now cfg evt fp)
    → is_empty (shown spelling ps) ≡ false
    → execute_script_async now (shown spelling ps) cfg evt fp
      ≡ some (shown (filling evt (values now cfg evt fp)) ps)
execute_script_async-shown now ps cfg evt fp h a e =
    let vs : List Bytes = values now cfg evt fp in
    execute_script_async-reps now (shown spelling ps) cfg evt fp e
    ∙ ap some
        (reps-partly vs nothing_done (order evt) ps (λ i. nth-IsPlain vs i a) (order-are_new evt) h)
    ∙ ap some (
        shown-ext (partly vs (all_done nothing_done (order evt))) (filling evt vs) ps
          (λ i l. all_replaced evt vs i l) h)
