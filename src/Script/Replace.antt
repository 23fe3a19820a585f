-- ===== src/Script/Replace.antt =====
-- One macro's replacement (`rep` in utils.hpp) before a text, before itself and before another macro.
use ivckolpak.Prelude.{
  ℕ, zero, suc, ◌-◌, ◌≡◌, refl, ◌∙◌, ap, true, false, List, [], ◌∷◌, ◌++◌, length, arith,
}
use ivckolpak.Prelude.Bytes.{Bytes}
use ivckolpak.Prelude.Text.{starts_with}
use ivckolpak.Script.{rep_from}
use ivckolpak.Script.Plain.{IsPlain, no_macro}
use ivckolpak.Script.Clashes.{clashes, clashes-lem}

starts_with_self : (t r : Bytes) → starts_with t (t ++ r) ≡ true
unfolding starts_with
starts_with_self [] r = refl
starts_with_self (c ∷ t) r = ground (arith, starts_with_self t r)

pub length_cons : {A : Type 0} (c : A) (cs : List A) → length (c ∷ cs) ≡ suc (length cs)
length_cons c cs = omega arith

module _ (t v : Bytes) where
  -- A byte at which the macro does not start stands as it is.
  kept :
      (c : ℕ) (cs : Bytes)
      → starts_with (b'%' ∷ t) (c ∷ cs) ≡ false
      → rep_from (b'%' ∷ t) v zero (c ∷ cs) ≡ c ∷ rep_from (b'%' ∷ t) v zero cs
  unfolding rep_from
  kept c cs h =
      ap
        (λ b. elim b as (λ x. Bytes) [
          | true ↦ v ++ rep_from (b'%' ∷ t) v (length (b'%' ∷ t) - 1) cs
          | false ↦ c ∷ rep_from (b'%' ∷ t) v zero cs
        ])
        h

  pub kept-IsPlain :
      (r s : Bytes)
      → IsPlain r
      → rep_from (b'%' ∷ t) v zero (r ++ s) ≡ r ++ rep_from (b'%' ∷ t) v zero s
  kept-IsPlain [] s h = refl
  kept-IsPlain (c ∷ cs) s h =
      kept c (cs ++ s) (no_macro t c (cs ++ s) h.0) ∙ ap (λ r. c ∷ r) (kept-IsPlain cs s h.1)

  skipped : (r s : Bytes) → rep_from (b'%' ∷ t) v (length r) (r ++ s) ≡ rep_from (b'%' ∷ t) v zero s
  unfolding rep_from
  skipped [] s = refl
  skipped (c ∷ cs) s =
      ap (λ n. rep_from (b'%' ∷ t) v n (c ∷ cs ++ s)) (length_cons c cs) ∙ skipped cs s

  pub replaced :
      (s : Bytes) → rep_from (b'%' ∷ t) v zero (b'%' ∷ t ++ s) ≡ v ++ rep_from (b'%' ∷ t) v zero s
  unfolding rep_from starts_with
  replaced s =
      ap
        (λ b. elim b as (λ x. Bytes) [
          | true ↦ v ++ rep_from (b'%' ∷ t) v (length (b'%' ∷ t) - 1) (t ++ s)
          | false ↦ b'%' ∷ rep_from (b'%' ∷ t) v zero (t ++ s)
        ])
        (starts_with_self t s)
      ∙ ap (λ n. v ++ rep_from (b'%' ∷ t) v n (t ++ s)) (omega arith)
      ∙ ap (λ r. v ++ r) (skipped t s)

  -- Another macro.
  pub kept-other :
      (u s : Bytes)
      → IsPlain u
      → clashes t u ≡ true
      → rep_from (b'%' ∷ t) v zero (b'%' ∷ u ++ s) ≡ b'%' ∷ u ++ rep_from (b'%' ∷ t) v zero s
  unfolding starts_with
  kept-other u s h c =
      kept b'%' (u ++ s) (clashes-lem t u s c) ∙ ap (λ r. b'%' ∷ r) (kept-IsPlain u s h)
