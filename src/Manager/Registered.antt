-- ===== src/Manager/Registered.antt =====
-- camera_manager.cpp and config_repository.hpp: a serial number in the manager and in the repository.
use ivckolpak.Prelude.{
  ℕ, zero, suc, ◌≡◌, refl, sym, ◌∙◌, ap, List, [], ◌∷◌, Option, none, some, if◌then◌else◌,
  get_elem?, drop, Bool-cases, inl, inr,
}
use ivckolpak.Prelude.Bytes.{Bytes, bytes_eq}
use ivckolpak.Prelude.Assoc.{lookup, lookup-insert}
use ivckolpak.Config.Types.{CameraConfig, ParsedConfig}
use ivckolpak.Config.Repository.{
  Repository, empty, register_camera, get_camera, set_global, register_all, registered,
}
use ivckolpak.Manager.{Indices, no_indices, enter, enter_all, initialize_manager}

-- The camera of a number, where there is a number.
abbrev pub numbered : List CameraConfig → Option ℕ → Option CameraConfig
numbered cs none = none
numbered cs (some i) = get_elem? cs i

drop-first :
    (all cs : List CameraConfig) (c : CameraConfig) (i : ℕ)
    → drop i all ≡ c ∷ cs
    → (get_elem? all i ≡ some c) × (drop (suc i) all ≡ cs)
drop-first [] cs c zero e = absurd cc
drop-first [] cs c (suc i) e = absurd cc
drop-first (a ∷ all) cs c zero e = (cc, cc)
drop-first (a ∷ all) cs c (suc i) e = drop-first all cs c i e

module _ (all : List CameraConfig) (s : Bytes) where
  -- Repository and index name the same camera.
  abbrev Agree : Repository → Indices → Type 0
  Agree r x = lookup s r.cameras ≡ numbered all (lookup s x.by_serial)

  enter-Agree :
      (c : CameraConfig) (i : ℕ) (r : Repository) (x : Indices)
      → get_elem? all i ≡ some c
      → Agree r x
      → Agree (register_camera c.serialid c r) (enter c i x)
  unfolding register_camera enter
  enter-Agree c i r x e a = elim (Bool-cases (bytes_eq c.serialid s)) [
    | inl h ↦
        lookup-insert c.serialid s c r.cameras
        ∙ ap (λ b. if b then some c else lookup s r.cameras) h
        ∙ sym e
        ∙ ap (numbered all) (
            sym (
              lookup-insert c.serialid s i x.by_serial
              ∙ ap (λ b. if b then some i else lookup s x.by_serial) h))
    | inr h ↦
        lookup-insert c.serialid s c r.cameras
        ∙ ap (λ b. if b then some c else lookup s r.cameras) h
        ∙ a
        ∙ ap (numbered all) (
            sym (
              lookup-insert c.serialid s i x.by_serial
              ∙ ap (λ b. if b then some i else lookup s x.by_serial) h))
  ]

  enter_all-Agree :
      (cs : List CameraConfig) (i : ℕ) (r : Repository) (x : Indices)
      → drop i all ≡ cs
      → Agree r x
      → Agree (register_all cs r) (enter_all cs i x)
  unfolding register_all enter_all
  enter_all-Agree [] i r x e a = a
  enter_all-Agree (c ∷ cs) i r x e a =
      let (f, g) = drop-first all cs c i e in
      enter_all-Agree cs (suc i) _ _ g (enter-Agree c i r x f a)

-- After a start the manager and the repository agree on every serial number: the camera that the
-- repository has for it is the one whose number the manager's index has, and neither has one where the
-- other has none.
pub registered_agrees :
    (cfg : ParsedConfig) (s : Bytes)
    → get_camera s (registered cfg empty)
      ≡ numbered cfg.cameras (lookup s (initialize_manager cfg).indices.by_serial)
unfolding get_camera registered set_global initialize_manager
registered_agrees cfg s =
    enter_all-Agree cfg.cameras s cfg.cameras 0 empty no_indices refl (unfold lookup in refl)
