-- ===== src/Manager/Index.antt =====
-- camera_manager.cpp: the indices that find the camera of an alarm.
use ivckolpak.Prelude.{
  ℕ, zero, suc, ◌+◌, ◌≤◌, ◌<◌, ◌≡◌, refl, sym, ◌∙◌, ap, false, List, [], ◌∷◌, Option, none, some,
  arith, if◌then◌else◌, Bool-cases, inl, inr, length, get_elem?, drop, All,
}
use ivckolpak.Prelude.Bytes.{Bytes, bytes_eq, bytes_eq_iff}
use ivckolpak.Prelude.Assoc.{Assoc, lookup, insert, lookup-insert}
use ivckolpak.Config.Types.{CameraConfig, GlobalConfig, ParsedConfig}
use ivckolpak.Config.Address.{extract_ip_hex_from_rtsp, hex_to_ip}
use ivckolpak.Manager.{
  Indices, no_indices, make_nodes, enter, enter_all, initialize_manager, or_else, find_idx,
}

-- Every number in the map is below `n`.
abbrev Within : ℕ → Assoc ℕ → Type 0
Within n m = (k : Bytes) (i : ℕ) → lookup k m ≡ some i → i < n

insert-Within : (n i : ℕ) (j : Bytes) (m : Assoc ℕ) → i < n → Within n m → Within n (insert j i m)
insert-Within n i j m h w k l e = elim (Bool-cases (bytes_eq j k)) [
  | inl b ↦ ground (arith, sym (lookup-insert j k i m) ∙ e, b)
  | inr b ↦
      w k l (sym (ap (λ x. if x then some i else lookup k m) b) ∙ sym (lookup-insert j k i m) ∙ e)
]

record AllWithin (n : ℕ) (x : Indices) : Type 0 where
  by_serial : Within n x.by_serial
  by_hex : Within n x.by_hex
  by_dotted : Within n x.by_dotted

enter-AllWithin :
    (n i : ℕ) (c : CameraConfig) (x : Indices) → i < n → AllWithin n x → AllWithin n (enter c i x)
unfolding enter
enter-AllWithin n i c x h w =
    let hex = extract_ip_hex_from_rtsp c.rtsp_url in
    record {
      by_serial = insert-Within n i c.serialid x.by_serial h w.by_serial;
      by_hex = insert-Within n i hex x.by_hex h w.by_hex;
      by_dotted = insert-Within n i (hex_to_ip hex) x.by_dotted h w.by_dotted;
    }

enter_all-AllWithin :
    (cs : List CameraConfig) (n i : ℕ) (x : Indices)
    → i + length cs ≤ n
    → AllWithin n x
    → AllWithin n (enter_all cs i x)
unfolding enter_all
enter_all-AllWithin [] n i x h w = w
enter_all-AllWithin (c ∷ cs) n i x h w =
    enter_all-AllWithin cs n (suc i) (enter c i x) (omega arith)
      (enter-AllWithin n i c x (omega arith) w)

no_lookup : (n : ℕ) → Within n []
unfolding lookup
no_lookup n k i e = ground (arith, e)

length-make_nodes :
    (g : GlobalConfig) (cs : List CameraConfig) → length (make_nodes g cs) ≡ length cs
unfolding make_nodes
length-make_nodes g [] = refl
length-make_nodes g (c ∷ cs) = ap suc (length-make_nodes g cs)

or_else-Within :
    (n : ℕ) (a b : Option ℕ) (i : ℕ)
    → ((j : ℕ) → a ≡ some j → j < n)
    → ((j : ℕ) → b ≡ some j → j < n)
    → or_else a b ≡ some i
    → i < n
or_else-Within n none b i f g e = g i e
or_else-Within n (some a) b i f g e = f i e

-- Every camera that an alarm is found to belong to has a node: after `initialize`, `find_idx` returns
-- nothing or the number of a node, whatever the alarm's serial number and addresses are.
pub find_idx_bounded :
    (cfg : ParsedConfig) (s h d : Bytes) (i : ℕ)
    → find_idx s h d (initialize_manager cfg).indices ≡ some i
    → i < length (initialize_manager cfg).nodes
unfolding find_idx initialize_manager
find_idx_bounded cfg s h d i e =
    let n = length cfg.cameras in
    let w =
      enter_all-AllWithin cfg.cameras n 0 no_indices (omega arith)
        (record { by_serial = no_lookup n; by_hex = no_lookup n; by_dotted = no_lookup n }) in
    let below =
      or_else-Within n _ _ i (w.by_serial s)
        (λ j. or_else-Within n _ _ j (w.by_hex h) (w.by_dotted d)) e in
    omega (arith, below, length-make_nodes cfg.global cfg.cameras)

-- No camera of the list has this serial number.
abbrev pub Lacks : Bytes → List CameraConfig → Type 0
Lacks s cs = All (λ c. bytes_eq c.serialid s ≡ false) cs

enter_all-serial :
    (s : Bytes) (cs : List CameraConfig) (i : ℕ) (x : Indices)
    → Lacks s cs
    → lookup s (enter_all cs i x).by_serial ≡ lookup s x.by_serial
unfolding enter_all enter
enter_all-serial s [] i x h = refl
enter_all-serial s (c ∷ cs) i x h =
    enter_all-serial s cs (suc i) (enter c i x) h.1
    ∙ lookup-insert c.serialid s i x.by_serial
    ∙ ap (λ b. if b then some i else lookup s x.by_serial) h.0

abbrev serial_of : Option CameraConfig → Bytes
serial_of none = []
serial_of (some c) = c.serialid

enter_all-finds :
    (cs : List CameraConfig) (k i : ℕ) (x : Indices) (c : CameraConfig)
    → get_elem? cs k ≡ some c
    → Lacks c.serialid (drop (suc k) cs)
    → lookup c.serialid (enter_all cs i x).by_serial ≡ some (i + k)
unfolding enter_all enter
enter_all-finds [] k i x c e h = ground (arith, e)
enter_all-finds (b ∷ cs) zero i x c e h =
    enter_all-serial c.serialid cs (suc i) (enter b i x) h
    ∙ lookup-insert b.serialid c.serialid i x.by_serial
    ∙ ap (λ t. if t then some i else lookup c.serialid x.by_serial)
        ((bytes_eq_iff b.serialid c.serialid).1 (ap serial_of e))
    ∙ ap some (omega arith)
enter_all-finds (b ∷ cs) (suc k) i x c e h =
    enter_all-finds cs k (suc i) (enter b i x) c e h ∙ ap some (omega arith)

-- An alarm with the serial number of a camera is found to be of that camera, whatever addresses it has,
-- where no later camera has the same number.
pub find_idx_serial :
    (cfg : ParsedConfig) (k : ℕ) (c : CameraConfig) (h d : Bytes)
    → get_elem? cfg.cameras k ≡ some c
    → Lacks c.serialid (drop (suc k) cfg.cameras)
    → find_idx c.serialid h d (initialize_manager cfg).indices ≡ some k
unfolding find_idx initialize_manager
find_idx_serial cfg k c h d e l =
    ap
      (λ o. or_else o (
        or_else (lookup h (enter_all cfg.cameras 0 no_indices).by_hex)
          (lookup d (enter_all cfg.cameras 0 no_indices).by_dotted)))
      (enter_all-finds cfg.cameras k 0 no_indices c e l)
    ∙ ap some (omega arith)
