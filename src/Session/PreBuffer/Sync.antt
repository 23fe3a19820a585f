-- ===== src/Session/PreBuffer/Sync.antt =====
-- recording_session.cpp: the counters of the pre-buffer and its packets.
use ivckolpak.Prelude.{
  ℕ, zero, suc, ◌+◌, ◌^◌, ◌≤◌, ◌<◌, ◌≡◌, refl, inl, inr, Bool, true, false, List, [], ◌∷◌, arith,
  length, Bool-cases, IsSuffix, here, later,
}
use ivckolpak.Prelude.Int.{pos}
use ivckolpak.Prelude.Word.{sub64, sub64_exact}
use ivckolpak.Session.Packet.{Packet, keyframes, total_size}
use ivckolpak.Session.PreBuffer.{PreBuffer, has_keyframe, remove_front, skip_to_keyframe, erase_gop}

pub record InSync (b : PreBuffer) : Type 0 where
  pub counted : b.iframe_count ≡ pos (keyframes b.packets)
  pub summed : b.bytes ≡ total_size b.packets
  pub small : total_size b.packets < 2 ^ 64

-- What a loop that removes packets from the front of `ps` leaves.
pub record Trims (ps rest : List Packet) (bytes : ℕ) : Type 0 where
  pub suffix : IsSuffix rest ps
  pub summed : bytes ≡ total_size rest

pub Trims-refl : (ps : List Packet) (bytes : ℕ) → bytes ≡ total_size ps → Trims ps ps bytes
Trims-refl ps bytes h = record { suffix = here; summed = h }

pub Trims-cons :
    {ps rest : List Packet} {bytes : ℕ} (p : Packet)
    → Trims ps rest bytes
    → Trims (p ∷ ps) rest bytes
Trims-cons p t = record { suffix = later t.suffix; summed = t.summed }

-- Taking the size of the first packet off the sum.
pub sub64-size :
    (p : Packet) (ps : List Packet) (bytes : ℕ)
    → bytes ≡ total_size (p ∷ ps)
    → total_size (p ∷ ps) < 2 ^ 64
    → sub64 bytes p.size ≡ total_size ps
sub64-size p ps bytes h k = omega (arith, sub64_exact bytes p.size)

pub total_size-suffix : {rest ps : List Packet} → IsSuffix rest ps → total_size rest ≤ total_size ps
total_size-suffix here = omega arith
total_size-suffix (later s) = omega (arith, total_size-suffix s)

pub length-suffix : {rest ps : List Packet} → IsSuffix rest ps → length rest ≤ length ps
length-suffix here = omega arith
length-suffix (later s) = omega (arith, length-suffix s)

pub keyframes-suffix : {rest ps : List Packet} → IsSuffix rest ps → keyframes rest ≤ keyframes ps
keyframes-suffix here = omega arith
keyframes-suffix (later {x = x} s) = ground (arith, keyframes-suffix s)

pub remove_front-Trims :
    (n : ℕ) (ps : List Packet) (bytes : ℕ)
    → bytes ≡ total_size ps
    → total_size ps < 2 ^ 64
    → Trims ps (remove_front n ps bytes).0 (remove_front n ps bytes).1
unfolding remove_front
remove_front-Trims zero ps bytes h k = Trims-refl ps bytes h
remove_front-Trims (suc n) [] bytes h k = Trims-refl [] bytes h
remove_front-Trims (suc n) (p ∷ ps) bytes h k =
    Trims-cons p
      (remove_front-Trims n ps (sub64 bytes p.size) (sub64-size p ps bytes h k) (omega arith))

pub skip_to_keyframe-Trims :
    (ps : List Packet) (bytes : ℕ)
    → bytes ≡ total_size ps
    → total_size ps < 2 ^ 64
    → Trims ps (skip_to_keyframe ps bytes).0 (skip_to_keyframe ps bytes).1
unfolding skip_to_keyframe
skip_to_keyframe-Trims [] bytes h k = Trims-refl [] bytes h
skip_to_keyframe-Trims (p ∷ ps) bytes h k = elim (Bool-cases p.is_keyframe) [
  | inl key ↦ simp key (Trims-refl (p ∷ ps) bytes h)
  | inr delta ↦ simp delta (
      Trims-cons p
        (skip_to_keyframe-Trims ps (sub64 bytes p.size) (sub64-size p ps bytes h k) (omega arith)))
]

pub keyframes-skip_to_keyframe :
    (ps : List Packet) (bytes : ℕ) → keyframes (skip_to_keyframe ps bytes).0 ≡ keyframes ps
unfolding skip_to_keyframe
keyframes-skip_to_keyframe [] bytes = refl
keyframes-skip_to_keyframe (p ∷ ps) bytes =
    ground (arith, keyframes-skip_to_keyframe ps (sub64 bytes p.size))

pub erase_gop-Trims :
    (r : Bool) (ps : List Packet) (bytes : ℕ)
    → bytes ≡ total_size ps
    → total_size ps < 2 ^ 64
    → Trims ps (erase_gop r ps bytes).0 (erase_gop r ps bytes).2
unfolding erase_gop
erase_gop-Trims r [] bytes h k = Trims-refl [] bytes h
erase_gop-Trims true (p ∷ ps) bytes h k = elim (Bool-cases p.is_keyframe) [
  | inl key ↦ simp key (Trims-refl (p ∷ ps) bytes h)
  | inr delta ↦ simp delta (
      Trims-cons p
        (erase_gop-Trims true ps (sub64 bytes p.size) (sub64-size p ps bytes h k) (omega arith)))
]
erase_gop-Trims false (p ∷ ps) bytes h k = elim (Bool-cases p.is_keyframe) [
  | inl key ↦ simp key (
      Trims-cons p
        (erase_gop-Trims true ps (sub64 bytes p.size) (sub64-size p ps bytes h k) (omega arith)))
  | inr delta ↦ simp delta (
      Trims-cons p
        (erase_gop-Trims false ps (sub64 bytes p.size) (sub64-size p ps bytes h k) (omega arith)))
]

-- With a key frame already removed, the loop stops in front of the next one.
keyframes-erase_gop-true :
    (ps : List Packet) (bytes : ℕ)
    → (keyframes (erase_gop true ps bytes).0 ≡ keyframes ps) × ((erase_gop true ps bytes).1 ≡ true)
unfolding erase_gop
keyframes-erase_gop-true [] bytes = (refl, refl)
keyframes-erase_gop-true (p ∷ ps) bytes =
    ground (arith, keyframes-erase_gop-true ps (sub64 bytes p.size))

-- From the start, exactly one key frame goes if there is one.
pub keyframes-erase_gop :
    (ps : List Packet) (bytes : ℕ)
    → 0 < keyframes ps
    → (keyframes (erase_gop false ps bytes).0 + 1 ≡ keyframes ps)
      × ((erase_gop false ps bytes).1 ≡ true)
unfolding erase_gop
keyframes-erase_gop [] bytes h = elim h [ ]
keyframes-erase_gop (p ∷ ps) bytes h = ground (
  arith,
  keyframes-erase_gop ps (sub64 bytes p.size),
  keyframes-erase_gop-true ps (sub64 bytes p.size),
)

pub has_keyframe→keyframes : (ps : List Packet) → has_keyframe ps ≡ true → 0 < keyframes ps
has_keyframe→keyframes [] h = cc
has_keyframe→keyframes (p ∷ ps) h = ground (arith, has_keyframe→keyframes ps)

pub keyframes→has_keyframe : (ps : List Packet) → 0 < keyframes ps → has_keyframe ps ≡ true
keyframes→has_keyframe [] h = elim h [ ]
keyframes→has_keyframe (p ∷ ps) h = ground (arith, keyframes→has_keyframe ps)
