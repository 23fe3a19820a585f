-- ===== src/Session/Packet.antt =====
-- recording_session.hpp: `RecordingSession::Packet`, and the fields of `AVPacket` that it reads.
use ivckolpak.Prelude.{
  ℕ, suc, ◌+◌, ◌-◌, ◌^◌, ◌≡◌, Bool, false, List, [], ◌∷◌, ◌++◌, Option, none, some, arith,
  if◌then◌else◌,
}
use ivckolpak.Prelude.Int.{ℤ, negsuc}

-- An `AVPacket`: whether AV_PKT_FLAG_KEY is set, its time stamps, and its count of bytes.
pub record AvPacket : Type 0 where
  pub is_key : Bool
  pub pts : ℤ
  pub dts : ℤ
  pub size : ℕ
  pub stream_index : ℤ

-- AV_NOPTS_VALUE, the least `int64_t`
abbrev pub nopts : ℤ
nopts = negsuc (2 ^ 63 - 1)

-- `pkt` is none where the pointer is null.
pub record Packet : Type 0 where
  pub pkt : Option AvPacket
  pub is_keyframe : Bool
  pub pts : ℤ
  pub size : ℕ

unfoldable pub packet_of : Option AvPacket → Packet
packet_of none = record { pkt = none; is_keyframe = false; pts = nopts; size = 0 }
packet_of (some p) = record { pkt = some p; is_keyframe = p.is_key; pts = p.pts; size = p.size }

-- How many of the packets are key frames, and how many bytes they hold.
abbrev pub keyframes : List Packet → ℕ
keyframes [] = 0
keyframes (p ∷ ps) = if p.is_keyframe then suc (keyframes ps) else keyframes ps

abbrev pub total_size : List Packet → ℕ
total_size [] = 0
total_size (p ∷ ps) = p.size + total_size ps

pub keyframes-append : (xs ys : List Packet) → keyframes (xs ++ ys) ≡ keyframes xs + keyframes ys
keyframes-append [] ys = omega arith
keyframes-append (p ∷ ps) ys = ground (arith, keyframes-append ps ys)

pub total_size-append :
    (xs ys : List Packet) → total_size (xs ++ ys) ≡ total_size xs + total_size ys
total_size-append [] ys = omega arith
total_size-append (p ∷ ps) ys = omega (arith, total_size-append ps ys)
