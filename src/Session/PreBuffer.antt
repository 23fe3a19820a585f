-- ===== src/Session/PreBuffer.antt =====
-- recording_session.cpp: the ring of groups of pictures kept before an event.
pub mod Sync
pub mod Drop
pub mod Limits
pub mod Add
use ivckolpak.Prelude.{
  ℕ, zero, suc, ◌+◌, ◌*◌, ◌/◌, ◌<◌, ◌≡◌, refl, Bool, true, false, not, ◌&&◌, ◌||◌, List, [], ◌∷◌,
  ◌++◌, Option, none, some, arith, ltb, leb, if◌then◌else◌, length, drop,
}
use ivckolpak.Prelude.Bytes.{is_empty}
use ivckolpak.Prelude.Int.{ℤ, pos, ◌+ℤ◌, ◌-ℤ◌, ltb_ℤ}
use ivckolpak.Prelude.Word.{add64, sub64}
use ivckolpak.Session.Packet.{Packet}

abbrev pub max_pre_buffer_bytes : ℕ
max_pre_buffer_bytes = 50 * 1024 * 1024

abbrev pub max_pre_buffer_packets : ℕ
max_pre_buffer_packets = 500

-- `pre_buffer_`, `pre_buffer_iframe_count_` and `current_buffer_bytes_`
pub record PreBuffer : Type 0 where
  pub packets : List Packet
  pub iframe_count : ℤ
  pub bytes : ℕ

abbrev pub empty : PreBuffer
empty = record { packets = []; iframe_count = pos 0; bytes = 0 }

-- Whether `first_keyframe` is found before the end.
abbrev pub has_keyframe : List Packet → Bool
has_keyframe [] = false
has_keyframe (p ∷ ps) = p.is_keyframe || has_keyframe ps

-- The loop that removes the oldest packets where no key frame is there: `n` rounds at most.
unfoldable pub remove_front : ℕ → List Packet → ℕ → List Packet × ℕ
remove_front zero ps bytes = (ps, bytes)
remove_front (suc n) [] bytes = ([], bytes)
remove_front (suc n) (p ∷ ps) bytes = remove_front n ps (sub64 bytes p.size)

-- The packets in front of the first key frame are taken off.
unfoldable pub skip_to_keyframe : List Packet → ℕ → List Packet × ℕ
skip_to_keyframe [] bytes = ([], bytes)
skip_to_keyframe (p ∷ ps) bytes =
    if p.is_keyframe then (p ∷ ps, bytes) else skip_to_keyframe ps (sub64 bytes p.size)

-- The loop that erases up to the second key frame; the flag is `keyframe_removed`.
unfoldable pub erase_gop : Bool → List Packet → ℕ → List Packet × Bool × ℕ
erase_gop removed [] bytes = ([], removed, bytes)
erase_gop removed (p ∷ ps) bytes =
    if p.is_keyframe && removed
    then (p ∷ ps, removed, bytes)
    else erase_gop (removed || p.is_keyframe) ps (sub64 bytes p.size)

-- `std::max<size_t>(1, n)`
abbrev at_least_one : ℕ → ℕ
at_least_one n = if ltb 1 n then n else 1

-- No key frame is there: a quarter of the packets goes, and one at least.
force_remove : PreBuffer → PreBuffer
unfolding remove_front
force_remove b =
    let (rest, bytes) = remove_front (at_least_one (length b.packets / 4)) b.packets b.bytes in
    record b { packets = rest; bytes = bytes }

-- What stands in front of the first key frame goes, and then all up to the second.
drop_first_gop : PreBuffer → PreBuffer
unfolding skip_to_keyframe erase_gop
drop_first_gop b =
    let (from_key, bytes) = skip_to_keyframe b.packets b.bytes in
    let (rest, removed, bytes') = erase_gop false from_key bytes in
    record b {
      packets = rest;
      bytes = bytes';
      iframe_count = if removed then b.iframe_count -ℤ pos 1 else b.iframe_count;
    }

unfoldable pub drop_oldest_gop : PreBuffer → PreBuffer
unfolding force_remove drop_first_gop
drop_oldest_gop b =
    if is_empty b.packets
    then b
    else if not (has_keyframe b.packets)
    then force_remove b
    else drop_first_gop b

-- `while (pre_buffer_iframe_count_ > cfg_.pre_buffer_iframes)`; none if the rounds do not suffice.
unfoldable pub drop_excess : ℕ → ℤ → PreBuffer → Option PreBuffer
drop_excess zero limit b = none
drop_excess (suc fuel) limit b = elim (ltb_ℤ limit b.iframe_count) [
  | true ↦ drop_excess fuel limit (drop_oldest_gop b)
  | false ↦ some b
]

abbrev uncount : Packet → ℤ → ℤ
uncount p n = if p.is_keyframe then n -ℤ pos 1 else n

-- The loop of `emergency_clear_pre_buffer` over the packets left.
clear_bytes : ℕ → List Packet → ℤ → ℕ → PreBuffer
clear_bytes target [] n bytes = record { packets = []; iframe_count = n; bytes = bytes }
clear_bytes target (p ∷ ps) n bytes =
    let rest = clear_bytes target ps (uncount p n) (sub64 bytes p.size) in
    if ltb target bytes then rest else record { packets = p ∷ ps; iframe_count = n; bytes = bytes }

unfoldable pub emergency_clear_pre_buffer : PreBuffer → ℕ → PreBuffer
unfolding clear_bytes
emergency_clear_pre_buffer b target = clear_bytes target b.packets b.iframe_count b.bytes

-- The loop of `emergency_clear_pre_buffer_by_count` over the packets left.
clear_count : ℕ → List Packet → ℤ → ℕ → PreBuffer
clear_count target [] n bytes = record { packets = []; iframe_count = n; bytes = bytes }
clear_count target (p ∷ ps) n bytes =
    let rest = clear_count target ps (uncount p n) (sub64 bytes p.size) in
    if ltb target (length (p ∷ ps))
    then rest
    else record { packets = p ∷ ps; iframe_count = n; bytes = bytes }

unfoldable pub emergency_clear_pre_buffer_by_count : PreBuffer → ℕ → PreBuffer
unfolding clear_count
emergency_clear_pre_buffer_by_count b target = clear_count target b.packets b.iframe_count b.bytes

-- The two emergency limits of `add_to_pre_buffer`.
unfoldable pub enforce_limits : PreBuffer → PreBuffer
enforce_limits b =
    let c =
      if ltb max_pre_buffer_bytes b.bytes
      then emergency_clear_pre_buffer b (max_pre_buffer_bytes / 2)
      else b in
    if ltb max_pre_buffer_packets (length c.packets)
    then emergency_clear_pre_buffer_by_count c (max_pre_buffer_packets / 2)
    else c

-- The packet is counted and put at the end.
unfoldable pub append : Packet → PreBuffer → PreBuffer
append p b = record {
  packets = b.packets ++ p ∷ [];
  iframe_count = if p.is_keyframe then b.iframe_count +ℤ pos 1 else b.iframe_count;
  bytes = add64 b.bytes p.size;
}

abbrev map_option : (PreBuffer → PreBuffer) → Option PreBuffer → Option PreBuffer
map_option f none = none
map_option f (some b) = some (f b)

-- One round more than there are packets: by then the buffer is empty, and a loop that still goes
-- on changes nothing any more. None: the loop does not end.
unfoldable pub add_to_pre_buffer : ℤ → Packet → PreBuffer → Option PreBuffer
add_to_pre_buffer limit p b = elim p.pkt [
  | none ↦ some b
  | some _ ↦ map_option enforce_limits (drop_excess (length b.packets + 2) limit (append p b))
]
