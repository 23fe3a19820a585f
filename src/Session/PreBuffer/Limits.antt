-- ===== src/Session/PreBuffer/Limits.antt =====
-- The emergency limits, and `add_to_pre_buffer` as a whole.
use ivckolpak.Prelude.{
  ℕ, ◌/◌, ◌^◌, ◌≤◌, ◌<◌, ◌≡◌, inl, inr, List, [], ◌∷◌, arith, ltb, if◌then◌else◌, length,
  Bool-cases, IsSuffix, here, later, IsSuffix-trans,
}
use ivckolpak.Prelude.Int.{ℤ, pos, ◌-ℤ◌, ◌≤ℤ◌}
use ivckolpak.Prelude.Word.{sub64}
use ivckolpak.Session.Packet.{Packet, keyframes, total_size}
use ivckolpak.Session.PreBuffer.{
  PreBuffer, uncount, clear_bytes, clear_count, emergency_clear_pre_buffer,
  emergency_clear_pre_buffer_by_count, enforce_limits, max_pre_buffer_bytes, max_pre_buffer_packets,
}
use ivckolpak.Session.PreBuffer.Sync.{InSync, sub64-size, total_size-suffix, keyframes-suffix}

-- What an emergency loop leaves of the packets `ps`.
record Clears (ps : List Packet) (c : PreBuffer) : Type 0 where
  suffix : IsSuffix c.packets ps
  synced : InSync c

Clears-cons : {ps : List Packet} {c : PreBuffer} (p : Packet) → Clears ps c → Clears (p ∷ ps) c
Clears-cons p t = record { suffix = later t.suffix; synced = t.synced }

uncount-keyframes :
    (p : Packet) (ps : List Packet) (n : ℤ)
    → n ≡ pos (keyframes (p ∷ ps))
    → uncount p n ≡ pos (keyframes ps)
unfolding ◌-ℤ◌
uncount-keyframes p ps n h = ground arith

module _ (target : ℕ) where
  clear_bytes-Clears :
      (ps : List Packet) (n : ℤ) (bytes : ℕ)
      → n ≡ pos (keyframes ps)
      → bytes ≡ total_size ps
      → total_size ps < 2 ^ 64
      → Clears ps (clear_bytes target ps n bytes)
        × (total_size (clear_bytes target ps n bytes).packets ≤ target)
  unfolding clear_bytes
  clear_bytes-Clears [] n bytes h k l = (
    record { suffix = here; synced = record { counted = h; summed = k; small = l } },
    omega arith,
  )
  clear_bytes-Clears (p ∷ ps) n bytes h k l =
      let (rest, low) =
        clear_bytes-Clears ps (uncount p n) (sub64 bytes p.size) (uncount-keyframes p ps n h)
          (sub64-size p ps bytes k l) (omega arith) in
      elim (Bool-cases (ltb target bytes)) [
        | inl over ↦ simp over (Clears-cons p rest, low)
        | inr fits ↦ simp fits (
          record { suffix = here; synced = record { counted = h; summed = k; small = l } },
          ground arith,
        )
      ]

  clear_count-Clears :
      (ps : List Packet) (n : ℤ) (bytes : ℕ)
      → n ≡ pos (keyframes ps)
      → bytes ≡ total_size ps
      → total_size ps < 2 ^ 64
      → Clears ps (clear_count target ps n bytes)
        × (length (clear_count target ps n bytes).packets ≤ target)
  unfolding clear_count
  clear_count-Clears [] n bytes h k l = (
    record { suffix = here; synced = record { counted = h; summed = k; small = l } },
    omega arith,
  )
  clear_count-Clears (p ∷ ps) n bytes h k l =
      let (rest, low) =
        clear_count-Clears ps (uncount p n) (sub64 bytes p.size) (uncount-keyframes p ps n h)
          (sub64-size p ps bytes k l) (omega arith) in
      elim (Bool-cases (ltb target (length (p ∷ ps)))) [
        | inl over ↦ simp over (Clears-cons p rest, low)
        | inr fits ↦ simp fits (
          record { suffix = here; synced = record { counted = h; summed = k; small = l } },
          ground arith,
        )
      ]

-- The three bounds of the pre-buffer.
pub record IsBounded (limit : ℤ) (b : PreBuffer) : Type 0 where
  pub key_limit : b.iframe_count ≤ℤ limit
  pub byte_limit : b.bytes ≤ max_pre_buffer_bytes
  pub packet_limit : length b.packets ≤ max_pre_buffer_packets

-- What `add_to_pre_buffer` leaves, from the packets `ps`.
pub record Keeps (limit : ℤ) (ps : List Packet) (c : PreBuffer) : Type 0 where
  pub newest : IsSuffix c.packets ps
  pub synced : InSync c
  pub bounded : IsBounded limit c

bytes_cleared :
    (b : PreBuffer)
    → InSync b
    → Clears b.packets (emergency_clear_pre_buffer b (max_pre_buffer_bytes / 2))
      × (total_size (emergency_clear_pre_buffer b (max_pre_buffer_bytes / 2)).packets
          ≤ max_pre_buffer_bytes / 2)
unfolding emergency_clear_pre_buffer
bytes_cleared b s =
    clear_bytes-Clears (max_pre_buffer_bytes / 2) b.packets b.iframe_count b.bytes s.counted
      s.summed s.small

count_cleared :
    (b : PreBuffer)
    → InSync b
    → Clears b.packets (emergency_clear_pre_buffer_by_count b (max_pre_buffer_packets / 2))
      × (length (emergency_clear_pre_buffer_by_count b (max_pre_buffer_packets / 2)).packets
          ≤ max_pre_buffer_packets / 2)
unfolding emergency_clear_pre_buffer_by_count
count_cleared b s =
    clear_count-Clears (max_pre_buffer_packets / 2) b.packets b.iframe_count b.bytes s.counted
      s.summed s.small

Clears-refl : (b : PreBuffer) → InSync b → Clears b.packets b
Clears-refl b s = record { suffix = here; synced = s }

Clears-trans : {ps : List Packet} {b c : PreBuffer} → Clears ps b → Clears b.packets c → Clears ps c
Clears-trans t u = record { suffix = IsSuffix-trans u.suffix t.suffix; synced = u.synced }

-- Fewer packets, fewer key frames: the first limit survives the emergency loops.
Clears-key_limit :
    {b c : PreBuffer} (limit : ℤ)
    → InSync b
    → Clears b.packets c
    → b.iframe_count ≤ℤ limit
    → c.iframe_count ≤ℤ limit
Clears-key_limit limit s t h =
    ground (arith, s.counted, t.synced.counted, keyframes-suffix t.suffix)

-- The second emergency limit, after the first.
count_limit :
    (limit : ℤ) (b c : PreBuffer)
    → InSync b
    → Clears b.packets c
    → b.iframe_count ≤ℤ limit
    → c.bytes ≤ max_pre_buffer_bytes
    → Keeps limit b.packets (
        if ltb max_pre_buffer_packets (length c.packets)
        then emergency_clear_pre_buffer_by_count c (max_pre_buffer_packets / 2)
        else c)
count_limit limit b c s t h k = elim (Bool-cases (ltb max_pre_buffer_packets (length c.packets))) [
  | inl many ↦
      let (u, few) = count_cleared c t.synced in
      let all = Clears-trans t u in
      simp many (record {
        newest = all.suffix;
        synced = all.synced;
        bounded = record {
          key_limit = Clears-key_limit limit s all h;
          byte_limit = omega (arith, total_size-suffix u.suffix, u.synced.summed, t.synced.summed);
          packet_limit = omega (arith, few);
        };
      })
  | inr fits ↦ simp fits (record {
    newest = t.suffix;
    synced = t.synced;
    bounded = record {
      key_limit = Clears-key_limit limit s t h;
      byte_limit = k;
      packet_limit = ground arith;
    };
  })
]

pub enforce_limits-Keeps :
    (limit : ℤ) (b : PreBuffer)
    → InSync b
    → b.iframe_count ≤ℤ limit
    → Keeps limit b.packets (enforce_limits b)
unfolding enforce_limits
enforce_limits-Keeps limit b s h = elim (Bool-cases (ltb max_pre_buffer_bytes b.bytes)) [
  | inl heavy ↦
      let light = bytes_cleared b s in
      simp heavy (count_limit limit b _ s light.0 h (omega (arith, light.1, light.0.synced.summed)))
  | inr fits ↦ simp fits (count_limit limit b b s (Clears-refl b s) h (ground arith))
]
