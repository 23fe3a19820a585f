-- ===== src/Session/PreBuffer/Add.antt =====
-- recording_session.cpp: `add_to_pre_buffer` as a whole.
use ivckolpak.Prelude.{
  ℕ, zero, suc, ◌+◌, ◌*◌, ◌≤◌, ◌<◌, ◌≡◌, refl, ap, ◌∙◌, false, [], ◌∷◌, ◌++◌, some, none, arith,
  length, IsSuffix-trans, List,
}
use ivckolpak.Prelude.Int.{ℤ, pos, negsuc, ◌+ℤ◌, ltb_ℤ}
use ivckolpak.Prelude.Word.{add64_exact}
use ivckolpak.Session.Packet.{
  AvPacket, Packet, keyframes, total_size, keyframes-append, total_size-append,
}
use ivckolpak.Session.PreBuffer.{
  PreBuffer, drop_excess, enforce_limits, append, add_to_pre_buffer, max_pre_buffer_bytes,
  max_pre_buffer_packets, map_option,
}
use ivckolpak.Session.PreBuffer.Sync.{InSync}
use ivckolpak.Session.PreBuffer.Drop.{drop_excess-Reduces, drop_excess_diverges}
use ivckolpak.Session.PreBuffer.Limits.{IsBounded, Keeps, enforce_limits-Keeps}

append-InSync :
    (p : Packet) (b : PreBuffer)
    → InSync b
    → b.bytes ≤ max_pre_buffer_bytes
    → p.size ≤ 1024 * 1024
    → InSync (append p b)
unfolding append ◌+ℤ◌
append-InSync p b s h k = record {
  counted = ground (arith, s.counted, keyframes-append b.packets (p ∷ []));
  summed =
      omega (arith, s.summed, total_size-append b.packets (p ∷ []), add64_exact b.bytes p.size);
  small = omega (arith, s.summed, total_size-append b.packets (p ∷ []));
}

keyframes-le-length : (ps : List Packet) → keyframes ps ≤ length ps
keyframes-le-length [] = omega arith
keyframes-le-length (p ∷ ps) = ground (arith, keyframes-le-length ps)

add_live :
    (limit : ℤ) (p : Packet) (a : AvPacket) (b : PreBuffer)
    → p.pkt ≡ some a
    → add_to_pre_buffer limit p b
      ≡ map_option enforce_limits (drop_excess (length b.packets + 2) limit (append p b))
unfolding add_to_pre_buffer
add_live limit p a b e = ground arith

append-fuel : (p : Packet) (b : PreBuffer) → keyframes (append p b).packets < length b.packets + 2
unfolding append
append-fuel p b = ground (arith, keyframes-append b.packets (p ∷ []), keyframes-le-length b.packets)

-- With a limit that is not negative, a packet of at most 1 MB goes into a pre-buffer that is in
-- sync and within its bounds: the loops end, the result is in sync and within the bounds again,
-- and it holds the newest of the old packets and the new one, in their order.
pub add_to_pre_buffer_total :
    (limit : ℕ) (p : Packet) (a : AvPacket) (b : PreBuffer)
    → p.pkt ≡ some a
    → p.size ≤ 1024 * 1024
    → InSync b
    → IsBounded (pos limit) b
    → (c : PreBuffer) × (add_to_pre_buffer (pos limit) p b ≡ some c)
      × Keeps (pos limit) (b.packets ++ p ∷ []) c
add_to_pre_buffer_total limit p a b e h s d =
    let t = append-InSync p b s d.byte_limit h in
    let (c, ends, r) =
      drop_excess-Reduces (length b.packets + 2) limit (append p b) t (append-fuel p b) in
    let k = enforce_limits-Keeps (pos limit) c r.synced r.within in
    (
      enforce_limits c,
      add_live (pos limit) p a b e ∙ ap (map_option enforce_limits) ends,
      record {
        newest = IsSuffix-trans k.newest (unfold append in r.suffix);
        synced = k.synced;
        bounded = k.bounded;
      },
    )

-- Where `pre_buffer_iframes` is negative, `add_to_pre_buffer` does not end on any packet.
pub add_to_pre_buffer_diverges :
    (n : ℕ) (p : Packet) (a : AvPacket) (b : PreBuffer)
    → p.pkt ≡ some a
    → p.size ≤ 1024 * 1024
    → InSync b
    → b.bytes ≤ max_pre_buffer_bytes
    → add_to_pre_buffer (negsuc n) p b ≡ none
add_to_pre_buffer_diverges n p a b e h s d =
    add_live (negsuc n) p a b e
    ∙ ap (map_option enforce_limits)
        (drop_excess_diverges (length b.packets + 2) n (append p b) (append-InSync p b s d h))

-- A loop that is not entered.
drop_excess_none :
    (fuel limit : ℕ) (b : PreBuffer)
    → 0 < fuel
    → InSync b
    → keyframes b.packets ≤ limit
    → drop_excess fuel (pos limit) b ≡ some b
unfolding drop_excess
drop_excess_none zero limit b f s h = elim f [ ]
drop_excess_none (suc fuel) limit b f s h = rw (below, drop_excess)
  where
    below : ltb_ℤ (pos limit) b.iframe_count ≡ false
    below = ground (arith, s.counted)

enforce_limits_none :
    (b : PreBuffer)
    → b.bytes ≤ max_pre_buffer_bytes
    → length b.packets ≤ max_pre_buffer_packets
    → enforce_limits b ≡ b
unfolding enforce_limits
enforce_limits_none b h k = ground arith

append-total :
    (p : Packet) (b : PreBuffer)
    → total_size (append p b).packets ≡ total_size (b.packets ++ p ∷ [])
unfolding append
append-total p b = refl

-- As long as no limit is passed, `add_to_pre_buffer` removes nothing.
pub add_to_pre_buffer_room :
    (limit : ℕ) (p : Packet) (a : AvPacket) (b : PreBuffer)
    → p.pkt ≡ some a
    → p.size ≤ 1024 * 1024
    → InSync b
    → IsBounded (pos limit) b
    → keyframes (b.packets ++ p ∷ []) ≤ limit
    → total_size (b.packets ++ p ∷ []) ≤ max_pre_buffer_bytes
    → length (b.packets ++ p ∷ []) ≤ max_pre_buffer_packets
    → (c : PreBuffer) × (add_to_pre_buffer (pos limit) p b ≡ some c)
      × (c.packets ≡ b.packets ++ p ∷ [])
add_to_pre_buffer_room limit p a b e h s d keys size count =
    let t = append-InSync p b s d.byte_limit h in
    (
      append p b,
      add_live (pos limit) p a b e
          ∙ ap (map_option enforce_limits) (
              drop_excess_none (length b.packets + 2) limit (append p b) (omega arith) t
                (unfold append in keys))
          ∙ ap some (
              enforce_limits_none (append p b) (omega (arith, t.summed, append-total p b))
                (unfold append in count)),
      unfold append in refl,
    )
