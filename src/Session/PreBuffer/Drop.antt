-- ===== src/Session/PreBuffer/Drop.antt =====
-- `drop_oldest_gop_from_pre_buffer` and its loop.
use ivckolpak.Prelude.{
  ℕ, zero, suc, ◌+◌, ◌/◌, ◌<◌, ◌≡◌, refl, ◌∙◌, inl, inr, true, false, none, some, arith, length,
  Bool-cases, IsSuffix, here, IsSuffix-trans,
}
use ivckolpak.Prelude.Bytes.{is_empty}
use ivckolpak.Prelude.Int.{ℤ, pos, negsuc, ◌-ℤ◌, ltb_ℤ, ◌≤ℤ◌}
use ivckolpak.Session.Packet.{keyframes, total_size}
use ivckolpak.Session.PreBuffer.{
  PreBuffer, at_least_one, has_keyframe, skip_to_keyframe, force_remove, drop_first_gop,
  drop_oldest_gop, drop_excess,
}
use ivckolpak.Session.PreBuffer.Sync.{
  InSync, remove_front-Trims, skip_to_keyframe-Trims, erase_gop-Trims, total_size-suffix,
  keyframes-suffix, keyframes-skip_to_keyframe, keyframes-erase_gop, has_keyframe→keyframes,
  keyframes→has_keyframe,
}

-- With a key frame in it, the buffer loses one key frame and what stands around it in front.
pub record DropsGop (b c : PreBuffer) : Type 0 where
  pub suffix : IsSuffix c.packets b.packets
  pub summed : c.bytes ≡ total_size c.packets
  pub fewer : keyframes c.packets + 1 ≡ keyframes b.packets
  pub counted : c.iframe_count ≡ b.iframe_count -ℤ pos 1

drop_first_gop-DropsGop :
    (b : PreBuffer) → InSync b → 0 < keyframes b.packets → DropsGop b (drop_first_gop b)
unfolding drop_first_gop
drop_first_gop-DropsGop b s h =
    let skipped = skip_to_keyframe-Trims b.packets b.bytes s.summed s.small in
    let same = keyframes-skip_to_keyframe b.packets b.bytes in
    let below = total_size-suffix skipped.suffix in
    let erased =
      erase_gop-Trims false (skip_to_keyframe b.packets b.bytes).0 _ skipped.summed
        (omega (arith, below)) in
    let one =
      keyframes-erase_gop (skip_to_keyframe b.packets b.bytes).0
        (skip_to_keyframe b.packets b.bytes).1 (omega arith) in
    record {
      suffix = IsSuffix-trans erased.suffix skipped.suffix;
      summed = erased.summed;
      fewer = one.0 ∙ same;
      counted = rw one.1;
    }

pub DropsGop-InSync : {b c : PreBuffer} → InSync b → DropsGop b c → InSync c
unfolding ◌-ℤ◌
DropsGop-InSync {b} {c} s d = record {
  counted = ground (arith, s.counted, d.counted, d.fewer);
  summed = d.summed;
  small = omega (arith, total_size-suffix d.suffix);
}

-- On a buffer in sync that holds a key frame, `drop_oldest_gop_from_pre_buffer` takes exactly one
-- key frame off the front.
pub drop_oldest_gop-DropsGop :
    (b : PreBuffer) → InSync b → 0 < keyframes b.packets → DropsGop b (drop_oldest_gop b)
unfolding drop_oldest_gop
drop_oldest_gop-DropsGop b s h =
    ground (arith, drop_first_gop-DropsGop b s h, keyframes→has_keyframe b.packets h)

-- What the loop leaves: still in sync, at most `limit` key frames, the newest packets.
pub record Reduces (limit : ℤ) (b c : PreBuffer) : Type 0 where
  pub suffix : IsSuffix c.packets b.packets
  pub synced : InSync c
  pub within : c.iframe_count ≤ℤ limit

over-limit : (n : ℕ) (m : ℤ) → m ≡ pos n → (k : ℕ) → ltb_ℤ (pos k) m ≡ true → k < n
over-limit n (pos x) e k h = ground arith
over-limit n (negsuc x) e k h = cc

pub drop_excess-Reduces :
    (fuel limit : ℕ) (b : PreBuffer)
    → InSync b
    → keyframes b.packets < fuel
    → (c : PreBuffer) × (drop_excess fuel (pos limit) b ≡ some c) × Reduces (pos limit) b c
unfolding drop_excess
drop_excess-Reduces zero limit b s h = elim h [ ]
drop_excess-Reduces (suc fuel) limit b s h = elim (Bool-cases (ltb_ℤ (pos limit) b.iframe_count)) [
  | inr done ↦
      (b, rw (done, drop_excess), record { suffix = here; synced = s; within = ground arith })
  | inl more ↦
      let some_key = over-limit (keyframes b.packets) b.iframe_count s.counted limit more in
      let d = drop_oldest_gop-DropsGop b s (omega (arith, some_key)) in
      let (c, e, r) =
        drop_excess-Reduces fuel limit (drop_oldest_gop b) (DropsGop-InSync s d)
          (omega (arith, d.fewer)) in
      (
        c,
        rw (more, drop_excess) e,
        record { suffix = IsSuffix-trans r.suffix d.suffix; synced = r.synced; within = r.within },
      )
]

force_remove-InSync :
    (b : PreBuffer) → InSync b → has_keyframe b.packets ≡ false → InSync (force_remove b)
unfolding force_remove
force_remove-InSync b s h =
    let t =
      remove_front-Trims (at_least_one (length b.packets / 4)) b.packets b.bytes s.summed s.small in
    record {
      counted =
          ground (arith, s.counted, keyframes-suffix t.suffix, keyframes→has_keyframe b.packets);
      summed = t.summed;
      small = omega (arith, total_size-suffix t.suffix, s.small);
    }

-- `drop_oldest_gop_from_pre_buffer` keeps the counters right, with key frames or without.
drop_oldest_gop-InSync : (b : PreBuffer) → InSync b → InSync (drop_oldest_gop b)
drop_oldest_gop-InSync b s = elim (Bool-cases (has_keyframe b.packets)) [
  | inl key ↦
      DropsGop-InSync s (drop_oldest_gop-DropsGop b s (has_keyframe→keyframes b.packets key))
  | inr free ↦ elim (Bool-cases (is_empty b.packets)) [
    | inl e ↦ unfold drop_oldest_gop in rw e s
    | inr e ↦ unfold drop_oldest_gop in rw (e, free) (force_remove-InSync b s free)
  ]
]

-- With a negative limit the loop has no end: no number of rounds is enough.
pub drop_excess_diverges :
    (fuel n : ℕ) (b : PreBuffer) → InSync b → drop_excess fuel (negsuc n) b ≡ none
unfolding drop_excess
drop_excess_diverges zero n b s = refl
drop_excess_diverges (suc fuel) n b s =
    rw (above, drop_excess)
      (drop_excess_diverges fuel n (drop_oldest_gop b) (drop_oldest_gop-InSync b s))
  where
    above : ltb_ℤ (negsuc n) b.iframe_count ≡ true
    above = ground (arith, s.counted)
