-- ===== src/Alarm/Server/Settle.antt =====
-- alarm_server.cpp: what `processBuffer` leaves in the buffer.
use ivckolpak.Prelude.{
  suc, ◌≤◌, ◌≡◌, refl, sym, ◌∙◌, ap, false, [], Option, none, some, arith, ltb, if◌then◌else◌,
  length, drop, Bool-cases, inl, inr, ◌⊎◌,
}
use ivckolpak.Prelude.Bytes.{Bytes}
use ivckolpak.Alarm.Frame.{find_json_end}
use ivckolpak.Alarm.Decode.{Root}
use mathlib.Core.Path.{subst}
use ivckolpak.Alarm.Server.{max_buf, Processed, returns, from_brace, without_brace, process_buffer}
use ivckolpak.Alarm.Server.Frames.{
  Frames, no_brace, no_end, throws, next, Frames-total, process_buffer-Frames,
}
use ivckolpak.Alarm.Server.Append.{from_brace_idem, empty_brace}

-- No `{` and at most 32768 bytes, or an object that has not ended.
abbrev pub Waits : Bytes → Type 0
Waits b =
    ((from_brace b ≡ none) × (length b ≤ max_buf))
    ⊎ ((from_brace b ≡ some b) × (find_json_end b ≡ 0))

without_brace-Waits : (b : Bytes) → from_brace b ≡ none → Waits (without_brace b).buffer
unfolding without_brace
without_brace-Waits b e = elim (Bool-cases (ltb max_buf (length b))) [
  | inl h ↦ subst (λ t. Waits (if t then [] else b)) (sym h) (inl (empty_brace, omega arith))
  | inr h ↦ subst (λ t. Waits (if t then [] else b)) (sym h) (inl (e, ground (arith, h)))
]

module _ (parse : Bytes → Option Root) where
  Frames-Waits : (b : Bytes) (p : Processed) → Frames parse b p → p.thrown ≡ false → Waits p.buffer
  Frames-Waits b p (no_brace n k) t = subst (λ x. Waits x.buffer) (sym k) (without_brace-Waits b n)
  Frames-Waits b p (no_end c e z k) t =
      subst (λ x. Waits x.buffer) (sym k) (inr (from_brace_idem b c e, z))
  Frames-Waits b p (throws c n e z d k) t = ground (arith, ap (λ x. x.thrown) k, t)
  Frames-Waits b p (next c n evts q e z d k r) t =
      subst (λ x. Waits x.buffer) (sym k)
        (Frames-Waits (drop (suc n) c) q r (sym (ap (λ x. x.thrown) k) ∙ t))

  -- `processBuffer` returns on every buffer, whatever the parser makes of the objects; unless an exception
  -- is thrown it leaves at most 32768 bytes without a `{`, or an object that has not ended, from its `{` on.
  pub process_buffer_settles :
      (b : Bytes)
      → (p : Processed) × (process_buffer parse b ≡ some p) × (p.thrown ≡ false → Waits p.buffer)
  process_buffer_settles b =
      let (p, f) = Frames-total parse b in
      (p, process_buffer-Frames parse b p f, Frames-Waits b p f)

  -- An object that does not end stays in the buffer whole, however long it is: the limit of 32768 bytes
  -- is not applied to it.
  pub process_buffer_keeps :
      (b : Bytes)
      → from_brace b ≡ some b
      → find_json_end b ≡ 0
      → process_buffer parse b ≡ some (returns b)
  process_buffer_keeps b e z = process_buffer-Frames parse b (returns b) (no_end b e z refl)
