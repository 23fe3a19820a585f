-- ===== src/Alarm/Server/Frames.antt =====
-- alarm_server.cpp: the loop of `processBuffer` as a relation.
use ivckolpak.Prelude.{
  ℕ, zero, suc, ◌≤◌, ◌<◌, ◌≡◌, refl, sym, ◌∙◌, ap, true, List, [], ◌∷◌, ◌++◌, Option, none, some,
  arith, ◌==◌, length, take, drop, length-drop, Bool-cases, Option-cases, inl, inr,
}
use ivckolpak.Prelude.Bytes.{Bytes}
use ivckolpak.Alarm.Event.{AlarmEvent}
use ivckolpak.Alarm.Frame.{find_json_end}
use ivckolpak.Alarm.Decode.{Root, decode}
use ivckolpak.Alarm.Server.{
  Processed, returns, from_brace, without_brace, after_object, at_end, at_brace, process,
  process_buffer,
}

abbrev pub thrown_at : Bytes → Processed
thrown_at left = record { buffer = left; alarms = []; thrown = true }

abbrev pub add_alarms : List AlarmEvent → Processed → Processed
add_alarms evts p = record p { alarms = evts ++ p.alarms }

-- `Frames parse buffer p`: the loop on `buffer` gives `p`.
pub data Frames (parse : Bytes → Option Root) : Bytes → Processed → Type 0 where
  no_brace :
      {b : Bytes} {p : Processed} → from_brace b ≡ none → p ≡ without_brace b → Frames parse b p
  no_end :
      {b : Bytes} {p : Processed} (c : Bytes)
      → from_brace b ≡ some c
      → find_json_end c ≡ 0
      → p ≡ returns c
      → Frames parse b p
  throws :
      {b : Bytes} {p : Processed} (c : Bytes) (n : ℕ)
      → from_brace b ≡ some c
      → find_json_end c ≡ suc n
      → decode (parse (take (suc n) c)) ≡ none
      → p ≡ thrown_at (drop (suc n) c)
      → Frames parse b p
  next :
      {b : Bytes} {p : Processed} (c : Bytes) (n : ℕ) (evts : List AlarmEvent) (q : Processed)
      → from_brace b ≡ some c
      → find_json_end c ≡ suc n
      → decode (parse (take (suc n) c)) ≡ some evts
      → p ≡ add_alarms evts q
      → Frames parse (drop (suc n) c) q
      → Frames parse b p

pub from_brace_shorter :
    (b c : Bytes) → from_brace b ≡ some c → (0 < length c) × (length c ≤ length b)
unfolding from_brace
from_brace_shorter [] c h = ground arith
from_brace_shorter (x ∷ b) c h = elim (Bool-cases (x == b'{')) [
  | inl e ↦ ground (arith, h, e)
  | inr e ↦ ground (arith, h, e, from_brace_shorter b c)
]

drop_shorter : (n : ℕ) (c : Bytes) → 0 < length c → length (drop (suc n) c) < length c
drop_shorter n c h = omega (arith, length-drop (suc n) c)

module _ (parse : Bytes → Option Root) where
  at_brace-some :
      (again : Bytes → Option Processed) (b c : Bytes) (n : ℕ)
      → from_brace b ≡ some c
      → find_json_end c ≡ n
      → at_brace parse again b (from_brace b) ≡ at_end parse again c n
  unfolding at_brace
  at_brace-some again b c n e z = ap (at_brace parse again b) e ∙ ap (at_end parse again c) z

  -- The loop on fuel gives what the relation says.
  pub Frames-process :
      (f : ℕ) (b : Bytes) (p : Processed)
      → Frames parse b p
      → length b < f
      → process parse f b ≡ some p
  unfolding process at_end after_object at_brace
  Frames-process zero b p r h = ground arith
  Frames-process (suc f) b p (no_brace e q) h =
      ap (at_brace parse (process parse f) b) e ∙ ap some (sym q)
  Frames-process (suc f) b p (no_end c e z q) h =
      at_brace-some (process parse f) b c 0 e z ∙ ap some (sym q)
  Frames-process (suc f) b p (throws c n e z d q) h =
      at_brace-some (process parse f) b c (suc n) e z
      ∙ ap (λ o. after_object (drop (suc n) c) o (process parse f (drop (suc n) c))) d
      ∙ ap some (sym q)
  Frames-process (suc f) b p (next c n evts q e z d k r) h =
      let (full, short) = from_brace_shorter b c e in
      let small = drop_shorter n c full in
      at_brace-some (process parse f) b c (suc n) e z
      ∙ ap (λ o. after_object (drop (suc n) c) o (process parse f (drop (suc n) c))) d
      ∙ ap (after_object (drop (suc n) c) (some evts))
          (Frames-process f (drop (suc n) c) q r (omega arith))
      ∙ ap some (sym k)

  abbrev Ends : Bytes → Type 0
  Ends b = (p : Processed) × Frames parse b p

  -- The loop at `c`; the last argument is where the object ends there.
  Frames-at :
      (b c : Bytes)
      → from_brace b ≡ some c
      → ((n : ℕ) → Ends (drop (suc n) c))
      → (k : ℕ) → find_json_end c ≡ k
      → Ends b
  Frames-at b c e more zero z = (returns c, no_end c e z refl)
  Frames-at b c e more (suc n) z = elim (Option-cases (decode (parse (take (suc n) c)))) [
    | inl d ↦ (thrown_at (drop (suc n) c), throws c n e z d refl)
    | inr (evts, d) ↦ (add_alarms evts (more n).0, next c n evts (more n).0 e z d refl (more n).1)
  ]

  Frames_within : (f : ℕ) (b : Bytes) → length b < f → Ends b
  Frames_within zero b h = ground arith
  Frames_within (suc f) b h = elim (Option-cases (from_brace b)) [
    | inl e ↦ (without_brace b, no_brace e refl)
    | inr (c, e) ↦
        let (full, short) = from_brace_shorter b c e in
        Frames-at b c e
          (λ n. Frames_within f (drop (suc n) c) (omega (arith, drop_shorter n c full)))
          (find_json_end c) refl
  ]

  -- The loop ends on every buffer.
  pub Frames-total : (b : Bytes) → (p : Processed) × Frames parse b p
  Frames-total b = Frames_within (suc (length b)) b (omega arith)

  pub process_buffer-Frames :
      (b : Bytes) (p : Processed) → Frames parse b p → process_buffer parse b ≡ some p
  unfolding process_buffer
  process_buffer-Frames b p r = Frames-process (suc (length b)) b p r (omega arith)
