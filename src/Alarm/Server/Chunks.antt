-- ===== src/Alarm/Server/Chunks.antt =====
-- alarm_server.cpp: `processBuffer` on the bytes of two reads.
use ivckolpak.Prelude.{
  ℕ, suc, ◌≡◌, refl, sym, ◌∙◌, ap, false, List, [], ◌++◌, Option, none, some, arith, ltb,
  if◌then◌else◌, length, take, drop, Bool-cases, inl, inr, append_assoc,
}
use ivckolpak.Prelude.Bytes.{Bytes}
use ivckolpak.Alarm.Event.{AlarmEvent}
use ivckolpak.Alarm.Frame.{find_json_end}
use ivckolpak.Alarm.Decode.{Root, decode}
use mathlib.Core.Path.{subst}
use ivckolpak.Alarm.Server.{max_buf, Processed, returns, from_brace, without_brace, process_buffer}
use ivckolpak.Alarm.Server.Frames.{
  Frames, no_brace, no_end, throws, next, add_alarms, Frames-total, process_buffer-Frames,
}
use ivckolpak.Alarm.Server.Append.{
  empty_brace, from_brace-append_some, from_brace-append_none, from_brace_idem,
  find_json_end-append, find_json_end_bound, take-append, drop-append,
}

-- The same alarms, the same end, and buffers that only bytes in front of the first `{` tell apart.
pub record Agrees (p q : Processed) : Type 0 where
  pub alarms : p.alarms ≡ q.alarms
  pub thrown : p.thrown ≡ q.thrown
  pub rest : from_brace p.buffer ≡ from_brace q.buffer

Agrees-refl : (p q : Processed) → p ≡ q → Agrees p q
Agrees-refl p q e = record {
  alarms = ap (λ r. r.alarms) e;
  thrown = ap (λ r. r.thrown) e;
  rest = ap (λ r. from_brace r.buffer) e;
}

-- Neither buffer gives an alarm, or an exception.
quiet : (x y : Bytes) → (without_brace x).alarms ≡ (without_brace y).alarms
unfolding without_brace
quiet x y = refl

calm : (x y : Bytes) → (without_brace x).thrown ≡ (without_brace y).thrown
unfolding without_brace
calm x y = refl

without_brace-none : (b : Bytes) → from_brace b ≡ none → from_brace (without_brace b).buffer ≡ none
unfolding without_brace
without_brace-none b e = elim (Bool-cases (ltb max_buf (length b))) [
  | inl h ↦ ap (λ t. from_brace (if t then [] else b)) h ∙ empty_brace
  | inr h ↦ ap (λ t. from_brace (if t then [] else b)) h ∙ e
]

module _ (parse : Bytes → Option Root) where
  -- The loop looks at nothing in front of the first `{`.
  pub same_brace :
      (x y : Bytes) (q : Processed)
      → from_brace x ≡ from_brace y
      → Frames parse x q
      → (r : Processed) × Frames parse y r × Agrees r q
  same_brace x y q e (no_brace n k) = (
    without_brace y,
    no_brace (sym e ∙ n) refl,
    record {
      alarms = quiet y x ∙ ap (λ r. r.alarms) (sym k);
      thrown = calm y x ∙ ap (λ r. r.thrown) (sym k);
      rest =
          without_brace-none y (sym e ∙ n)
          ∙ sym (without_brace-none x n)
          ∙ ap (λ r. from_brace r.buffer) (sym k);
    },
  )
  same_brace x y q e (no_end c f z k) = (q, no_end c (sym e ∙ f) z k, Agrees-refl q q refl)
  same_brace x y q e (throws c n f z d k) = (q, throws c n (sym e ∙ f) z d k, Agrees-refl q q refl)
  same_brace x y q e (next c n evts p f z d k r) =
      (q, next c n evts p (sym e ∙ f) z d k r, Agrees-refl q q refl)

  abbrev Joined : Bytes → Bytes → Processed → Processed → Type 0
  Joined b more p q =
      (r : Processed) × Frames parse (b ++ more) r × Agrees r (add_alarms p.alarms q)

  more_none :
      (b more : Bytes) (q : Processed)
      → from_brace b ≡ none
      → Frames parse ((without_brace b).buffer ++ more) q
      → Joined b more (without_brace b) q
  unfolding without_brace
  more_none b more q n s =
      let left = (without_brace b).buffer in
      same_brace (left ++ more) (b ++ more) q
        (from_brace-append_none left more (without_brace-none b n)
          ∙ sym (from_brace-append_none b more n))
        s

  more_waits :
      (b c more : Bytes) (q : Processed)
      → from_brace b ≡ some c
      → Frames parse (c ++ more) q
      → Joined b more (returns c) q
  more_waits b c more q e s =
      same_brace (c ++ more) (b ++ more) q
        (from_brace-append_some c c more (from_brace_idem b c e)
          ∙ sym (from_brace-append_some b c more e))
        s

  -- One object more in front.
  more_next :
      (b c more : Bytes) (n : ℕ) (evts : List AlarmEvent) (p q : Processed)
      → from_brace b ≡ some c
      → find_json_end c ≡ suc n
      → decode (parse (take (suc n) c)) ≡ some evts
      → Joined (drop (suc n) c) more p q
      → Joined b more (add_alarms evts p) q
  more_next b c more n evts p q e z d (u, f, a) =
      let short = find_json_end_bound c n z in
      (
        add_alarms evts u,
        next (c ++ more) n evts u (from_brace-append_some b c more e)
            (find_json_end-append c more n z)
            (ap (λ x. decode (parse x)) (take-append (suc n) c more short) ∙ d) refl
            (subst (λ x. Frames parse x u) (sym (drop-append (suc n) c more short)) f),
        record {
          alarms = ap (λ x. evts ++ x) a.alarms ∙ sym (append_assoc evts p.alarms q.alarms);
          thrown = a.thrown;
          rest = a.rest;
        },
      )

  pub Frames-more :
      (b more : Bytes) (p q : Processed)
      → Frames parse b p
      → p.thrown ≡ false
      → Frames parse (p.buffer ++ more) q
      → Joined b more p q
  Frames-more b more p q (no_brace n k) t s =
      subst (λ x. Joined b more x q) (sym k)
        (more_none b more q n (subst (λ x. Frames parse (x.buffer ++ more) q) k s))
  Frames-more b more p q (no_end c e z k) t s =
      subst (λ x. Joined b more x q) (sym k)
        (more_waits b c more q e (subst (λ x. Frames parse (x.buffer ++ more) q) k s))
  Frames-more b more p q (throws c n e z d k) t s = ground (arith, ap (λ x. x.thrown) k, t)
  Frames-more b more p q (next c n evts p' e z d k r) t s =
      subst (λ x. Joined b more x q) (sym k)
        (more_next b c more n evts p' q e z d (
          Frames-more (drop (suc n) c) more p' q r (sym (ap (λ x. x.thrown) k) ∙ t)
            (subst (λ x. Frames parse (x.buffer ++ more) q) k s)))

  -- However a client's bytes are cut in two reads, `processBuffer` gives the same alarms. It returns on
  -- the first read; where it throws nothing there, it returns on what it left with the second read behind
  -- it, and on all the bytes at once, and the alarms of the two calls are, in their order, those of the one;
  -- the one ends as the second does, and leaves the same bytes from the first `{` on.
  pub process_buffer_chunks :
      (b more : Bytes)
      → (p : Processed) × (process_buffer parse b ≡ some p)
        × (p.thrown ≡ false
            → (q : Processed) × (process_buffer parse (p.buffer ++ more) ≡ some q)
              × ((r : Processed) × (process_buffer parse (b ++ more) ≡ some r)
                  × (r.alarms ≡ p.alarms ++ q.alarms)
                  × (r.thrown ≡ q.thrown)
                  × (from_brace r.buffer ≡ from_brace q.buffer)))
  process_buffer_chunks b more =
      let (p, f) = Frames-total parse b in
      (
        p,
        process_buffer-Frames parse b p f,
        λ t.
            let (q, g) = Frames-total parse (p.buffer ++ more) in
            let (r, h, a) = Frames-more b more p q f t g in
            (
              q,
              process_buffer-Frames parse (p.buffer ++ more) q g,
              (r, process_buffer-Frames parse (b ++ more) r h, a.alarms, a.thrown, a.rest),
            ),
      )
