-- ===== src/Alarm/Server/Client.antt =====
-- alarm_server.cpp: `runClient` over a sequence of reads.
use ivckolpak.Prelude.{
  ◌≡◌, refl, sym, ◌∙◌, ap, true, false, List, [], ◌∷◌, ◌++◌, Option, some, arith, Bool-cases,
  Option-cases, inl, inr, append_assoc, append-nil, drop, suc, map,
}
use mathlib.Core.Path.{subst}
use ivckolpak.Prelude.Bytes.{Bytes}
use ivckolpak.Alarm.Decode.{Root, decode}
use ivckolpak.Alarm.Server.{
  Processed, returns, from_brace, without_brace, process_buffer, received, Served, silent,
  add_served, after_read, then_read, run_client,
}
use ivckolpak.Alarm.Server.Append.{
  empty_brace, from_brace-append_some, from_brace-append_none, find_json_end-append,
  find_json_end_bound, take-append, drop-append,
}
use ivckolpak.Alarm.Server.Frames.{
  Frames, no_brace, no_end, throws, next, thrown_at, add_alarms, Frames-total,
  process_buffer-Frames,
}
use ivckolpak.Alarm.Server.Chunks.{Agrees, Frames-more, same_brace}

-- All bytes that the reads bring.
abbrev pub joined : List Bytes → Bytes
joined [] = []
joined (b ∷ bs) = b ++ joined bs

calm : (b : Bytes) → (without_brace b).thrown ≡ false
unfolding without_brace
calm b = refl

empty_left : returns [] ≡ without_brace []
unfolding without_brace
empty_left = refl

Agrees-join :
    (p q q' r : Processed)
    → Agrees r (add_alarms p.alarms q')
    → Agrees q' q
    → Agrees r (add_alarms p.alarms q)
Agrees-join p q q' r j s = record {
  alarms = j.alarms ∙ ap (λ x. p.alarms ++ x) s.alarms;
  thrown = j.thrown ∙ s.thrown;
  rest = j.rest ∙ s.rest;
}

module _ (parse : Bytes → Option Root) where
  -- What comes after an exception does not matter.
  abbrev Stays : Bytes → Processed → Type 0
  Stays b p = (r : Processed) × Frames parse b r × (r.alarms ≡ p.alarms) × (r.thrown ≡ true)

  Frames-thrown :
      (b more : Bytes) (p : Processed) → Frames parse b p → p.thrown ≡ true → Stays (b ++ more) p
  Frames-thrown b more p (no_brace n k) t = ground (arith, calm b, ap (λ x. x.thrown) k, t)
  Frames-thrown b more p (no_end c e z k) t = ground (arith, ap (λ x. x.thrown) k, t)
  Frames-thrown b more p (throws c n e z d k) t = (
    thrown_at (drop (suc n) (c ++ more)),
    throws (c ++ more) n (from_brace-append_some b c more e) (find_json_end-append c more n z)
        (ap (λ x. decode (parse x)) (take-append (suc n) c more (find_json_end_bound c n z)) ∙ d)
        refl,
    sym (ap (λ x. x.alarms) k),
    refl,
  )
  Frames-thrown b more p (next c n evts q e z d k r) t =
      let short = find_json_end_bound c n z in
      let (u, f, a, h) = Frames-thrown (drop (suc n) c) more q r (sym (ap (λ x. x.thrown) k) ∙ t) in
      (
        add_alarms evts u,
        next (c ++ more) n evts u (from_brace-append_some b c more e)
            (find_json_end-append c more n z)
            (ap (λ x. decode (parse x)) (take-append (suc n) c more short) ∙ d) refl
            (subst (λ x. Frames parse x u) (sym (drop-append (suc n) c more short)) f),
        ap (λ x. evts ++ x) a ∙ sym (ap (λ x. x.alarms) k),
        h,
      )

  same_rest :
      (x y more : Bytes)
      → from_brace x ≡ from_brace y
      → from_brace (x ++ more) ≡ from_brace (y ++ more)
  same_rest x y more e = elim (Option-cases (from_brace x)) [
    | inl n ↦ from_brace-append_none x more n ∙ sym (from_brace-append_none y more (sym e ∙ n))
    | inr (c, h) ↦
        from_brace-append_some x c more h ∙ sym (from_brace-append_some y c more (sym e ∙ h))
  ]

  -- The thread from a buffer that the bytes `b` have left.
  abbrev Serves : List Bytes → Bytes → Bytes → Processed → Type 0
  Serves bs b buffer p =
      (r : Processed) × Frames parse (b ++ joined bs) r
      × ((c : Served) × (run_client parse (map received bs) buffer ≡ some c)
          × (r.alarms ≡ p.alarms ++ c.alarms)
          × (r.thrown ≡ c.thrown))

  serve_thrown :
      (bs : List Bytes) (x b buffer : Bytes) (p q r : Processed)
      → process_buffer parse (buffer ++ x) ≡ some q
      → Frames parse (b ++ x) r
      → Agrees r (add_alarms p.alarms q)
      → q.thrown ≡ true
      → Serves (x ∷ bs) b buffer p
  unfolding run_client after_read then_read
  serve_thrown bs x b buffer p q r e f a t =
      let (u, g, same, h) = Frames-thrown (b ++ x) (joined bs) r f (a.thrown ∙ t) in
      (
        u,
        subst (λ y. Frames parse y u) (append_assoc b x (joined bs)) g,
        (
          record { alarms = q.alarms; thrown = true },
          ap (λ o. then_read o (run_client parse (map received bs))) e
              ∙ ap (λ y. after_read y q.alarms (run_client parse (map received bs) q.buffer)) t,
          same ∙ a.alarms,
          h,
        ),
      )

  serve_on :
      (bs : List Bytes) (x b buffer : Bytes) (p q r : Processed)
      → process_buffer parse (buffer ++ x) ≡ some q
      → Agrees r (add_alarms p.alarms q)
      → q.thrown ≡ false
      → Serves bs (b ++ x) q.buffer r
      → Serves (x ∷ bs) b buffer p
  unfolding run_client after_read then_read
  serve_on bs x b buffer p q r e a t (u, g, (c, run, same, h)) = (
    u,
    subst (λ y. Frames parse y u) (append_assoc b x (joined bs)) g,
    (
      record c { alarms = q.alarms ++ c.alarms },
      ap (λ o. then_read o (run_client parse (map received bs))) e
          ∙ ap (λ y. after_read y q.alarms (run_client parse (map received bs) q.buffer)) t
          ∙ ap (add_served q.alarms) run,
      same ∙ ap (λ y. y ++ c.alarms) a.alarms ∙ append_assoc p.alarms q.alarms c.alarms,
      h,
    ),
  )

  serve :
      (bs : List Bytes) (b buffer : Bytes) (p : Processed)
      → Frames parse b p
      → p.thrown ≡ false
      → from_brace buffer ≡ from_brace p.buffer
      → Serves bs b buffer p
  unfolding run_client
  serve [] b buffer p f t e = (
    p,
    subst (λ y. Frames parse y p) (sym (append-nil b)) f,
    (silent, refl, sym (append-nil p.alarms), t),
  )
  serve (x ∷ bs) b buffer p f t e =
      let (q, g) = Frames-total parse (buffer ++ x) in
      let (q', g', s) =
        same_brace parse (buffer ++ x) (p.buffer ++ x) q (same_rest buffer p.buffer x e) g in
      let (r, h, j) = Frames-more parse b x p q' f t g' in
      let a = Agrees-join p q q' r j s in
      elim (Bool-cases q.thrown) [
        | inl k ↦
            serve_thrown bs x b buffer p q r (process_buffer-Frames parse (buffer ++ x) q g) h a k
        | inr k ↦
            serve_on bs x b buffer p q r (process_buffer-Frames parse (buffer ++ x) q g) a k
              (serve bs (b ++ x) q.buffer r h (a.thrown ∙ k) (sym a.rest))
      ]

  -- A client's thread passes on the alarms of the stream of its bytes, in their order, however the bytes are
  -- cut into reads: they are those that `processBuffer` gives on all bytes at once; and an exception ends
  -- the thread just where one would leave that call.
  pub run_client_stream :
      (bs : List Bytes)
      → (r : Processed) × (process_buffer parse (joined bs) ≡ some r)
        × ((c : Served) × (run_client parse (map received bs) [] ≡ some c)
            × (c.alarms ≡ r.alarms)
            × (c.thrown ≡ r.thrown))
  run_client_stream bs =
      let (r, f, (c, run, same, h)) =
        serve bs [] [] (returns []) (no_brace empty_brace empty_left) refl refl in
      (r, process_buffer-Frames parse (joined bs) r f, (c, run, sym same, sym h))
