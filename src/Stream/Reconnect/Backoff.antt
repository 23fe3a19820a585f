-- ===== src/Stream/Reconnect/Backoff.antt =====
-- The delay before the next attempt to connect.
use ivckolpak.Prelude.{
  ℕ, zero, suc, ◌+◌, ◌*◌, ◌^◌, ◌≤◌, ◌<◌, ◌≡◌, refl, sym, ◌∙◌, ap, Bool, true, false, List, [], ◌∷◌,
  arith, min, ltb, ltb→lt, ltb→le, length, not, ◌&&◌, Bool-cases, inl, inr,
}
use ivckolpak.Prelude.Int.{pos, ◌*ℤ◌, ltb_ℤ, is_pos}
use native.Mathlib.Nat.{pow-suc}
use ivckolpak.Stream.State.{Stream, new_stream, StreamConfig}
use ivckolpak.Stream.Input.{InputReply, open_input, close_input}
use ivckolpak.Stream.Reconnect.{
  next_delay, not_opened, notify_lost, Round, round, after_open, go_on, run,
}

next_delay-min : (d limit : ℕ) → next_delay (pos d) (pos limit) ≡ pos (min (d * 2) limit)
unfolding next_delay ◌*ℤ◌
next_delay-min d limit = ground arith

-- The input does not open: one of the steps fails.
abbrev pub refuses : InputReply → Bool
refuses r =
    not
      (r.alloc_ok && (r.open_ok && (r.info_ok && (not (ltb_ℤ r.best_stream (pos 0)) && r.copy_ok))))

-- What a failed attempt leaves alone.
pub record Same (s t : Stream) : Type 0 where
  pub cfg : t.cfg ≡ s.cfg
  pub current_delay : t.current_delay ≡ s.current_delay
  pub reconnect_attempts : t.reconnect_attempts ≡ s.reconnect_attempts
  pub fmt_ctx : t.fmt_ctx ≡ false

open_refused :
    (r : InputReply) (s : Stream)
    → refuses r ≡ true
    → s.fmt_ctx ≡ false
    → ((open_input r s).1 ≡ false) × Same s (open_input r s).0
unfolding open_input
open_refused r s h c = (
  ground (arith, h, c),
  record {
    cfg = ground (arith, h, c);
    current_delay = ground (arith, h, c);
    reconnect_attempts = ground (arith, h, c);
    fmt_ctx = ground (arith, h, c);
  },
)

-- One attempt more.
pub record Waited (s t : Stream) : Type 0 where
  pub cfg : t.cfg ≡ s.cfg
  pub current_delay : t.current_delay ≡ next_delay s.current_delay s.cfg.reconnect_max_delay_ms
  pub reconnect_attempts : t.reconnect_attempts ≡ suc s.reconnect_attempts
  pub fmt_ctx : t.fmt_ctx ≡ false

not_opened-Waited :
    (s : Stream)
    → s.fmt_ctx ≡ false
    → is_pos s.cfg.max_reconnect_attempts ≡ false
    → ((not_opened s).1 ≡ true) × Waited s (not_opened s).0
unfolding not_opened notify_lost close_input
not_opened-Waited s c k = (
  ground (arith, c, k),
  record {
    cfg = ground (arith, c, k);
    current_delay = ground (arith, c, k);
    reconnect_attempts = ground (arith, c, k);
    fmt_ctx = ground (arith, c, k);
  },
)

at_head : Stream → Stream
at_head s = record s { interrupt_flag = false; watchdog_enabled = false }

round_opens :
    (r : Round) (s : Stream)
    → (open_input r.reply (at_head s)).1 ≡ false
    → round r s ≡ not_opened (open_input r.reply (at_head s)).0
unfolding round after_open at_head
round_opens r s h = ap (λ b. after_open r b (open_input r.reply (at_head s)).0) h

round_refused :
    (r : Round) (s : Stream)
    → refuses r.reply ≡ true
    → s.fmt_ctx ≡ false
    → is_pos s.cfg.max_reconnect_attempts ≡ false
    → (t : Stream) × (round r s ≡ (t, true)) × Waited s t
unfolding at_head
round_refused r s h c k =
    let (fails, same) = open_refused r.reply (at_head s) h c in
    let opened_not = (open_input r.reply (at_head s)).0 in
    let (goes, w) =
      not_opened-Waited opened_not same.fmt_ctx
        (ap (λ x. is_pos x.max_reconnect_attempts) same.cfg ∙ k) in
    (
      (not_opened opened_not).0,
      round_opens r s fails ∙ ap (λ b. ((not_opened opened_not).0, b)) goes,
      record {
        cfg = w.cfg ∙ same.cfg;
        current_delay =
            w.current_delay
            ∙ ap (λ x. next_delay x opened_not.cfg.reconnect_max_delay_ms) same.current_delay
            ∙ ap (λ x. next_delay s.current_delay x.reconnect_max_delay_ms) same.cfg;
        reconnect_attempts = w.reconnect_attempts ∙ ap suc same.reconnect_attempts;
        fmt_ctx = w.fmt_ctx;
      },
    )

abbrev pub AllRefuse : List Round → Type 0
AllRefuse [] = Unit
AllRefuse (r ∷ rs) = (refuses r.reply ≡ true) × AllRefuse rs

lesser : (a l : ℕ) → l < a → min a l ≡ l
lesser a l h = omega arith

below : (a l : ℕ) → a ≤ l → min a l ≡ a
below a l h = omega arith

over : (a l m : ℕ) → l < a → min (l * suc m) l ≡ min (a * suc m) l
over a l m h = omega arith

above : (a l m : ℕ) → l < a → min (min a l * suc m) l ≡ min (a * suc m) l
above a l m h = ap (λ x. min (x * suc m) l) (lesser a l h) ∙ over a l m h

scaled : (a l m : ℕ) → min (min a l * suc m) l ≡ min (a * suc m) l
scaled a l m = elim (Bool-cases (ltb l a)) [
  | inl h ↦ above a l m (ltb→lt l a h)
  | inr h ↦ ap (λ x. min (x * suc m) l) (below a l (ltb→le l a h))
]

power_double : (n m : ℕ) → 2 ^ n ≡ suc m → 2 ^ suc n ≡ suc (m + suc m)
power_double n m e = omega (arith, pow-suc 2 n, e)

twice : (d m : ℕ) → d * 2 * suc m ≡ d * suc (m + suc m)
twice d m = omega arith

-- `2 ^ n` is not zero.
power : (n : ℕ) → (m : ℕ) × (2 ^ n ≡ suc m)
power zero = (0, refl)
power (suc n) = let (m, e) = power n in (m + suc m, power_double n m e)

doubled : (d l n : ℕ) → min (min (d * 2) l * 2 ^ n) l ≡ min (d * 2 ^ suc n) l
doubled d l n =
    let (m, e) = power n in
    ap (λ x. min (min (d * 2) l * x) l) e
    ∙ scaled (d * 2) l m
    ∙ ap (λ x. min x l) (twice d m ∙ ap (λ x. d * x) (sym (power_double n m e)))

-- The delays from `d` on.
record Backs (d limit : ℕ) (s : Stream) : Type 0 where
  shut : s.fmt_ctx ≡ false
  endless : is_pos s.cfg.max_reconnect_attempts ≡ false
  delay : s.current_delay ≡ pos d
  limited : s.cfg.reconnect_max_delay_ms ≡ pos limit

Backs-on :
    (d limit : ℕ) (s t : Stream) → Backs d limit s → Waited s t → Backs (min (d * 2) limit) limit t
Backs-on d limit s t b w = record {
  shut = w.fmt_ctx;
  endless = ap (λ x. is_pos x.max_reconnect_attempts) w.cfg ∙ b.endless;
  delay =
      w.current_delay
      ∙ ap (λ x. next_delay x s.cfg.reconnect_max_delay_ms) b.delay
      ∙ ap (next_delay (pos d)) b.limited
      ∙ next_delay-min d limit;
  limited = ap (λ x. x.reconnect_max_delay_ms) w.cfg ∙ b.limited;
}

run-Backs :
    (rs : List Round) (d limit : ℕ) (s : Stream)
    → AllRefuse rs
    → d ≤ limit
    → Backs d limit s
    → ((run rs s).current_delay ≡ pos (min (d * 2 ^ length rs) limit))
      × ((run rs s).reconnect_attempts ≡ s.reconnect_attempts + length rs)
unfolding run go_on
run-Backs [] d limit s h k b = (b.delay ∙ ap pos (omega arith), omega arith)
run-Backs (r ∷ rs) d limit s h k b =
    let (t, e, w) = round_refused r s h.0 b.shut b.endless in
    let step = ap (go_on (run rs)) e in
    let (delay, count) =
      run-Backs rs (min (d * 2) limit) limit t h.1 (omega arith) (Backs-on d limit s t b w) in
    (
      ap (λ x. x.current_delay) step ∙ delay ∙ ap pos (doubled d limit (length rs)),
      ap (λ x. x.reconnect_attempts) step ∙ count ∙ omega (arith, w.reconnect_attempts),
    )

from_zero : (n : ℕ) → 0 + n ≡ n
from_zero n = omega arith

-- While the camera cannot be reached, the delay before the next attempt doubles from the configured one,
-- up to the configured maximum: after `n` failed attempts it is min (delay * 2 ^ n) maximum, where the
-- delay is not above the maximum and the attempts are not limited; and `n` attempts are counted.
pub run_backoff :
    (c : StreamConfig) (rs : List Round) (d limit : ℕ)
    → c.reconnect_delay_ms ≡ pos d
    → c.reconnect_max_delay_ms ≡ pos limit
    → is_pos c.max_reconnect_attempts ≡ false
    → d ≤ limit
    → AllRefuse rs
    → ((run rs (new_stream c)).current_delay ≡ pos (min (d * 2 ^ length rs) limit))
      × ((run rs (new_stream c)).reconnect_attempts ≡ length rs)
unfolding new_stream
run_backoff c rs d limit e f k h a =
    let (delay, count) =
      run-Backs rs d limit (new_stream c) a h
        (record { shut = refl; endless = k; delay = e; limited = f }) in
    (delay, count ∙ from_zero (length rs))
