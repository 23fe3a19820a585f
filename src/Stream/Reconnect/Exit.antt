-- ===== src/Stream/Reconnect/Exit.antt =====
-- A read that FFmpeg breaks off by AVERROR_EXIT, as it does when the watchdog has set the flag.
use ivckolpak.Prelude.{◌≡◌, ◌∙◌, ap, true, false, [], ◌∷◌, arith}
use ivckolpak.Stream.State.{Stream}
use ivckolpak.Stream.Input.{open_input, close_input}
use ivckolpak.Stream.Reconnect.Notices.{open_input-Told}
use ivckolpak.Stream.Read.{exit, read_loop}
use ivckolpak.Stream.Reconnect.{Round, notify_found, after_reads, opened, after_open, round}

-- What nobody is told of.
pub record Silent (s t : Stream) : Type 0 where
  pub acts : t.acts ≡ s.acts
  pub was_connected : t.was_connected ≡ true

opened_exit :
    (r : Round) (s : Stream)
    → s.was_connected ≡ true
    → r.reads ≡ exit ∷ []
    → r.stop_after ≡ false
    → ((opened r s).1 ≡ true) × Silent s (opened r s).0 × ((opened r s).0.alive ≡ false)
unfolding opened notify_found read_loop after_reads close_input
opened_exit r s c e n = (
  ground (arith, c, e, n),
  record { acts = ground (arith, c, e, n); was_connected = ground (arith, c, e, n) },
  ground (arith, c, e, n),
)

abbrev pub at_head : Stream → Stream
at_head s = record s { interrupt_flag = false; watchdog_enabled = false }

round-opened :
    (r : Round) (s : Stream)
    → (open_input r.reply (at_head s)).1 ≡ true
    → round r s ≡ opened r (open_input r.reply (at_head s)).0
unfolding round after_open
round-opened r s h = ap (λ b. after_open r b (open_input r.reply (at_head s)).0) h

-- A connection that ends by AVERROR_EXIT, and not by a stop, is lost without notice: the round that
-- connects again and then ends so runs no callback and no script, leaves the stream not alive but
-- `was_connected` set, and the loop goes on.
pub exit-Silent :
    (r : Round) (s : Stream)
    → (open_input r.reply (at_head s)).1 ≡ true
    → s.was_connected ≡ true
    → r.reads ≡ exit ∷ []
    → r.stop_after ≡ false
    → ((round r s).1 ≡ true) × Silent s (round r s).0 × ((round r s).0.alive ≡ false)
exit-Silent r s h c e n =
    let told = open_input-Told r.reply (at_head s) in
    let (goes, silent, dead) =
      opened_exit r (open_input r.reply (at_head s)).0 (told.was_connected ∙ c) e n in
    let step = round-opened r s h in
    (
      ap (λ x. x.1) step ∙ goes,
      record {
        acts = ap (λ x. x.0.acts) step ∙ silent.acts ∙ told.acts;
        was_connected = ap (λ x. x.0.was_connected) step ∙ silent.was_connected;
      },
      ap (λ x. x.0.alive) step ∙ dead,
    )
