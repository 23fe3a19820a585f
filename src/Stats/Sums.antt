-- ===== src/Stats/Sums.antt =====
-- main.cpp: the sums of the statistics, and the labels of the states.
use ivckolpak.Prelude.{
  ℕ, suc, ◌+◌, ◌*◌, ◌/◌, ◌%◌, ◌^◌, ◌≤◌, ◌<◌, ◌≡◌, ◌∙◌, List, [], ◌∷◌, arith, length,
}
use ivckolpak.Prelude.Word.{add64}
use ivckolpak.Session.State.{State, Library}
use ivckolpak.Session.Control.{get_stats}
use ivckolpak.Node.{Node}
use ivckolpak.Stats.{
  SessionState, StreamStats, Totals, no_totals, state_str, session_state, collect_stats,
  collect_all, add_stats, totals_from,
}

-- What the streams of the nodes from number `i` on have read, as an exact number.
abbrev pub sum_read : (ℕ → StreamStats) → ℕ → List Node → ℕ
sum_read seen i [] = 0
sum_read seen i (n ∷ ns) = (seen i).total_bytes_read + sum_read seen (suc i) ns

-- What the sessions have published of the bytes that they wrote: a recording session does so with every
-- thirtieth packet, and shutdown.
abbrev pub sum_published : List Node → ℕ
sum_published [] = 0
sum_published (n ∷ ns) = n.session.total_written_bytes + sum_published ns

-- The same, each in whole KB.
abbrev pub sum_whole : List Node → ℕ
sum_whole [] = 0
sum_whole (n ∷ ns) = n.session.total_written_bytes / 1024 * 1024 + sum_whole ns

abbrev start_at : ℕ → ℕ → Totals
start_at r w = record { total_read_bytes = r; total_written_bytes = w }

abbrev SumsTo : Totals → ℕ → ℕ → Type 0
SumsTo t r w = (t.total_read_bytes ≡ r % 2 ^ 64) × (t.total_written_bytes ≡ w % 2 ^ 64)

totals_at :
    (lib : Library) (seen : ℕ → StreamStats) (i r w : ℕ) (ns : List Node)
    → r < 2 ^ 64
    → w < 2 ^ 64
    → SumsTo
        (totals_from (collect_all lib seen i ns) (start_at r w))
        (r + sum_read seen i ns)
        (w + sum_whole ns)
unfolding totals_from collect_all collect_stats get_stats add_stats add64
totals_at lib seen i r w [] h k = (omega arith, omega arith)
totals_at lib seen i r w (n ∷ ns) h k =
    let (a, b) =
      totals_at lib seen (suc i) (add64 r (seen i).total_bytes_read)
        (add64 w (n.session.total_written_bytes / 1024 * 1024 % 2 ^ 64)) ns (omega arith)
        (omega arith) in
    (a ∙ omega arith, b ∙ omega arith)

-- Each node loses less than a KB.
sum_whole_bounds :
    (ns : List Node)
    → (sum_whole ns ≤ sum_published ns) × (sum_published ns ≤ sum_whole ns + 1023 * length ns)
sum_whole_bounds [] = (omega arith, omega arith)
sum_whole_bounds (n ∷ ns) = let (a, b) = sum_whole_bounds ns in (omega (arith, a), omega (arith, b))

-- Where the bytes read of all cameras, and the written bytes that their sessions have published, stay below
-- 2 ^ 64: the total of bytes read is exact, and the total of bytes written is at most the published ones and falls
-- short of them by less than 1024 for each camera.
pub totals_bounds :
    (lib : Library) (seen : ℕ → StreamStats) (ns : List Node)
    → sum_read seen 0 ns < 2 ^ 64
    → sum_published ns < 2 ^ 64
    → ((totals_from (collect_all lib seen 0 ns) no_totals).total_read_bytes ≡ sum_read seen 0 ns)
      × ((totals_from (collect_all lib seen 0 ns) no_totals).total_written_bytes ≤ sum_published ns)
      × (sum_published ns
          ≤ (totals_from (collect_all lib seen 0 ns) no_totals).total_written_bytes
            + 1023 * length ns)
totals_bounds lib seen ns h k =
    let (a, b) = totals_at lib seen 0 0 0 ns (omega arith) (omega arith) in
    let (c, d) = sum_whole_bounds ns in
    (omega (arith, a), omega (arith, b, c), omega (arith, b, c, d))

state_str_inj : (s t : SessionState) → state_str s ≡ state_str t → s ≡ t
unfolding state_str
state_str_inj s t h = ground arith

session_state_inj : (s t : State) → session_state s ≡ session_state t → s ≡ t
unfolding session_state
session_state_inj s t h = ground arith

-- The label of a camera in the statistics tells the state of its session: where two labels agree, so do the
-- states.
pub label_tells_state :
    (lib : Library) (a b : StreamStats) (m n : Node)
    → state_str (collect_stats lib a m).state ≡ state_str (collect_stats lib b n).state
    → m.session.state ≡ n.session.state
unfolding collect_stats get_stats
label_tells_state lib a b m n h =
    session_state_inj m.session.state n.session.state (state_str_inj _ _ h)
