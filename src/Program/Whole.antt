-- ===== src/Program/Whole.antt =====
-- main.cpp: the program from its arguments to its end.
use ivckolpak.Prelude.{
  ℕ, ◌≡◌, refl, sym, ◌∙◌, ap, Bool, false, List, [], ◌∷◌, ◌++◌, Option, none, some, All, arith,
  Bool-cases, inl, inr,
}
use mathlib.Core.Path.{subst}
use ivckolpak.Prelude.Bytes.{Bytes}
use ivckolpak.Prelude.Double.{Double}
use ivckolpak.Prelude.Int.{pos, ◌≤ℤ◌}
use ivckolpak.Alarm.Decode.{Root}
use ivckolpak.Session.Valid.{opens, closes, open_files}
use ivckolpak.Node.{Node}
use ivckolpak.Manager.{initialize_manager}
use ivckolpak.Logger.{Logger}
use ivckolpak.Startup.{Message, Started, runs, start_up}
use ivckolpak.Startup.Ready.{started-IsReady}
use ivckolpak.Program.{Program, started, shut_down, Op, end_of_main, act, step, run, ◌>>=◌}
use ivckolpak.Program.Nodes.{IsStopped, AllLive, make_nodes-AllLive}
use ivckolpak.Program.Valid.{IsSound, run-Steps, shut_down-IsStopped}

-- Every file that the session opened has been closed.
abbrev pub IsClosed : Node → Type 0
IsClosed n = opens n.session.effects ≡ closes n.session.effects

IsStopped-IsClosed : (n : Node) → IsStopped n → IsClosed n
IsStopped-IsClosed n h = omega (arith, h.session.balanced, ap open_files h.no_output)

all-IsClosed : (ns : List Node) → All IsStopped ns → All IsClosed ns
all-IsClosed [] h = tt
all-IsClosed (n ∷ ns) h = (IsStopped-IsClosed n h.0, all-IsClosed ns h.1)

started-IsSound :
    (s : Started)
    → s.manager ≡ initialize_manager s.cfg
    → pos 0 ≤ℤ s.cfg.global.pre_buffer_iframes
    → IsSound (started s)
unfolding started initialize_manager
started-IsSound s e h =
    subst (λ m. AllLive m.nodes) (sym e) (make_nodes-AllLive s.cfg.global s.cfg.cameras h)

after_step :
    (o : Option Program) (f g : Program → Option Program) (t : Program) (k : Option Program)
    → ((u : Program) → f u ≡ some t → g u ≡ k)
    → (o >>= f) ≡ some t
    → (o >>= g) ≡ k
after_step none f g t k h e = absurd cc
after_step (some u) f g t k h e = h u e

module _ (json_parse : Bytes → Option Root) where
  run-append :
      (ops more : List Op) (s t : Program)
      → run json_parse ops s ≡ some t
      → run json_parse (ops ++ more) s ≡ run json_parse more t
  unfolding run
  run-append [] more s t e = ap (λ o. o >>= run json_parse more) e
  run-append (op ∷ ops) more s t e =
      after_step (step json_parse op s) (run json_parse ops) (run json_parse (ops ++ more)) t
        (run json_parse more t) (λ u. run-append ops more u t) e

  -- The end of a program that has not crashed stops its nodes.
  last_step :
      (oks : ℕ → Bool) (s : Program)
      → IsSound s
      → (t : Program) × (run json_parse (end_of_main oks ∷ []) s ≡ some t)
        × (t.crashed ≡ false → All IsClosed t.manager.nodes)
  unfolding run step act
  last_step oks s v = elim (Bool-cases s.crashed) [
    | inl h ↦ (s, simp h refl, λ c. absurd cc)
    | inr h ↦ (
      shut_down oks s,
      simp h refl,
      λ c. all-IsClosed (shut_down oks s).manager.nodes (shut_down-IsStopped oks s v).1,
    )
  ]

  -- From the arguments to the end: a program that enters its loop with a `pre_buffer_iframes` of at least 0
  -- goes through every interleaving of its threads' steps (reads of clients, rounds of the manager, packets
  -- and lost connections of the cameras), whatever they meet, and through the end of `main` after them,
  -- without a call that does not return; and every file that any session has opened is closed then, unless
  -- an exception has ended the program before.
  pub program_closes_files :
      (stod : Bytes → Option Double) (open_file : Bytes → Option (List Bytes))
      (make_dirs : Bytes → Bool) (ndebug : Bool) (args : List Bytes) (l : Logger Message)
      (s : Started) (ops : List Op) (oks : ℕ → Bool)
      → (start_up stod open_file make_dirs ndebug args l).ending ≡ runs s
      → pos 0 ≤ℤ s.cfg.global.pre_buffer_iframes
      → (t : Program) × (run json_parse (ops ++ end_of_main oks ∷ []) (started s) ≡ some t)
        × (t.crashed ≡ false → All IsClosed t.manager.nodes)
  program_closes_files stod open_file make_dirs ndebug args l s ops oks e h =
      let ready = started-IsReady stod open_file make_dirs ndebug args l s e in
      let (u, f, v) = run-Steps json_parse ops (started s) (started-IsSound s ready.manager h) in
      let (t, g, c) = last_step oks u v in
      (t, run-append ops (end_of_main oks ∷ []) (started s) u f ∙ g, c)

  -- Between the start and the end, too: after every interleaving of steps every session is valid, and while
  -- the manager runs every node is initialized.
  pub program-IsSound :
      (s : Started) (ops : List Op)
      → s.manager ≡ initialize_manager s.cfg
      → pos 0 ≤ℤ s.cfg.global.pre_buffer_iframes
      → (t : Program) × (run json_parse ops (started s) ≡ some t) × IsSound t
  program-IsSound s ops e h = run-Steps json_parse ops (started s) (started-IsSound s e h)
