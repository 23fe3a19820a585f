-- ===== src/Alarm/Listener.antt =====
-- alarm_server.cpp: `start`, `stop` and `runListener`, with the threads of the clients.
use ivckolpak.Prelude.{
  ℕ, suc, ◌+◌, ◌≡◌, refl, ◌∙◌, ap, Bool, true, false, not, List, [], ◌∷◌, ◌++◌, Option, none, some,
  if◌then◌else◌, length, length-append, map, arith, ◌==◌, All,
}

-- A client's thread. A `std::jthread` is joinable until it is joined, also when its function has ended.
pub record ClientThread : Type 0 where
  pub fd : ℕ
  pub ended : Bool
  pub joined : Bool

abbrev pub joinable : ClientThread → Bool
joinable t = not t.joined

-- Whether `listener_thread_` is joinable, `server_fd_` with none for -1, and the threads of the clients.
pub record Listener : Type 0 where
  pub started : Bool
  pub server_fd : Option ℕ
  pub client_threads : List ClientThread

abbrev pub new_listener : Listener
new_listener = record { started = false; server_fd = none; client_threads = [] }

unfoldable pub start : Listener → Listener × Bool
start l = if l.started then (l, false) else (record l { started = true }, true)

-- `std::erase_if` of the threads that are not joinable.
unfoldable pub erase_joined : List ClientThread → List ClientThread
erase_joined [] = []
erase_joined (t ∷ ts) = let rest = erase_joined ts in if joinable t then t ∷ rest else rest

-- What happens to the listener: a client, an error of `accept`, or the end of a client's thread.
pub data Event : Type 0 where
  accepted : ℕ → Event
  accept_failed : Event
  client_ended : ℕ → Event

abbrev pub end_of : ℕ → ClientThread → ClientThread
end_of fd t = if t.fd == fd then record t { ended = true } else t

-- The loop; the list ends where a stop is requested.
unfoldable pub accept_loop : List Event → Listener → Listener
unfolding erase_joined
accept_loop [] l = l
accept_loop (accepted fd ∷ es) l = accept_loop es (record l {
  client_threads =
      erase_joined (l.client_threads ++ record { fd = fd; ended = false; joined = false } ∷ []);
})
accept_loop (accept_failed ∷ es) l = accept_loop es l
accept_loop (client_ended fd ∷ es) l =
    accept_loop es (record l { client_threads = map (end_of fd) l.client_threads })

-- `runListener`: none is a `socket` that fails; the flag says whether the port can be listened on.
unfoldable pub run_listener : Option ℕ → Bool → List Event → Listener → Listener
unfolding accept_loop
run_listener none bound es l = l
run_listener (some fd) bound es l =
    if bound
    then record (accept_loop es (record l { server_fd = some fd })) { server_fd = none }
    else record l { server_fd = none }

-- `stop` joins the listener, and the client threads are joined when they are cleared.
unfoldable pub stop : Listener → Listener
stop l = if l.started then record l { started = false; client_threads = [] } else l

abbrev pub accepts : List Event → ℕ
accepts [] = 0
accepts (accepted fd ∷ es) = suc (accepts es)
accepts (accept_failed ∷ es) = accepts es
accepts (client_ended fd ∷ es) = accepts es

-- No thread has been joined.
abbrev Unjoined : List ClientThread → Type 0
Unjoined ts = All (λ t. t.joined ≡ false) ts

erase_joined-Unjoined : (ts : List ClientThread) → Unjoined ts → erase_joined ts ≡ ts
unfolding erase_joined
erase_joined-Unjoined [] u = refl
erase_joined-Unjoined (t ∷ ts) u = ground (arith, u.0, erase_joined-Unjoined ts u.1)

Unjoined-append :
    (ts : List ClientThread) (t : ClientThread)
    → Unjoined ts
    → t.joined ≡ false
    → Unjoined (ts ++ t ∷ [])
Unjoined-append [] t u h = (h, tt)
Unjoined-append (x ∷ ts) t u h = (u.0, Unjoined-append ts t u.1 h)

map-end_of :
    (fd : ℕ) (ts : List ClientThread)
    → Unjoined ts
    → Unjoined (map (end_of fd) ts) × (length (map (end_of fd) ts) ≡ length ts)
map-end_of fd [] u = (tt, refl)
map-end_of fd (t ∷ ts) u = let (v, e) = map-end_of fd ts u.1 in ((ground (arith, u.0), v), ap suc e)

accept_loop-grows :
    (es : List Event) (l : Listener)
    → Unjoined l.client_threads
    → length (accept_loop es l).client_threads ≡ length l.client_threads + accepts es
unfolding accept_loop
accept_loop-grows [] l u = omega arith
accept_loop-grows (accepted fd ∷ es) l u =
    let more = l.client_threads ++ record { fd = fd; ended = false; joined = false } ∷ [] in
    let v =
      Unjoined-append l.client_threads (record { fd = fd; ended = false; joined = false }) u refl in
    let same = erase_joined-Unjoined more v in
    ap (λ ts. length (accept_loop es (record l { client_threads = ts })).client_threads) same
    ∙ accept_loop-grows es (record l { client_threads = more }) v
    ∙ omega (
      arith,
      length-append l.client_threads (record { fd = fd; ended = false; joined = false } ∷ []),
    )
accept_loop-grows (accept_failed ∷ es) l u = accept_loop-grows es l u
accept_loop-grows (client_ended fd ∷ es) l u =
    let (v, e) = map-end_of fd l.client_threads u in
    accept_loop-grows es (record l { client_threads = map (end_of fd) l.client_threads }) v
    ∙ ap (λ n. n + accepts es) e

-- The server keeps the thread of every client that it has ever had until it is stopped: after any sequence of
-- accepted connections, errors and ends of clients' threads the list has as many threads as connections were
-- accepted, also where all of them have ended.
pub listener_keeps_threads :
    (fd : ℕ) (es : List Event)
    → length (run_listener (some fd) true es (start new_listener).0).client_threads ≡ accepts es
unfolding run_listener start
listener_keeps_threads fd es =
    accept_loop-grows es (record { started = true; server_fd = some fd; client_threads = [] }) tt
    ∙ omega arith
