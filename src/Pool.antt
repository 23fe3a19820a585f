-- ===== src/Pool.antt =====
-- packet_pool.hpp: the pool of packets.
mod Tests
use ivckolpak.Prelude.{
  ℕ, zero, suc, ◌+◌, ◌≤◌, ◌<◌, ◌≡◌, refl, sym, ◌∙◌, ap, Bool, true, false, List, [], ◌∷◌, Option,
  none, some, arith, ltb, if◌then◌else◌, length, ◌%◌, ◌^◌,
}
use ivckolpak.Prelude.Word.{add64}

-- Packets are numbered as `av_packet_alloc` makes them. The free list has its back at the head.
pub record PacketPool : Type 0 where
  pub free_list : List ℕ
  pub capacity : ℕ
  pub allocations : ℕ
  pub reuses : ℕ
  pub freed : List ℕ

abbrev pub new_pool : ℕ → PacketPool
new_pool capacity = record {
  free_list = [];
  capacity = capacity;
  allocations = 0;
  reuses = 0;
  freed = [];
}

take_back : ℕ → List ℕ → PacketPool → ℕ × PacketPool
unfolding add64
take_back new [] p = (new, record p { allocations = add64 p.allocations 1 })
take_back new (x ∷ xs) p = (x, record p { free_list = xs; reuses = add64 p.reuses 1 })

-- `acquire`; `new` is what `av_packet_alloc` would return.
unfoldable pub acquire : ℕ → PacketPool → ℕ × PacketPool
unfolding take_back
acquire new p = take_back new p.free_list p

-- `release`; none is a null pointer.
unfoldable pub release : Option ℕ → PacketPool → PacketPool
release none p = p
release (some x) p =
    if ltb (length p.free_list) p.capacity
    then record p { free_list = x ∷ p.free_list }
    else record p { freed = x ∷ p.freed }

pub data PoolCall : Type 0 where
  acquired : ℕ → PoolCall
  released : Option ℕ → PoolCall

-- What comes back from the calls, and the pool after them.
unfoldable pub run : List PoolCall → PacketPool → List ℕ × PacketPool
unfolding acquire release
run [] p = ([], p)
run (acquired new ∷ cs) p = let (x, q) = acquire new p in let (xs, r) = run cs q in (x ∷ xs, r)
run (released x ∷ cs) p = run cs (release x p)

-- The packets given out in this run.
abbrev pub given : List PoolCall → PacketPool → ℕ
given cs p = length (run cs p).0

-- The pool keeps its capacity, and holds no more than it.
record Holds (p q : PacketPool) : Type 0 where
  same : q.capacity ≡ p.capacity
  bound : length q.free_list ≤ q.capacity

take_back-Holds :
    (new : ℕ) (xs : List ℕ) (p : PacketPool)
    → p.free_list ≡ xs
    → length p.free_list ≤ p.capacity
    → Holds p (take_back new xs p).1
      × (add64 (take_back new xs p).1.allocations (take_back new xs p).1.reuses
          ≡ (p.allocations + p.reuses + 1) % 2 ^ 64)
unfolding take_back add64
take_back-Holds new [] p e h = (record { same = refl; bound = h }, omega arith)
take_back-Holds new (x ∷ xs) p e h =
    (record { same = refl; bound = omega (arith, h, ap length e) }, omega arith)

release-Holds :
    (x : Option ℕ) (p : PacketPool)
    → length p.free_list ≤ p.capacity
    → Holds p (release x p)
      × ((release x p).allocations + (release x p).reuses ≡ p.allocations + p.reuses)
unfolding release
release-Holds none p h = (record { same = refl; bound = h }, refl)
release-Holds (some x) p h =
    (record { same = ground (arith, h); bound = ground (arith, h) }, ground (arith, h))

run-Holds :
    (cs : List PoolCall) (p : PacketPool)
    → length p.free_list ≤ p.capacity
    → Holds p (run cs p).1
      × (add64 (run cs p).1.allocations (run cs p).1.reuses
          ≡ (p.allocations + p.reuses + given cs p) % 2 ^ 64)
unfolding run acquire add64
run-Holds [] p h = (record { same = refl; bound = h }, omega arith)
run-Holds (acquired new ∷ cs) p h =
    let (k, n) = take_back-Holds new p.free_list p refl h in
    let (l, m) = run-Holds cs (acquire new p).1 k.bound in
    (record { same = l.same ∙ k.same; bound = l.bound }, omega (arith, n, m))
run-Holds (released x ∷ cs) p h =
    let (k, n) = release-Holds x p h in
    let (l, m) = run-Holds cs (release x p) k.bound in
    (record { same = l.same ∙ k.same; bound = l.bound }, omega (arith, n, m))

-- Over every sequence of calls from the start, the pool holds at most as many free packets as its capacity,
-- and the counters of allocations and of reuses, which are 64-bit words, add up to the number of packets
-- given out, modulo 2 ^ 64.
pub pool_bounded :
    (cs : List PoolCall) (capacity : ℕ)
    → (length (run cs (new_pool capacity)).1.free_list ≤ capacity)
      × (add64 (run cs (new_pool capacity)).1.allocations (run cs (new_pool capacity)).1.reuses
          ≡ given cs (new_pool capacity) % 2 ^ 64)
pool_bounded cs capacity =
    let (k, n) = run-Holds cs (new_pool capacity) (omega arith) in
    (omega (arith, k.same, k.bound), n ∙ ap (λ x. x % 2 ^ 64) (omega arith))
