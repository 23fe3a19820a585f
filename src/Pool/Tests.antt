-- ===== src/Pool/Tests.antt =====
-- A pool of one packet, and the theorem at a run of it.
use ivckolpak.Prelude.{◌%◌, ◌^◌, ◌≤◌, ◌≡◌, refl, List, [], ◌∷◌, some, length}
use ivckolpak.Prelude.Word.{add64}
use ivckolpak.Pool.{new_pool, PoolCall, acquired, released, run, given, pool_bounded}

abbrev calls : List PoolCall
calls = acquired 1 ∷ acquired 2 ∷ released (some 1) ∷ released (some 2) ∷ acquired 3 ∷ []

reused : (run calls (new_pool 1)).0 ≡ 1 ∷ 2 ∷ 1 ∷ []
unfolding run
reused = refl

pool_bounded_example :
    (length (run calls (new_pool 1)).1.free_list ≤ 1)
    × (add64 (run calls (new_pool 1)).1.allocations (run calls (new_pool 1)).1.reuses
        ≡ given calls (new_pool 1) % 2 ^ 64)
pool_bounded_example = pool_bounded calls 1
