-- ===== src/Stats/Tests.antt =====
-- The statistics of two cameras.
use ivckolpak.Prelude.{ℕ, ◌+◌, ◌*◌, ◌≡◌, ◌≤◌, refl, [], ◌∷◌, List, arith}
use ivckolpak.Prelude.Int.{pos}
use ivckolpak.Prelude.Word.{add64}
use ivckolpak.Node.{Node, new_node}
use ivckolpak.Samples.{lib, live, yard, roof}
use ivckolpak.Stats.{StreamStats, no_totals, collect_all, totals_from}
use ivckolpak.Stats.Sums.{totals_bounds}

abbrev seen : ℕ → StreamStats
seen i = record { view = live; total_bytes_read = 5000 }

abbrev wrote : ℕ → Node → Node
wrote n m = record m { session = record m.session { total_written_bytes = n } }

abbrev nodes : List Node
nodes = wrote 3000 (new_node yard (pos 2) (pos 1)) ∷ wrote 1024 (new_node roof (pos 2) (pos 1)) ∷ []

-- 3000 bytes are 2 whole KB.
two_cameras :
    totals_from (collect_all lib seen 0 nodes) no_totals
    ≡ record { total_read_bytes = 10000; total_written_bytes = 3072 }
unfolding totals_from collect_all new_node add64
two_cameras = refl

totals_bounds_example :
    ((totals_from (collect_all lib seen 0 nodes) no_totals).total_read_bytes ≡ 10000)
    × ((totals_from (collect_all lib seen 0 nodes) no_totals).total_written_bytes ≤ 4024)
    × (4024 ≤ (totals_from (collect_all lib seen 0 nodes) no_totals).total_written_bytes + 1023 * 2)
unfolding new_node
totals_bounds_example = totals_bounds lib seen nodes (omega arith) (omega arith)

abbrev first : Node
first = new_node yard (pos 2) (pos 1)
