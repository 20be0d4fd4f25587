-- ===== src/Server/Worker/Tests.antt =====
-- A worker's items into an empty database.
use hakuraku.Prelude.{ℕ, ◌≡◌, refl, true, List, [], ◌∷◌, some, codes, pos}
use hakuraku.Server.State.{IngestionItem, stats_item, probe_item}
use hakuraku.Server.Toys.{numbers}
use hakuraku.Server.Db.{Database}
use hakuraku.Server.Worker.{Answers, work}
use hakuraku.Server.Worker.Refinement.{recorded, work-recorded}

abbrev empty : Database ℕ
empty = record { nodes = []; snapshots = []; probe_results = []; db_errors = []; tie = λ r x. true }

abbrev up : Answers
up = record { first = true; second = true; clock = some 7 }

abbrev items : List (Answers × IngestionItem ℕ)
items =
    (up, probe_item (codes "a") (codes "t") true (pos 3) [] (pos 4))
    ∷ (up, stats_item (codes "a") (pos 5) (codes "42") 42)
    ∷ []

work-recorded_example : (work numbers empty items).snapshots ≡ recorded numbers [] items
work-recorded_example = work-recorded numbers items empty ((refl, refl), ((refl, refl), tt))
