-- ===== src/Store/History/Tests.antt =====
-- Runs of the measurement store.
use propmonitor.Base.{ℕ, ◌≤◌, min, List, [], ◌∷◌, length, get_last?, ◌≡◌, refl}
use propmonitor.Store.{max_entries, new, push, recent, last}
use propmonitor.Store.History.{pushes, newest, recent-pushes}

abbrev three : List ℕ
three = 7 ∷ 8 ∷ 9 ∷ []

newest_two : recent (pushes new three) 2 ≡ 8 ∷ 9 ∷ []
unfolding recent pushes push new
newest_two = refl

recent-pushes_example :
    (recent (pushes new three) 2 ≡ newest (min 2 max_entries) three)
    × (last (pushes new three) ≡ get_last? three)
    × (length ((pushes new three).entries) ≤ max_entries)
recent-pushes_example = recent-pushes three 2
