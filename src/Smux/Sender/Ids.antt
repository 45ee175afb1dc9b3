-- ===== src/Smux/Sender/Ids.antt =====
-- The ids that a pass of the collecting goroutine goes through.
use revese_server.Base.{
  ◌||◌, ◌==◌, Bool, arith, ◌≡◌, List, ◌<◌, ℕ, refl, true, false, some, [], ◌∷◌, length-eq_zero,
}
use revese_server.Base.Maps.{lookup}
use revese_server.Smux.Frame.{Frame}
use revese_server.Smux.Sender.{or_empty, keys, insert_sorted, sort_ids}
use revese_server.Smux.Sender.Total.{Queues, total, Distinct}

-- Sorting keeps the ids.
abbrev pub contains : ℕ → List ℕ → Bool
contains k [] = false
contains k (j ∷ js) = j == k || contains k js

contains-insert_sorted :
    (k j : ℕ) (js : List ℕ) → contains k (insert_sorted j js) ≡ (j == k || contains k js)
unfolding insert_sorted
contains-insert_sorted k j [] = refl
contains-insert_sorted k j (i ∷ js) = ground (arith, contains-insert_sorted k j js)

pub contains-sort_ids : (k : ℕ) (js : List ℕ) → contains k (sort_ids js) ≡ contains k js
unfolding sort_ids
contains-sort_ids k [] = refl
contains-sort_ids k (j ∷ js) =
    ground (arith, contains-insert_sorted k j (sort_ids js), contains-sort_ids k js)

-- If the queues hold a request, one of them does.
pub busy :
    (m : Queues)
    → Distinct m
    → 0 < total m
    → (k : ℕ) × (g : Frame) × (q : List Frame) × (contains k (keys m) ≡ true)
      × (lookup k m ≡ some (g ∷ q))
unfolding total Distinct keys lookup
busy [] d p = elim p [ ]
busy ((j, g ∷ q) ∷ m) d p = (j, g, q, ground arith, ground arith)
busy ((j, []) ∷ m) (n, d) p =
    let (k, g, q, c, l) = busy m d (omega (arith, p)) in
    (k, g, q, ground (arith, c), ground (arith, l, n))

pub all_empty : (m : Queues) (k : ℕ) → total m ≡ 0 → or_empty (lookup k m) ≡ []
unfolding total lookup
all_empty [] k e = refl
all_empty ((j, q) ∷ m) k e =
    ground (arith, e, all_empty m k (omega (arith, e)), length-eq_zero q (omega (arith, e)))
