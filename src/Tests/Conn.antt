-- ===== src/Tests/Conn.antt =====
-- A run of the connection counters.
use unver.Prelude.{refl, [], ◌∷◌, codes, arith}
use unver.Conn.{new_guard, drop_guard}
use unver.Conn.Counting.{
  Requests, begin, finish, Reach, here, next, initial, IsCounted, Reach-IsCounted,
}

abbrev pub one : Requests
one = record { counter = new_guard (codes "a") []; live = codes "a" ∷ [] }

abbrev pub two : Requests
two = record { counter = new_guard (codes "b") one.counter; live = codes "b" ∷ codes "a" ∷ [] }

abbrev pub left : Requests
left = record { counter = drop_guard (codes "a") two.counter; live = codes "b" ∷ [] }

-- Two requests begin, and the older one ends.
abbrev run : Reach initial left
run =
    next
      (next (next here (begin initial (codes "a") (omega arith)))
        (begin one (codes "b") (omega arith)))
      (finish two (codes "b" ∷ []) [] (codes "a") refl)

Reach-IsCounted_example : IsCounted left
Reach-IsCounted_example = Reach-IsCounted run
