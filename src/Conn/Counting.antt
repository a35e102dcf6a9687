-- ===== src/Conn/Counting.antt =====
-- Whatever the order in which requests begin and end, a rule's counter is the number of its
-- requests in flight.
use unver.Prelude.{
  ℕ, suc, ◌+◌, ◌-◌, ◌%◌, ◌^◌, ◌≤◌, ◌<◌, ◌≡◌, refl, ap, List, [], ◌∷◌, ◌++◌, arith, Text, text_eq,
  text_eq_iff, length, if◌then◌else◌, unwrap_or,
}
use unver.Prelude.Assoc.{lookup, lookup-insert, lookup-nil}
use unver.Conn.{ConnCounter, new_guard, drop_guard, active_connections}

-- The counters, and the rules of the guards that are alive.
pub record Requests : Type 0 where
  pub counter : ConnCounter
  pub live : List Text

abbrev pub count : Text → List Text → ℕ
count k [] = 0
count k (r ∷ rs) = let rest = count k rs in if text_eq r k then suc rest else rest

-- A request begins, or any request in flight ends.
pub data Step : Requests → Requests → Type 0 where
  begin :
      (s : Requests) (rule : Text)
      → length s.live < 2 ^ 64 - 1
      → Step s (record { counter = new_guard rule s.counter; live = rule ∷ s.live })
  finish :
      (s : Requests) (before after : List Text) (rule : Text)
      → s.live ≡ before ++ rule ∷ after
      → Step s (record { counter = drop_guard rule s.counter; live = before ++ after })

pub data Reach (s : Requests) : Requests → Type 0 where
  here : Reach s s
  next : {t u : Requests} → Reach s t → Step t u → Reach s u

abbrev pub initial : Requests
initial = record { counter = []; live = [] }

abbrev pub IsCounted : Requests → Type 0
IsCounted s = (k : Text) → active_connections k s.counter ≡ count k s.live

active_connections-new :
    (k rule : Text) (map : ConnCounter)
    → active_connections k (new_guard rule map) ≡ (
        if text_eq rule k
        then (active_connections k map + 1) % 2 ^ 64
        else active_connections k map)
unfolding active_connections new_guard
active_connections-new k rule map = ground (
  arith,
  text_eq_iff rule k,
  lookup-insert rule k ((unwrap_or (lookup rule map) 0 + 1) % 2 ^ 64) map,
)

active_connections-drop :
    (k rule : Text) (map : ConnCounter)
    → active_connections k (drop_guard rule map)
      ≡ (if text_eq rule k then active_connections k map - 1 else active_connections k map)
unfolding active_connections drop_guard
active_connections-drop k rule map =
    ground (arith, text_eq_iff rule k, lookup-insert rule k (unwrap_or (lookup rule map) 0 - 1) map)

count-le-length : (k : Text) (rs : List Text) → count k rs ≤ length rs
count-le-length k [] = omega arith
count-le-length k (r ∷ rs) = ground (arith, count-le-length k rs)

count_middle :
    (k rule : Text) (before after : List Text)
    → count k (before ++ rule ∷ after)
      ≡ (if text_eq rule k then suc (count k (before ++ after)) else count k (before ++ after))
count_middle k rule [] after = refl
count_middle k rule (r ∷ before) after = ground (arith, count_middle k rule before after)

Step-IsCounted : {s t : Requests} → Step s t → IsCounted s → IsCounted t
Step-IsCounted (begin s rule room) h k =
    ground (arith, active_connections-new k rule s.counter, h k, count-le-length k s.live)
Step-IsCounted (finish s before after rule e) h k = ground (
  arith,
  active_connections-drop k rule s.counter,
  h k,
  count_middle k rule before after,
  ap (count k) e,
)

IsCounted-initial : IsCounted initial
unfolding active_connections
IsCounted-initial k = rw (lookup-nil {V = ℕ} k)

-- In every state that the requests can reach, each rule's counter is the number of its requests
-- that have begun and not ended, while fewer than 2 ^ 64 are in flight.
pub Reach-IsCounted : {s : Requests} → Reach initial s → IsCounted s
Reach-IsCounted here = IsCounted-initial
Reach-IsCounted (next r st) = Step-IsCounted st (Reach-IsCounted r)
