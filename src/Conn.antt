-- ===== src/Conn.antt =====
-- `ConnGuard` of backend/src/proxy.rs: the number of requests in flight for each rule, in the
-- `ConnCounter` of backend/src/state.rs. The lock is not poisoned, since no holder panics.
pub mod Counting
use unver.Prelude.{ℕ, ◌+◌, ◌-◌, ◌%◌, ◌^◌, Option, none, some, Text, unwrap_or}
use unver.Prelude.Assoc.{Assoc, lookup, insert}

abbrev pub ConnCounter : Type 0
ConnCounter = Assoc ℕ

-- `*map.entry(rule_id).or_insert(0) += 1` on a `u64`.
unfoldable pub new_guard : Text → ConnCounter → ConnCounter
new_guard rule_id map = insert rule_id ((unwrap_or (lookup rule_id map) 0 + 1) % 2 ^ 64) map

-- `count.saturating_sub(1)`, if the rule has an entry.
unfoldable pub drop_guard : Text → ConnCounter → ConnCounter
drop_guard rule_id map = elim (lookup rule_id map) [
  | none ↦ map
  | some count ↦ insert rule_id (count - 1) map
]

-- `map.get(&id).copied().unwrap_or(0)`, which the list of rules shows.
unfoldable pub active_connections : Text → ConnCounter → ℕ
active_connections rule_id map = unwrap_or (lookup rule_id map) 0
