-- ===== src/System.antt =====
-- The background tasks and the system handlers: backend/src/health.rs, backend/src/logger.rs, the log
-- queries of backend/src/api/settings.rs, and the counters of backend/src/network.rs. An HTTP request to
-- an upstream is a parameter, and so are the files of /proc, by the numbers in them.
pub mod Load
pub mod Usage
pub mod Bounds
use unver.Prelude.{
  ℕ, suc, ◌+◌, ◌-◌, ◌*◌, ◌/◌, ◌%◌, ◌^◌, Bool, true, false, ◌&&◌, ◌||◌, ◌==◌, Option, none, some,
  List, [], ◌∷◌, ◌++◌, map, Text, codes, text_eq, lowercase, starts_with, length, take, retain, any,
  get_elem?, leb, ltb, unwrap_or, if◌then◌else◌,
}
use unver.Models.{ProxyRule}
use unver.Errors.{AppResult, ok, err, bad_request}
use unver.State.{AppState}
use unver.Rules.{on_rules, has_id, update_where}

-- The status of a rule, from the HTTP status of the upstream, `none` where the request fails.
unfoldable pub health_of : Option ℕ → Text
health_of none = codes "offline"
health_of (some status) =
    if leb 200 status && ltb status 300
    then codes "online"
    else if status == 401 || status == 403
    then codes "online"
    else codes "error"

abbrev checked : Text → Text → ProxyRule → ProxyRule
checked now status r = record r { status = status; last_checked_at = some now }

-- `send` is the request to a target; the rules are those of the query at the start.
unfoldable pub check_each : (Text → Option ℕ) → Text → List ProxyRule → AppState → AppState
check_each send now [] s = s
check_each send now (r ∷ rs) s =
    check_each send now rs
      (on_rules (update_where r.id (checked now (health_of (send r.target_url)))) s)

unfoldable pub check_all_upstreams : (Text → Option ℕ) → Text → AppState → AppState
unfolding check_each health_of
check_all_upstreams send now s = check_each send now (retain (λ r. r.enabled) s.db.proxy_rules) s

pub record LogEntry : Type 0 where
  pub id : ℕ
  pub level : Text
  pub message : Text
  pub created_at : Text

-- The table `logs`, oldest first, with the next id of AUTOINCREMENT.
pub record LogTable : Type 0 where
  pub rows : List LogEntry
  pub next_id : ℕ

unfoldable pub log_event : Text → Text → Text → LogTable → LogTable
log_event now level message t = record {
  rows =
      t.rows ++ record { id = t.next_id; level = level; message = message; created_at = now } ∷ [];
  next_id = suc t.next_id;
}

abbrev reverse_onto : List LogEntry → List LogEntry → List LogEntry
reverse_onto acc [] = acc
reverse_onto acc (x ∷ xs) = reverse_onto (x ∷ acc) xs

-- `ORDER BY id DESC LIMIT n`
abbrev pub newest : ℕ → List LogEntry → List LogEntry
newest n rows = take n (reverse_onto [] rows)

abbrev pub has_log_id : ℕ → LogEntry → Bool
has_log_id i r = r.id == i

-- `DELETE … WHERE id NOT IN (…)`
unfoldable pub prune_logs : ℕ → LogTable → LogTable
prune_logs keep t =
    let kept = newest keep t.rows in
    record t { rows = retain (λ r. any (has_log_id r.id) kept) t.rows }

-- `LIKE 'p%'`, which ignores ASCII case.
abbrev like_prefix : Text → Text → Bool
like_prefix p message = starts_with (lowercase message) (lowercase p)

abbrev matching : List Text → LogEntry → Bool
matching patterns r = any (λ p. like_prefix p r.message) patterns

abbrev patterns_of : Text → Option (List Text)
patterns_of category =
    if text_eq category (codes "ddns")
    then some (codes "DDNS:" ∷ [])
    else if text_eq category (codes "ssl")
    then some (codes "SSL" ∷ codes "Certificate" ∷ [])
    else if text_eq category (codes "login")
    then some (codes "AUTH:" ∷ [])
    else if text_eq category (codes "proxy")
    then some (codes "PROXY:" ∷ [])
    else none

unfoldable pub list_logs : LogTable → List LogEntry
list_logs t = newest 50 t.rows

unfoldable pub list_logs_by_category : Text → LogTable → AppResult (List LogEntry)
list_logs_by_category category t = elim (patterns_of category) [
  | none ↦ err (bad_request (codes "Unknown log category: " ++ category))
  | some patterns ↦ ok (newest 100 (retain (matching patterns) t.rows))
]

-- Sums of the fields of the first line of /proc/stat, as 64-bit numbers.
pub record CpuSample : Type 0 where
  pub total : ℕ
  pub idle : ℕ

abbrev pub u64 : ℕ → ℕ
u64 n = n % 2 ^ 64

abbrev sum : List ℕ → ℕ
sum [] = 0
sum (x ∷ xs) = u64 (x + sum xs)

unfoldable pub cpu_sample : List ℕ → Option CpuSample
cpu_sample fields =
    if ltb (length fields) 4
    then none
    else some (record {
      total = sum fields;
      idle = u64 (unwrap_or (get_elem? fields 3) 0 + unwrap_or (get_elem? fields 4) 0);
    })

-- The part of the time since the last sample that was not idle. The subtraction of the source wraps
-- around where there is more idle time than time.
unfoldable pub cpu_between : CpuSample → CpuSample → Option ℕ
cpu_between prev current =
    let dt = current.total - prev.total in
    let di = current.idle - prev.idle in
    if ltb 0 dt then some (u64 (u64 (dt + 2 ^ 64 - di) * 100) / dt % 256) else none

-- The sample is kept for the next call.
unfoldable pub host_cpu_percent : List ℕ → Option CpuSample → Option ℕ × Option CpuSample
unfolding cpu_sample cpu_between
host_cpu_percent fields last = elim (cpu_sample fields) [
  | none ↦ (none, last)
  | some current ↦ elim last [
    | none ↦ (none, some current)
    | some prev ↦ (cpu_between prev current, some current)
  ]
]
