-- ===== src/Jobs.antt =====
-- The background jobs that issue certificates: `issue_certificate`, `certificate_status` and the task that
-- waits for the worker, of backend/src/api/settings.rs. What the worker does is in the module Acme; here it
-- is a line that it logs, and its answer.
pub mod Domains
pub mod Logs
use unver.Prelude.{
  ℕ, Bool, true, false, not, ◌&&◌, ◌||◌, ◌==◌, Option, none, some, List, [], ◌∷◌, ◌++◌, Text, codes,
  text_eq, is_empty, any, contains_char, push_front, unwrap_or, if◌then◌else◌,
}
use unver.Prelude.Trim.{trim}
use unver.Prelude.Assoc.{Assoc, lookup, insert}
use unver.Errors.{AppResult, ok, err, bad_request, internal, not_found}
use unver.State.{Db, get_setting, set_setting}
use unver.Action.{Action, gets, modify, pure, reject_if, ok_or, for_some, ◌>>=◌, ◌>>◌}

pub record LogLine : Type 0 where
  pub timestamp : Text
  pub level : Text
  pub message : Text

pub record BackgroundJob : Type 0 where
  pub job_id : Text
  pub status : Text
  pub domain : Text
  pub logs : List LogLine
  pub result : Option Text
  pub error : Option Text

-- The tables of the jobs and of their log buffers, with the database. `spawned` are the tasks of the
-- worker's runtime that have not run yet, in turn: each has the buffer of a job, and a line for it.
pub record Jobs : Type 0 where
  pub db : Db
  pub background_jobs : Assoc BackgroundJob
  pub background_job_logs : Assoc (List LogLine)
  pub spawned : List (Text × LogLine)

pub record IssueCertRequest : Type 0 where
  pub domain : Text
  pub sans : Option Text
  pub email : Option Text

-- `split(&[',', ';', ' '][..])`
abbrev is_separator : ℕ → Bool
is_separator c = c == b',' || c == b';' || c == b' '

unfoldable pub split_sans : Text → List Text
split_sans [] = [] ∷ []
split_sans (x ∷ s) =
    let rest = split_sans s in
    elim (is_separator x) [ true ↦ [] ∷ rest | false ↦ push_front x rest ]

abbrev pub has_name : Text → List Text → Bool
has_name d ds = any (λ e. text_eq e d) ds

-- The loop over the names: a name that is empty or there already is passed over.
unfoldable pub push_names : List Text → List Text → List Text
push_names domains [] = domains
push_names domains (s ∷ names) =
    let name = trim s in
    let skipped = push_names domains names in
    let pushed = push_names (domains ++ name ∷ []) names in
    if is_empty name || has_name name domains then skipped else pushed

unfoldable pub domains_of : Text → Option Text → List Text
unfolding split_sans push_names
domains_of primary none = primary ∷ []
domains_of primary (some sans) = push_names (primary ∷ []) (split_sans sans)

-- `join(", ")`
abbrev behind : List Text → Text
behind [] = []
behind (d ∷ ds) = codes ", " ++ (d ++ behind ds)

abbrev label_of : List Text → Text
label_of [] = []
label_of (d ∷ ds) = d ++ behind ds

abbrev saves : Text → Bool
saves email = not (is_empty email) && contains_char email b'@'

abbrev on_db : (Db → Db) → Jobs → Jobs
on_db f j = record j { db = f j.db }

abbrev save_email : Option Text → Action Jobs (Unit {0})
save_email none j = (ok tt, j)
save_email (some email) j = (
  ok tt,
  if saves (trim email) then on_db (set_setting (codes "acme_email") (trim email)) j else j,
)

abbrev new_job : Text → Text → BackgroundJob
new_job id domain = record {
  job_id = id;
  status = codes "running";
  domain = domain;
  logs = [];
  result = none;
  error = none;
}

abbrev register : Text → Text → Jobs → Jobs
register id domain j = record j {
  background_jobs = insert id (new_job id domain) j.background_jobs;
  background_job_logs = insert id [] j.background_job_logs;
}

abbrev setting_of : Text → Jobs → Text
setting_of key j = get_setting j.db key

-- The worker's request: the address, the domains and the provider.
pub record SslRequest : Type 0 where
  pub email : Text
  pub domains : List Text
  pub provider_name : Text
  pub use_staging : Bool

-- `job_id` is the new UUID; the answer names the job, and the request goes to the worker.
unfoldable pub issue_certificate : Text → IssueCertRequest → Action Jobs (Text × SslRequest)
issue_certificate job_id body = do
  reject_if (is_empty (trim body.domain)) (bad_request (codes "Domain is required"))
  save_email body.email
  email ← gets (setting_of (codes "acme_email"))
  reject_if (is_empty email) (bad_request (codes "ACME email not configured"))
  provider_name ← gets (setting_of (codes "ddns_provider"))
  reject_if (is_empty provider_name) internal
  staging ← gets (setting_of (codes "acme_staging"))
  modify (register job_id (label_of (domains_of (trim body.domain) body.sans)))
  pure (
    job_id,
    record {
      email = email;
      domains = domains_of (trim body.domain) body.sans;
      provider_name = provider_name;
      use_staging = text_eq staging (codes "true");
    },
  )

-- The answer that the task gets: the date of expiry, an error, or none if the worker is gone.
pub data WorkerAnswer : Type 0 where
  issued : Text → WorkerAnswer
  failed : Text → WorkerAnswer
  gone : WorkerAnswer

abbrev pub settle : WorkerAnswer → BackgroundJob → BackgroundJob
settle (issued expires_at) job = record job {
  status = codes "completed";
  result = some (
      codes "Certificate issued for "
      ++ (job.domain ++ (codes " (expires " ++ (expires_at ++ codes ")"))));
}
settle (failed e) job = record job { status = codes "failed"; error = some e }
settle gone job = record job {
  status = codes "failed";
  error = some (codes "Worker communication lost");
}

-- `get_mut`, and what is done with it
abbrev pub change_at : {V : Type 0} → Text → (V → V) → Assoc V → Assoc V
change_at k f m = elim (lookup k m) [ none ↦ m | some v ↦ insert k (f v) m ]

unfoldable pub worker_done : Text → WorkerAnswer → Jobs → Jobs
worker_done id answer j = record j {
  background_jobs = change_at id (settle answer) j.background_jobs;
}

-- A line that the worker logs is left to a task.
unfoldable pub push_line : Text → LogLine → Jobs → Jobs
push_line id line j = record j { spawned = j.spawned ++ (id, line) ∷ [] }

abbrev pub ran : List (Text × LogLine) → Jobs → Jobs
ran [] j = record j { spawned = [] }
ran ((id, line) ∷ tasks) j = record j {
  background_job_logs = change_at id (λ lines. lines ++ line ∷ []) j.background_job_logs;
  spawned = tasks;
}

-- The runtime, of one thread, runs the next task, if there is one; it runs none while no request of the
-- worker is under way.
unfoldable pub run_spawned : Jobs → Jobs
run_spawned j = ran j.spawned j

-- The poll takes the lines out of the buffer.
abbrev drained : Text → BackgroundJob → Jobs → BackgroundJob × Jobs
drained id job j = (
  record job { logs = unwrap_or (lookup id j.background_job_logs) [] },
  record j { background_job_logs = change_at id (λ lines. []) j.background_job_logs },
)

abbrev answer_of : BackgroundJob × Jobs → AppResult BackgroundJob × Jobs
answer_of (job, j) = (ok job, j)

unfoldable pub certificate_status : Text → Action Jobs BackgroundJob
certificate_status id j = elim (lookup id j.background_jobs) [
  | none ↦ (err not_found, j)
  | some job ↦ answer_of (drained id job j)
]
