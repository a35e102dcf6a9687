-- ===== src/Jobs/Logs.antt =====
-- What the polls of a job get to see: `certificate_status` of backend/src/api/settings.rs.
use mathlib.Core.Path.{ap₂}
use mathlib.Core.List.{append_assoc, append-nil}
use mathlib.Core.Path.{subst}
use unver.Prelude.{
  ap, inl, inr, false, if◌then◌else◌, text_eq, text_eq_refl, text_eq_iff, Bool-cases, Option-cases,
  ◌≡◌, refl, sym, ◌∙◌, List, [], ◌∷◌, ◌++◌, some, Text,
}
use unver.Prelude.Assoc.{Assoc, lookup, lookup-insert, lookup-insert_self}
use unver.Errors.{AppResult, ok, err}
use unver.Jobs.{
  LogLine, BackgroundJob, Jobs, WorkerAnswer, push_line, ran, run_spawned, worker_done,
  certificate_status, change_at, settle,
}

pub data Event : Type 0 where
  writes : LogLine → Event
  answers : WorkerAnswer → Event
  polls : Event
  lands : Event

abbrev lines_of : AppResult BackgroundJob → List LogLine
lines_of (ok job) = job.logs
lines_of (err e) = []

-- What the polls of a job return in turn, and the tables at the end.
unfoldable pub run : Text → List Event → Jobs → List LogLine × Jobs
run id [] j = ([], j)
run id (writes line ∷ es) j = run id es (push_line id line j)
run id (answers a ∷ es) j = run id es (worker_done id a j)
run id (lands ∷ es) j = run id es (run_spawned j)
run id (polls ∷ es) j =
    let (seen, after) = run id es (certificate_status id j).1 in
    (lines_of (certificate_status id j).0 ++ seen, after)

abbrev pub written : List Event → List LogLine
written [] = []
written (writes line ∷ es) = line ∷ written es
written (answers a ∷ es) = written es
written (lands ∷ es) = written es
written (polls ∷ es) = written es

-- The lines of the tasks for a job.
abbrev pub waiting : Text → List (Text × LogLine) → List LogLine
waiting id [] = []
waiting id ((k, line) ∷ tasks) =
    let rest = waiting id tasks in if text_eq k id then line ∷ rest else rest

waiting-append :
    (id : Text) (line : LogLine) (tasks : List (Text × LogLine))
    → waiting id (tasks ++ (id, line) ∷ []) ≡ waiting id tasks ++ line ∷ []
waiting-append id line [] = rw (text_eq_refl id) refl
waiting-append id line ((k, l) ∷ tasks) =
    let ih = waiting-append id line tasks in
    elim (Bool-cases (text_eq k id)) [ inl y ↦ rw y (ap (λ ls. l ∷ ls) ih) | inr n ↦ rw n ih ]

change_at-other :
    {V : Type 0} (k i : Text) (f : V → V) (m : Assoc V)
    → text_eq k i ≡ false
    → lookup i (change_at k f m) ≡ lookup i m
change_at-other k i f m n = elim (Option-cases (lookup k m)) [
  | inl e ↦ rw (change_at, e) refl
  | inr (v, e) ↦ rw (change_at, e, lookup-insert k i (f v) m, n) refl
]

change_at-lookup :
    {V : Type 0} (k : Text) (f : V → V) (m : Assoc V) (v : V)
    → lookup k m ≡ some v
    → lookup k (change_at k f m) ≡ some (f v)
change_at-lookup k f m v e = rw (change_at, e) (lookup-insert_self k (f v) m)

abbrev pub Registered : Text → Jobs → List LogLine → Type 0
Registered id j buffer =
    ((job : BackgroundJob) × (lookup id j.background_jobs ≡ some job))
    × (lookup id j.background_job_logs ≡ some buffer)

-- A task moves its line from the tasks into the buffer.
ran-Registered :
    (id : Text) (tasks : List (Text × LogLine)) (j : Jobs) (buffer : List LogLine)
    → Registered id j buffer
    → (next : List LogLine) × Registered id (ran tasks j) next
      × (next ++ waiting id (ran tasks j).spawned ≡ buffer ++ waiting id tasks)
ran-Registered id [] j buffer (job, e) = (buffer, (job, e), refl)
ran-Registered id ((k, line) ∷ tasks) j buffer (job, e) = elim (Bool-cases (text_eq k id)) [
  | inl y ↦
      let same : k ≡ id = (text_eq_iff k id).0 y in
      (
        buffer ++ line ∷ [],
        (
          job,
          subst
              (λ i.
                lookup id (change_at i (λ lines. lines ++ line ∷ []) j.background_job_logs)
                ≡ some (buffer ++ line ∷ []))
              (sym same)
              (change_at-lookup id (λ lines. lines ++ line ∷ []) j.background_job_logs buffer e),
        ),
        rw y (append_assoc buffer (line ∷ []) (waiting id tasks)),
      )
  | inr n ↦ (
    buffer,
    (job, change_at-other k id (λ lines. lines ++ line ∷ []) j.background_job_logs n ∙ e),
    rw n refl,
  )
]

worker_done-Registered :
    (id : Text) (a : WorkerAnswer) (j : Jobs) (buffer : List LogLine)
    → Registered id j buffer
    → Registered id (worker_done id a j) buffer
unfolding worker_done
worker_done-Registered id a j buffer ((job, h), e) =
    ((settle a job, change_at-lookup id (settle a) j.background_jobs job h), e)

certificate_status-Registered :
    (id : Text) (j : Jobs) (buffer : List LogLine)
    → Registered id j buffer
    → Registered id (certificate_status id j).1 [] × (lines_of (certificate_status id j).0 ≡ buffer)
unfolding certificate_status
certificate_status-Registered id j buffer ((job, h), e) =
    rw (certificate_status, h, e)
      (((job, h), change_at-lookup id (λ lines. []) j.background_job_logs buffer e), refl)

certificate_status-spawned :
    (id : Text) (j : Jobs) → (certificate_status id j).1.spawned ≡ j.spawned
unfolding certificate_status
certificate_status-spawned id j = elim (Option-cases (lookup id j.background_jobs)) [
  | inl e ↦ rw (certificate_status, e) refl
  | inr (job, e) ↦ rw (certificate_status, e) refl
]

regroup : (a b c d w : List LogLine) → a ++ b ≡ c ++ d → a ++ (b ++ w) ≡ c ++ (d ++ w)
regroup a b c d w e = sym (append_assoc a b w) ∙ ap (λ ls. ls ++ w) e ∙ append_assoc c d w

-- The lines that a job's polls return, one poll after another, with what is left in the buffer and with
-- the lines that wait in tasks of the runtime, are the lines of the buffer and of the tasks at the start
-- and those that the worker writes: each once and in their order, however writes, tasks, polls and the
-- worker's answer are interleaved, if the job is registered.
pub run-lines :
    (id : Text) (es : List Event) (j : Jobs) (buffer : List LogLine)
    → Registered id j buffer
    → (rest : List LogLine) × Registered id (run id es j).1 rest
      × ((run id es j).0 ++ (rest ++ waiting id (run id es j).1.spawned)
          ≡ buffer ++ (waiting id j.spawned ++ written es))
unfolding run push_line run_spawned worker_done certificate_status
run-lines id [] j buffer r =
    (buffer, r, ap (λ ls. buffer ++ ls) (sym (append-nil (waiting id j.spawned))))
run-lines id (writes line ∷ es) j buffer r =
    let (rest, k, e) = run-lines id es (push_line id line j) buffer r in
    let more =
      ap (λ ls. ls ++ written es) (waiting-append id line j.spawned)
      ∙ append_assoc (waiting id j.spawned) (line ∷ []) (written es) in
    (rest, k, e ∙ ap (λ ls. buffer ++ ls) more)
run-lines id (answers a ∷ es) j buffer r =
    run-lines id es (worker_done id a j) buffer (worker_done-Registered id a j buffer r)
run-lines id (lands ∷ es) j buffer r =
    let (next, now, moved) = ran-Registered id j.spawned j buffer r in
    let (rest, k, e) = run-lines id es (run_spawned j) next now in
    (
      rest,
      k,
      e
          ∙ regroup next (waiting id (run_spawned j).spawned) buffer (waiting id j.spawned)
              (written es) moved,
    )
run-lines id (polls ∷ es) j buffer r =
    let (registered, seen) = certificate_status-Registered id j buffer r in
    let (rest, k, e) = run-lines id es (certificate_status id j).1 [] registered in
    (
      rest,
      k,
      append_assoc (lines_of (certificate_status id j).0) (run id es (certificate_status id j).1).0
            (rest ++ waiting id (run id es (certificate_status id j).1).1.spawned)
          ∙ ap₂ (λ a b. a ++ b) seen
              (e ∙ ap (λ ts. waiting id ts ++ written es) (certificate_status-spawned id j)),
    )
