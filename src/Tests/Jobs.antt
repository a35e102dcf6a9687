-- ===== src/Tests/Jobs.antt =====
-- Certificates that are asked for, validated, logged and renewed.
use unver.Prelude.{
  ◌≡◌, refl, true, false, none, some, List, [], ◌∷◌, ◌++◌, Text, codes, arith, drop, ◌==◌,
  if◌then◌else◌,
}
use unver.Prelude.Trim.{trim}
use unver.Prelude.Assoc.{lookup, insert}
use unver.State.{get_setting, set_setting}
use unver.Dns.{good, DnsProvider}
use unver.Certificates.{update_certificate}
use unver.Acme.{Authorization, valid, pending, poll, authorize, each}
use unver.Acme.Issuing.{should_renew}
use unver.Acme.Validation.{authorize-passes}
use unver.Jobs.{
  Jobs, LogLine, issued, split_sans, push_names, domains_of, issue_certificate, push_line,
  run_spawned, worker_done, certificate_status,
}
use unver.Jobs.Logs.{
  Event, writes, answers, lands, polls, waiting, run, written, Registered, run-lines,
}
use unver.Tests.Data.{db}

runs : Unit {0}
unfolding trim lookup insert get_setting set_setting poll authorize each should_renew split_sans
    push_names domains_of issue_certificate push_line run_spawned worker_done certificate_status run
    update_certificate
runs = tt

names :
    domains_of (codes "a.com") (some (codes "b.com; a.com,b.com  c.com"))
    ≡ codes "a.com" ∷ codes "b.com" ∷ codes "c.com" ∷ []
unfolding runs
names = refl

abbrev line : Text → LogLine
line t = record { timestamp = codes "12:00:00"; level = codes "info"; message = t }

abbrev jobs : Jobs
jobs = record {
  db = record db {
    settings =
        (codes "acme_email", codes "me@a.com") ∷ (codes "ddns_provider", codes "aliyun") ∷ [];
  };
  background_jobs = [];
  background_job_logs = [];
  spawned = [];
}

abbrev started : Jobs
started =
    (issue_certificate (codes "j1") (record { domain = codes "a.com"; sans = none; email = none })
      jobs).1

started-Registered : Registered (codes "j1") started []
unfolding runs
started-Registered = ((_, refl), refl)

-- The runtime goes on without a task for the second line, which no poll gets to see.
abbrev events : List Event
events =
    writes (line (codes "one"))
    ∷ lands
    ∷ polls
    ∷ writes (line (codes "two"))
    ∷ answers (issued (codes "2025"))
    ∷ polls
    ∷ []

run-lines_example :
    (rest : List LogLine) × Registered (codes "j1") (run (codes "j1") events started).1 rest
    × ((run (codes "j1") events started).0
          ++ (rest ++ waiting (codes "j1") (run (codes "j1") events started).1.spawned)
        ≡ [] ++ (waiting (codes "j1") started.spawned ++ written events))
run-lines_example = run-lines (codes "j1") events started [] started-Registered

sees_one : (run (codes "j1") events started).0 ≡ line (codes "one") ∷ []
unfolding runs
sees_one = refl

-- A provider whose world is the values of the records, newest first.
abbrev provider : DnsProvider (List Text)
provider = record {
  upsert_record = λ db domain ip kind w. (good tt, w);
  delete_domain_records = λ db domain w. (good 0, w);
  create_acme_txt = λ db domain value w. (good value, value ∷ w);
  delete_acme_txt = λ db domain rid w. (good tt, drop 1 w);
  cleanup_acme_txts = λ db domain w. (good 0, w);
}

abbrev at_third : Authorization
at_third = record {
  fetched = true;
  identifier = codes "*.a.com";
  has_dns01 = true;
  dns_value = codes "v";
  takes_ready = true;
  status = λ i. if i == 3 then some valid else some pending;
}

authorize-passes_example : (authorize provider db at_third []).0 ≡ good tt
authorize-passes_example =
    authorize-passes provider db at_third [] (codes "v" ∷ []) (codes "v") 2 refl refl refl refl
      (λ j a b. ground arith) refl (omega arith)

-- A record that cannot be followed stays at the provider.
left_behind :
    (each (authorize provider db) (record at_third { takes_ready = false } ∷ []) []).1
    ≡ codes "v" ∷ []
unfolding runs
left_behind = refl
