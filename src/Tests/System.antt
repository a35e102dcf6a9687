-- ===== src/Tests/System.antt =====
-- Load, health and logs.
use unver.Prelude.{◌≡◌, refl, ◌≤◌, arith, some, [], ◌∷◌, ◌++◌, map, Text, codes}
use unver.Prelude.Int.{parse_uint, parse_digits}
use unver.System.Usage.{parse_kb, scan_memory, host_memory, NetTracker, monitor_round}
use unver.System.{
  CpuSample, LogTable, cpu_sample, cpu_between, host_cpu_percent, health_of, check_each,
  check_all_upstreams, log_event, prune_logs, list_logs,
}
use unver.System.Load.{cpu_between-le}
use unver.Tests.Data.{app}

runs : Unit {0}
unfolding cpu_sample cpu_between host_cpu_percent health_of check_each check_all_upstreams log_event
    prune_logs list_logs
runs = tt

abbrev before : CpuSample
before = record { total = 1000; idle = 800 }

abbrev after : CpuSample
after = record { total = 1200; idle = 950 }

quarter : cpu_between before after ≡ some 25
unfolding runs
quarter = refl

cpu_between-le_example : 25 ≤ 100
cpu_between-le_example = cpu_between-le before after 25 (omega arith) (omega arith) quarter

-- More idle time than time: the subtraction wraps around.
wrapped : cpu_between before (record { total = 1001; idle = 802 }) ≡ some 156
unfolding runs
wrapped = refl

abbrev logged : LogTable
logged = log_event (codes "t") (codes "INFO") (codes "c") (
    log_event (codes "t") (codes "INFO") (codes "b")
      (log_event (codes "t") (codes "INFO") (codes "a") (record { rows = []; next_id = 1 })))

pruned : map (λ r. r.message) (prune_logs 2 logged).rows ≡ codes "b" ∷ codes "c" ∷ []
unfolding runs
pruned = refl

refused_is_online :
    map (λ r. r.status) (check_all_upstreams (λ url. some 401) (codes "now") app).db.proxy_rules
    ≡ codes "online" ∷ codes "online" ∷ []
unfolding runs
refused_is_online = refl

abbrev meminfo : Text
meminfo =
    codes "MemTotal:    16000 kB"
    ++ (10 ∷ codes "MemFree:     1000 kB" ++ (10 ∷ codes "MemAvailable:  4000 kB"))

reads_memory : host_memory (some meminfo) ≡ some (12000, 16000)
unfolding host_memory scan_memory parse_kb parse_uint parse_digits
reads_memory = refl

abbrev idle : NetTracker
idle = record {
  rx_bytes = 1000;
  tx_bytes = 0;
  rx_rate = 0;
  tx_rate = 0;
  total_rx = 1000;
  total_tx = 0;
}

-- Without an earlier count there is no rate.
shows_rates :
    ((monitor_round ((1500, 10) ∷ (700, 20) ∷ []) idle).rx_rate ≡ 1200)
    × ((monitor_round ((1500, 10) ∷ (700, 20) ∷ []) idle).tx_rate ≡ 0)
unfolding monitor_round
shows_rates = (refl, refl)
