-- ===== src/System/Usage.antt =====
-- The use of the machine that backend/src/network.rs measures, and `system_stats` of
-- backend/src/api/settings.rs. `percent` stands for the floating-point computation of a percentage.
use unver.Prelude.{
  ℕ, ◌+◌, ◌-◌, ◌*◌, ◌^◌, ◌&&◌, Option, none, some, List, [], ◌∷◌, Text, codes, starts_with, is_some,
  length, retain, get_elem?, ltb, unwrap_or, if◌then◌else◌,
}
use unver.Prelude.Join.{text_lines}
use unver.Prelude.Trim.{split_whitespace}
use unver.Prelude.Int.{parse_uint}
use unver.State.{Db}
use unver.System.{CpuSample, u64, host_cpu_percent}

unfoldable pub parse_kb : Text → Option ℕ
unfolding parse_uint
parse_kb line = elim (get_elem? (split_whitespace line) 1) [
  | none ↦ none
  | some word ↦ parse_uint (2 ^ 64 - 1) word
]

abbrev after_line : Text → Option ℕ × Option ℕ → Option ℕ × Option ℕ
after_line line (total, available) =
    if starts_with line (codes "MemTotal:")
    then (parse_kb line, available)
    else if starts_with line (codes "MemAvailable:")
    then (total, parse_kb line)
    else (total, available)

-- The loop over the lines ends where both numbers are found.
unfoldable pub scan_memory : List Text → Option ℕ × Option ℕ → Option ℕ × Option ℕ
unfolding parse_kb
scan_memory [] found = found
scan_memory (line ∷ lines) found =
    let rest = scan_memory lines (after_line line found) in
    let now = after_line line found in if is_some now.0 && is_some now.1 then now else rest

abbrev pub used_and_total : Option ℕ × Option ℕ → Option (ℕ × ℕ)
used_and_total (none, available) = none
used_and_total (some total, none) = none
used_and_total (some total, some available) = some (total - available, total)

-- From the text of /proc/meminfo, `none` where it cannot be read: the used and all KB.
unfoldable pub host_memory : Option Text → Option (ℕ × ℕ)
unfolding scan_memory
host_memory none = none
host_memory (some meminfo) = used_and_total (scan_memory (text_lines meminfo) (none, none))

pub record SystemLoad : Type 0 where
  pub cpu_percent : ℕ
  pub mem_used : ℕ
  pub mem_total : ℕ
  pub mem_percent : ℕ
  pub disk_used : ℕ
  pub disk_total : ℕ
  pub disk_percent : ℕ

-- The blocks of `statvfs`.
pub record Statvfs : Type 0 where
  pub f_frsize : ℕ
  pub f_blocks : ℕ
  pub f_bavail : ℕ

abbrev pub host_disk_usage : Option Statvfs → Option (ℕ × ℕ)
host_disk_usage none = none
host_disk_usage (some stat) =
    let total = u64 (stat.f_blocks * stat.f_frsize) in
    some (total - u64 (stat.f_bavail * stat.f_frsize), total)

-- What `sysinfo` measures, each disk with its total and its available space.
pub record Native : Type 0 where
  pub cpu : ℕ
  pub used_memory : ℕ
  pub total_memory : ℕ
  pub disks : List (ℕ × ℕ)

-- The files under /host/proc, the numbers of the first line of `stat` among them.
pub record HostFiles : Type 0 where
  pub stat : List ℕ
  pub meminfo : Option Text
  pub statvfs : Option Statvfs

abbrev sum_of : (ℕ × ℕ → ℕ) → List (ℕ × ℕ) → ℕ
sum_of f [] = 0
sum_of f (d ∷ disks) = u64 (f d + sum_of f disks)

abbrev percent_of : (ℕ → ℕ → ℕ) → ℕ → ℕ → ℕ
percent_of percent used total = if ltb 0 total then percent used total else 0

unfoldable pub native_load : (ℕ → ℕ → ℕ) → Native → SystemLoad
native_load percent n =
    let disk_total = sum_of (λ d. d.0) n.disks in
    let disk_used = sum_of (λ d. u64 (d.0 + 2 ^ 64 - d.1)) n.disks in
    record {
      cpu_percent = n.cpu;
      mem_used = n.used_memory;
      mem_total = n.total_memory;
      mem_percent = percent_of percent n.used_memory n.total_memory;
      disk_used = disk_used;
      disk_total = disk_total;
      disk_percent = percent_of percent disk_used disk_total;
    }

unfoldable pub host_load :
    (ℕ → ℕ → ℕ) → HostFiles → Option CpuSample → SystemLoad × Option CpuSample
unfolding host_memory host_cpu_percent
host_load percent files last =
    let (cpu, sample) = host_cpu_percent files.stat last in
    let (mem_used, mem_total) = unwrap_or (host_memory files.meminfo) (0, 0) in
    let (disk_used, disk_total) = unwrap_or (host_disk_usage files.statvfs) (0, 0) in
    (
      record {
        cpu_percent = unwrap_or cpu 0;
        mem_used = u64 (mem_used * 1024);
        mem_total = u64 (mem_total * 1024);
        mem_percent = percent_of percent mem_used mem_total;
        disk_used = disk_used;
        disk_total = disk_total;
        disk_percent = percent_of percent disk_used disk_total;
      },
      sample,
    )

-- The host's files, if they are mounted.
unfoldable pub get_system_load :
    (ℕ → ℕ → ℕ) → Option HostFiles → Native → Option CpuSample → SystemLoad × Option CpuSample
unfolding host_load native_load
get_system_load percent none n last = (native_load percent n, last)
get_system_load percent (some files) n last = host_load percent files last

-- The counts of the page of the system.
pub record Stats : Type 0 where
  pub proxy_rules : ℕ
  pub active_proxies : ℕ
  pub certificates : ℕ
  pub auto_renew_certs : ℕ
  pub load : SystemLoad

unfoldable pub system_stats : Db → SystemLoad → Stats
system_stats db load = record {
  proxy_rules = length db.proxy_rules;
  active_proxies = length (retain (λ r. r.enabled) db.proxy_rules);
  certificates = length db.certificates;
  auto_renew_certs = length (retain (λ c. c.auto_renew) db.certificates);
  load = load;
}

-- A rate is kept as the bytes of the two seconds between two polls: the source divides by 2.
pub record NetTracker : Type 0 where
  pub rx_bytes : ℕ
  pub tx_bytes : ℕ
  pub rx_rate : ℕ
  pub tx_rate : ℕ
  pub total_rx : ℕ
  pub total_tx : ℕ

abbrev pub rate : ℕ → ℕ → ℕ
rate prev now = if ltb 0 prev && ltb prev now then now - prev else 0

-- One round of the monitor, with the counters of each interface.
unfoldable pub monitor_round : List (ℕ × ℕ) → NetTracker → NetTracker
monitor_round nets t =
    let rx_total = sum_of (λ n. n.0) nets in
    let tx_total = sum_of (λ n. n.1) nets in
    record {
      rx_bytes = rx_total;
      tx_bytes = tx_total;
      rx_rate = rate t.rx_bytes rx_total;
      tx_rate = rate t.tx_bytes tx_total;
      total_rx = rx_total;
      total_tx = tx_total;
    }
