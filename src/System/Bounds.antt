-- ===== src/System/Bounds.antt =====
-- The bounds of what backend/src/network.rs measures.
use unver.Prelude.{
  ℕ, ◌+◌, ◌*◌, ◌^◌, ◌≤◌, ◌<◌, ◌≡◌, Option, none, some, List, [], ◌∷◌, Text, arith, unwrap_or, inl,
  inr, Option-cases,
}
use unver.Prelude.Join.{text_lines}
use unver.System.{CpuSample, u64}
use unver.System.Usage.{
  HostFiles, NetTracker, Statvfs, used_and_total, host_memory, host_disk_usage, scan_memory,
  host_load, monitor_round,
}

used_and_total-le :
    (found : Option ℕ × Option ℕ) (used total : ℕ)
    → used_and_total found ≡ some (used, total)
    → used ≤ total
used_and_total-le (none, a) used total e = absurd (cc)
used_and_total-le (some t, none) used total e = absurd (cc)
used_and_total-le (some t, some a) used total e = ground arith

host_memory-le :
    (meminfo : Option Text) (used total : ℕ)
    → host_memory meminfo ≡ some (used, total)
    → used ≤ total
unfolding host_memory
host_memory-le none used total e = absurd (cc)
host_memory-le (some text) used total e =
    used_and_total-le (scan_memory (text_lines text) (none, none)) used total e

host_disk_usage-le :
    (stat : Option Statvfs) (used total : ℕ)
    → host_disk_usage stat ≡ some (used, total)
    → used ≤ total
host_disk_usage-le none used total e = absurd (cc)
host_disk_usage-le (some stat) used total e = ground arith

-- The host has less than 2 to the power of 54 KB.
abbrev IsSmall : HostFiles → Type 0
IsSmall files = (used total : ℕ) → host_memory files.meminfo ≡ some (used, total) → total < 2 ^ 54

mem-le :
    (files : HostFiles)
    → IsSmall files
    → u64 ((unwrap_or (host_memory files.meminfo) (0, 0)).0 * 1024)
      ≤ u64 ((unwrap_or (host_memory files.meminfo) (0, 0)).1 * 1024)
mem-le files small = elim (Option-cases (host_memory files.meminfo)) [
  | inl e ↦ rw e (omega arith)
  | inr ((used, total), e) ↦
      let l = host_memory-le files.meminfo used total e in
      let b = small used total e in rw e (omega arith)
]

disk-le :
    (stat : Option Statvfs)
    → (unwrap_or (host_disk_usage stat) (0, 0)).0 ≤ (unwrap_or (host_disk_usage stat) (0, 0)).1
disk-le none = omega arith
disk-le (some stat) = omega arith

-- Of the host's memory and disk no more is in use than there is, whatever the files say, if the host has
-- less than 2 to the power of 54 KB of memory.
pub host_load-le :
    (percent : ℕ → ℕ → ℕ) (files : HostFiles) (last : Option CpuSample)
    → IsSmall files
    → ((host_load percent files last).0.mem_used ≤ (host_load percent files last).0.mem_total)
      × ((host_load percent files last).0.disk_used ≤ (host_load percent files last).0.disk_total)
unfolding host_load
host_load-le percent files last small = (mem-le files small, disk-le files.statvfs)

-- The bytes that the rates of the polls stand for, and the counter after them.
abbrev pub received : List (List (ℕ × ℕ)) → NetTracker → ℕ
received [] t = 0
received (nets ∷ polls) t = (monitor_round nets t).rx_rate + received polls (monitor_round nets t)

abbrev pub after_polls : List (List (ℕ × ℕ)) → NetTracker → NetTracker
after_polls [] t = t
after_polls (nets ∷ polls) t = after_polls polls (monitor_round nets t)

-- No poll reads less than the one before.
abbrev pub Rises : List (List (ℕ × ℕ)) → NetTracker → Type 0
Rises [] t = Unit
Rises (nets ∷ polls) t =
    (t.rx_bytes ≤ (monitor_round nets t).rx_bytes) × Rises polls (monitor_round nets t)
