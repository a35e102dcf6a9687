-- ===== src/System/Load.antt =====
-- The bound of the CPU load that backend/src/network.rs computes.
use native.Mathlib.Nat.{div-le_of_le-mul}
use unver.Prelude.{
  ℕ, ◌+◌, ◌-◌, ◌*◌, ◌/◌, ◌%◌, ◌^◌, ◌≤◌, ◌<◌, inl, inr, ◌≡◌, sym, ap, ◌∙◌, Option, some, arith, ltb,
  Bool-cases,
}
use unver.System.{CpuSample, cpu_between, u64}

wraps : (dt di : ℕ) → di ≤ dt → dt < 2 ^ 57 → u64 (u64 (dt + 2 ^ 64 - di) * 100) ≡ (dt - di) * 100
wraps dt di h k = omega arith

percent : (dt di : ℕ) → di ≤ dt → (dt - di) * 100 / dt ≤ 100
percent dt di h = div-le_of_le-mul dt (omega arith)

-- A load that is computed is at most 100 percent, if since the last sample there was not more idle time
-- than time and less than 2 to the power of 57 ticks have passed.
pub cpu_between-le :
    (prev current : CpuSample) (n : ℕ)
    → current.idle - prev.idle ≤ current.total - prev.total
    → current.total - prev.total < 2 ^ 57
    → cpu_between prev current ≡ some n
    → n ≤ 100
unfolding cpu_between
cpu_between-le prev current n h k e =
    let dt = current.total - prev.total in
    let di = current.idle - prev.idle in
    elim (Bool-cases (ltb 0 dt)) [
      | inr t ↦ absurd (ground arith)
      | inl t ↦
          let out : Path (Option ℕ) (some ((dt - di) * 100 / dt % 256)) (some n) =
            sym (ap (λ x. some (x / dt % 256)) (wraps dt di h k)) ∙ rw (cpu_between, t) at e in
          let eq : (dt - di) * 100 / dt % 256 ≡ n = cc in omega (arith, percent dt di h, eq)
    ]
