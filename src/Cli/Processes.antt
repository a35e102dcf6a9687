-- ===== src/Cli/Processes.antt =====
-- Which processes backend/src/cli.rs takes for the service.
use unver.Prelude.{
  ℕ, ◌^◌, ◌-◌, ◌≡◌, ◌≢◌, ◌↔◌, ◌⊎◌, refl, ap, ◌∙◌, inl, inr, true, ◌==◌, ==_iff, Option, none, some,
  List, [], ◌∷◌, Text, Any, Bool-cases,
}
use unver.Prelude.Int.{parse_uint}
use unver.Cli.{ProcEntry, runs_unver, keep_pid, find_unver_pids}

-- An entry of /proc for process `n` whose executable has "unver" in its path, or the path given.
abbrev pub IsFound : Text → ℕ → ProcEntry → Type 0
IsFound path n e = (parse_uint (2 ^ 32 - 1) e.name ≡ some n) × (runs_unver path e.exe ≡ true)

module _ (path : Text) (own n : ℕ) where
  keep_pid-Any :
      (exe : Option Text) (o : Option ℕ) (pids : List ℕ)
      → Any (λ p. p ≡ n) (keep_pid path own exe o pids)
        ↔ (((n ≢ own) × (o ≡ some n) × (runs_unver path exe ≡ true)) ⊎ Any (λ p. p ≡ n) pids)
  keep_pid-Any exe none pids =
      (λ a. inr a, λ c. elim c [ inl (ne, e, r) ↦ absurd (cc) | inr a ↦ a ])
  keep_pid-Any exe (some pid) pids = elim (Bool-cases (pid == own)) [
    | inl y ↦ rw y (
      λ a. inr a,
      λ c. elim c [
        | inl (ne, e, r) ↦
            let here : pid ≡ own = (==_iff pid own).0 y in
            let there : pid ≡ n = cc in absurd (ne (cc))
        | inr a ↦ a
      ],
    )
    | inr z ↦ elim (Bool-cases (runs_unver path exe)) [
      | inl r ↦
          rw (z, r)
            (
              λ c. elim c [
                | inl e ↦ inl (λ (o : n ≡ own). cc (z, (==_iff pid own).1 (e ∙ o)), ap some e, refl)
                | inr a ↦ inr a
              ],
              λ c. elim c [ inl (ne, e, t) ↦ inl (cc) | inr a ↦ inr a ],
            )
      | inr r ↦ rw (z, r) (λ a. inr a, λ c. elim c [ inl (ne, e, t) ↦ absurd (cc) | inr a ↦ a ])
    ]
  ]

  -- A process is signalled exactly when it is another one, and some entry of /proc has its number and an
  -- executable with "unver" anywhere in its path, or the path of this one.
  pub find_unver_pids-Any :
      (entries : List ProcEntry)
      → Any (λ p. p ≡ n) (find_unver_pids (some entries) path own)
        ↔ ((n ≢ own) × Any (IsFound path n) entries)
  unfolding find_unver_pids
  find_unver_pids-Any [] = (λ a. absurd a, λ c. c.1)
  find_unver_pids-Any (e ∷ entries) =
      let ih = find_unver_pids-Any entries in
      let step =
        keep_pid-Any e.exe (parse_uint (2 ^ 32 - 1) e.name)
          (find_unver_pids (some entries) path own) in
      (
        λ a. elim (step.0 a) [
          | inl (ne, p, r) ↦ (ne, inl (p, r))
          | inr b ↦ let (ne, c) = ih.0 b in (ne, inr c)
        ],
        λ b. elim (b.1) [
          | inl (p, r) ↦ step.1 (inl (b.0, p, r))
          | inr c ↦ step.1 (inr (ih.1 (b.0, c)))
        ],
      )
