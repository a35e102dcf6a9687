-- ===== src/Acme/Validation.antt =====
-- The DNS-01 validation of `issue_certificate_sync` of backend/src/ssl.rs: what it leaves at the DNS
-- provider, and when it passes.
use unver.Prelude.{
  ℕ, zero, suc, ◌+◌, ◌≤◌, ◌<◌, inl, inr, true, ◌≡◌, ◌≢◌, refl, ap, ◌∙◌, List, [], ◌∷◌, Option, none,
  some, arith, Text, All, is_some, Bool-cases,
}
use unver.State.{Db}
use unver.Dns.{Answer, good, bad, resume, DnsProvider}
use unver.Acme.{
  Authorization, Status, valid, invalid, pending, Verdict, passed, refused, timed_out, lost, poll,
  bare, conclude, when_created, authorize, each,
}

-- Deleting a record that was just created leaves what was there before, and a creation that fails
-- creates nothing.
pub record Restores {W : Type 0} (provider : DnsProvider W) : Type 0 where
  pub undone :
      (db : Db) (name value rid : Text) (w v : W)
      → provider.create_acme_txt db name value w ≡ (good rid, v)
      → (provider.delete_acme_txt db name rid v).1 ≡ w
  pub not_done :
      (db : Db) (name value e : Text) (w v : W)
      → provider.create_acme_txt db name value w ≡ (bad e, v)
      → v ≡ w

-- The server takes the message that the record is there, and answers every refresh.
abbrev pub StaysConnected : Authorization → Type 0
StaysConnected auth = (auth.takes_ready ≡ true) × ((i : ℕ) → is_some (auth.status i) ≡ true)

poll-connected :
    (status : ℕ → Option Status) (n i : ℕ)
    → ((i : ℕ) → is_some (status i) ≡ true)
    → poll status n i ≢ lost
unfolding poll
poll-connected status zero i h = λ e. cc
poll-connected status (suc n) i h =
    let later = poll-connected status n (suc i) h in go (status i) refl later
  where
    go :
        (o : Option Status)
        → status i ≡ o
        → poll status n (suc i) ≢ lost
        → poll status (suc n) i ≢ lost
    go none e later = absurd (cc (h i, ap (λ o. is_some o) e))
    go (some valid) e later = rw (poll, e) (λ k. cc)
    go (some invalid) e later = rw (poll, e) (λ k. cc)
    go (some pending) e later = rw (poll, e) later

module _ {W : Type 0} (provider : DnsProvider W) (restores : Restores provider) (db : Db) where
  conclude-restores :
      (v : Verdict) (name value rid : Text) (w u : W)
      → v ≢ lost
      → provider.create_acme_txt db name value w ≡ (good rid, u)
      → (conclude provider db v name name rid u).1 ≡ w
  conclude-restores passed name value rid w u n h = restores.undone db name value rid w u h
  conclude-restores refused name value rid w u n h = restores.undone db name value rid w u h
  conclude-restores timed_out name value rid w u n h = restores.undone db name value rid w u h
  conclude-restores lost name value rid w u n h = absurd (n refl)

  created-restores :
      (auth : Authorization) (name : Text) (w : W) (a : Answer Text) (u : W)
      → StaysConnected auth
      → provider.create_acme_txt db name auth.dns_value w ≡ (a, u)
      → (resume a (when_created provider db auth name) u).1 ≡ w
  created-restores auth name w (bad x) u c h = restores.not_done db name auth.dns_value x w u h
  created-restores auth name w (good rid) u (r, s) h =
      rw (when_created, r)
        (conclude-restores (poll auth.status 120 1) name auth.dns_value rid w u
          (poll-connected auth.status 120 1 s) h)

  authorize-restores :
      (auth : Authorization) (w : W) → StaysConnected auth → (authorize provider db auth w).1 ≡ w
  unfolding authorize
  authorize-restores auth w c = elim (Bool-cases auth.fetched) [
    | inr e ↦ rw e refl
    | inl e ↦ elim (Bool-cases auth.has_dns01) [
      | inr f ↦ rw (e, f) refl
      | inl f ↦
          let txt = provider.create_acme_txt db (bare auth.identifier) auth.dns_value w in
          rw (e, f) (created-restores auth (bare auth.identifier) w txt.0 txt.1 c refl)
    ]
  ]

  each-restores :
      (auths : List Authorization) (w : W)
      → All StaysConnected auths
      → (each (authorize provider db) auths w).1 ≡ w
  unfolding each
  each-restores [] w c = refl
  each-restores (auth ∷ auths) w (c, cs) =
      go (authorize provider db auth w).0 (authorize provider db auth w).1
        (authorize-restores auth w c) (λ u. each-restores auths u cs)
    where
      go :
          (a : Answer (Unit {0})) (u : W)
          → u ≡ w
          → ((u : W) → (each (authorize provider db) auths u).1 ≡ u)
          → (resume a (λ x. each (authorize provider db) auths) u).1 ≡ w
      go (good x) u e later = later u ∙ e
      go (bad x) u e later = e

-- Where the server answers every request and the provider's deletions undo its creations, the validation
-- of an order leaves the DNS provider as it was: no TXT record stays, whether every authorization passes,
-- one is refused, or one runs into the timeout.
pub each-authorize :
    {W : Type 0} (provider : DnsProvider W) (db : Db) (auths : List Authorization) (w : W)
    → Restores provider
    → All StaysConnected auths
    → (each (authorize provider db) auths w).1 ≡ w
each-authorize provider db auths w r c = each-restores provider r db auths w c

same : (i : ℕ) → i ≡ i + 0
same i = omega arith

shifted : (i k : ℕ) → suc i + k ≡ i + suc k
shifted i k = omega arith

poll-passed :
    (status : ℕ → Option Status) (n i k : ℕ)
    → ((j : ℕ) → i ≤ j → j < i + k → status j ≡ some pending)
    → status (i + k) ≡ some valid
    → k < n
    → poll status n i ≡ passed
unfolding poll
poll-passed status zero i k p v h = absurd (omega arith)
poll-passed status (suc n) i zero p v h =
    let now : status i ≡ some valid = ap status (same i) ∙ v in rw (poll, now) refl
poll-passed status (suc n) i (suc k) p v h =
    rw (poll, p i (omega arith) (omega arith))
      (poll-passed status n (suc i) k (λ j a b. p j (omega arith) (omega arith))
        (ap status (shifted i k) ∙ v) (omega arith))

-- An authorization that the server reports as valid at one of the 120 refreshes, and as pending before
-- it, passes, if the record is created and the server takes the message that it is there.
pub authorize-passes :
    {W : Type 0} (provider : DnsProvider W) (db : Db) (auth : Authorization) (w u : W) (rid : Text)
    (k : ℕ)
    → auth.fetched ≡ true
    → auth.has_dns01 ≡ true
    → auth.takes_ready ≡ true
    → provider.create_acme_txt db (bare auth.identifier) auth.dns_value w ≡ (good rid, u)
    → ((j : ℕ) → 1 ≤ j → j < 1 + k → auth.status j ≡ some pending)
    → auth.status (1 + k) ≡ some valid
    → k < 120
    → (authorize provider db auth w).0 ≡ good tt
unfolding authorize
authorize-passes provider db auth w u rid k f d r c p v h =
    rw (f, d, c, r, poll-passed auth.status 120 1 k p v h) refl
