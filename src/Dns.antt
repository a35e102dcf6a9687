-- ===== src/Dns.antt =====
-- The interface `DnsProvider` of backend/src/ddns/providers/mod.rs. A provider's operation works on `W`,
-- what stands behind the HTTP connections, and reads settings.
pub mod Aliyun
pub mod Cloudflare
use unver.Prelude.{ℕ, List, Option, none, some, Text, codes}
use unver.State.{Db}

-- `Result<_, String>`; an `AppError::Internal` with a text is kept as that text.
pub data Answer {ℓ} (A : Type ℓ) : Type ℓ where
  good : A → Answer A
  bad : Text → Answer A

-- An operation that goes over the network.
abbrev pub Call : Type 0 → Type 0 → Type 0
Call W A = W → Answer A × W

module _ {W A B : Type 0} where
  abbrev pub resume : Answer A → (A → Call W B) → Call W B
  resume (good a) f w = f a w
  resume (bad e) f w = (bad e, w)

  infixl 5 ◌>>=◌
  abbrev pub ◌>>=◌ : Call W A → (A → Call W B) → Call W B
  ◌>>=◌ m f w = resume (m w).0 f (m w).1

module _ {W A : Type 0} where
  abbrev pub give : A → Call W A
  give a w = (good a, w)

  abbrev pub refuse : Text → Call W A
  refuse e w = (bad e, w)

  -- The result or the error is dropped.
  abbrev pub ignoring : Call W A → W → W
  ignoring m w = (m w).1

pub record DnsProvider (W : Type 0) : Type 0 where
  -- domain, address and record type
  pub upsert_record : Db → Text → Text → Text → Call W (Unit {0})
  pub delete_domain_records : Db → Text → Call W ℕ
  -- domain and value; the result names the record
  pub create_acme_txt : Db → Text → Text → Call W Text
  pub delete_acme_txt : Db → Text → Text → Call W (Unit {0})
  pub cleanup_acme_txts : Db → Text → Call W ℕ
