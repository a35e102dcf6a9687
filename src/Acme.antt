-- ===== src/Acme.antt =====
-- Issuance over ACME with DNS-01: `get_acme_url`, `issue_certificate_sync`, `issue_certificate_multi` and
-- `check_and_renew_certs` of backend/src/ssl.rs. The ACME server and its client library, the registration
-- at ZeroSSL, key generation and the clock are parameters, and so is the DNS provider, by the
-- interface of the module Dns. Log lines are left out, and the texts of the errors are shortened.
pub mod Issuing
pub mod Validation
pub mod Renewal
use unver.Prelude.{
  ℕ, zero, suc, Bool, true, false, not, ◌&&◌, ◌||◌, Option, none, some, List, [], ◌∷◌, ◌++◌, map,
  Text, codes, text_eq, is_empty, is_some, retain, find_first, unwrap_or, strip_prefix,
  if◌then◌else◌,
}
use unver.Models.{Certificate, ProxyRule}
use unver.Errors.{AppResult, ok, err}
use unver.State.{Db, AppState, get_setting}
use unver.Security.{Crypto, get_secret_setting, set_secret_setting}
use unver.Certs.{load_certs_to_cache}
use unver.Certificates.{has_domain, has_id, decrypt, encrypt_key_for_db, on_certs}
use unver.Dns.{Answer, good, bad, Call, give, refuse, ignoring, DnsProvider, ◌>>=◌}

abbrev or_empty : AppResult Text → Text
or_empty (ok t) = t
or_empty (err e) = []

-- The directory, and the credentials of the external account if both are set.
unfoldable pub get_acme_url : Crypto → Db → Text × Option (Text × Text)
get_acme_url crypto db =
    let provider = get_setting db (codes "acme_provider") in
    let kid = or_empty (get_secret_setting crypto db (codes "zerossl_eab_kid")) in
    let hmac = or_empty (get_secret_setting crypto db (codes "zerossl_eab_hmac")) in
    if text_eq provider (codes "zerossl")
    then (
      codes "https://acme.zerossl.com/v2/DV90",
      if not (is_empty kid) && not (is_empty hmac) then some (kid, hmac) else none,
    )
    else if text_eq (get_setting db (codes "acme_staging")) (codes "true")
    then (codes "https://acme-staging-v02.api.letsencrypt.org/directory", none)
    else (codes "https://acme-v02.api.letsencrypt.org/directory", none)

pub data Status : Type 0 where
  valid invalid pending : Status

-- What the server answers for one authorization: whether it is fetched, whether it has a DNS-01
-- challenge, the value of the TXT record, whether `set_challenge_ready` is taken, and the status at each
-- refresh, `none` where the refresh fails.
pub record Authorization : Type 0 where
  pub fetched : Bool
  pub identifier : Text
  pub has_dns01 : Bool
  pub dns_value : Text
  pub takes_ready : Bool
  pub status : ℕ → Option Status

pub data Verdict : Type 0 where
  passed refused timed_out lost : Verdict

-- The rounds from `i` on, of which `n` are left; the last round that is pending is the timeout.
unfoldable pub poll : (ℕ → Option Status) → ℕ → ℕ → Verdict
poll status zero i = timed_out
poll status (suc n) i =
    let later = poll status n (suc i) in
    elim (status i) [
      | none ↦ lost
      | some valid ↦ passed
      | some invalid ↦ refused
      | some pending ↦ later
    ]

abbrev pub bare : Text → Text
bare identifier = unwrap_or (strip_prefix identifier (codes "*.")) identifier

module _ {W : Type 0} (provider : DnsProvider W) (db : Db) where
  -- The record is deleted under a name; a failure of that is ignored.
  abbrev pub drop_txt : Text → Text → W → W
  drop_txt name rid w = ignoring (provider.delete_acme_txt db name rid) w

  -- After the last poll: `name` is the name that the clean-up of a refusal uses.
  abbrev pub conclude : Verdict → Text → Text → Text → Call W (Unit {0})
  conclude passed txt_domain name rid w = (good tt, drop_txt txt_domain rid w)
  conclude refused txt_domain name rid w = (bad (codes "Challenge invalid"), drop_txt name rid w)
  conclude timed_out txt_domain name rid w = (bad (codes "Validation timeout"), drop_txt name rid w)
  conclude lost txt_domain name rid w = (bad (codes "Refresh"), w)

  -- What follows the creation of the record, which is named by `rid`.
  abbrev pub when_created : Authorization → Text → Text → Call W (Unit {0})
  when_created auth name rid =
      if not auth.takes_ready
      then refuse (codes "set_challenge_ready")
      else conclude (poll auth.status 120 1) name name rid

  -- The worker's loop body.
  unfoldable pub authorize : Authorization → Call W (Unit {0})
  authorize auth =
      let name = bare auth.identifier in
      if not auth.fetched
      then refuse (codes "Auth")
      else if not auth.has_dns01
      then refuse (codes "No Dns01 challenge")
      else (provider.create_acme_txt db name auth.dns_value >>= when_created auth name)

  -- The one of `issue_certificate_multi`, which does not tell the server that the record is there, and
  -- cleans up a refusal under the identifier as it is.
  unfoldable pub authorize_multi : Authorization → Call W (Unit {0})
  authorize_multi auth =
      let name = bare auth.identifier in
      if not auth.fetched
      then refuse (codes "Auth")
      else if not auth.has_dns01
      then refuse (codes "No Dns01 challenge")
      else (provider.create_acme_txt db name auth.dns_value >>= λ rid.
          conclude (poll auth.status 30 1) name auth.identifier rid)

module _ {W : Type 0} (validate : Authorization → Call W (Unit {0})) where
  unfoldable pub each : List Authorization → Call W (Unit {0})
  each [] = give tt
  each (auth ∷ auths) = validate auth >>= λ u. each auths
