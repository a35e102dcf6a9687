-- ===== src/Tests/Certificates.antt =====
-- Certificates that are uploaded, downloaded and deleted.
use unver.Prelude.{◌≡◌, refl, true, some, [], ◌∷◌, codes}
use unver.Prelude.Utf8.{from_utf8}
use unver.Prelude.Trim.{trim}
use unver.Prelude.Assoc.{lookup, insert}
use unver.Errors.{ok, err, not_found}
use unver.State.{AppState, get_setting, set_setting}
use unver.Security.{encrypt_data, decrypt_data}
use unver.Certs.{decrypt_key_from_db, load_certs_to_cache}
use unver.Certificates.{
  Env, Upload, encrypt_key_for_db, store, check_upload, upload_trimmed, upload_certificate,
  delete_certificate, download_certificate, update_certificate,
}
use unver.Certificates.Stored.{HasKeyed}
use unver.Certificates.RoundTrip.{uploaded_id, download_certificate-upload_certificate}
use unver.Tests.Data.{app, db, wild_cert}
use unver.Tests.Crypto.{crypto, crypto-IsCorrect, nonce}

runs : Unit {0}
unfolding from_utf8 trim lookup insert get_setting set_setting encrypt_data decrypt_data
    decrypt_key_from_db load_certs_to_cache encrypt_key_for_db store check_upload upload_trimmed
    upload_certificate delete_certificate download_certificate update_certificate
runs = tt

abbrev pub env : Env
env = record {
  crypto = crypto;
  new_id = codes "c9";
  nonce = nonce;
  now = codes "2024-05-01 12:00:00";
  parse_cert_expiry = λ pem. some (codes "2025-05-01T00:00:00+00:00");
  parses = λ c k. true;
}

abbrev started : AppState
started = record app { db = record db { settings = (codes "jwt_secret", codes "s") ∷ [] } }

abbrev upload : Upload
upload = record {
  domain = some (codes " shop.example.com ");
  cert_pem = some (codes "-----BEGIN CERTIFICATE-----");
  key_pem = some (codes "-----BEGIN KEY-----");
}

started-HasKeyed : HasKeyed started
started-HasKeyed = (((refl, tt), (tt, tt)), ((refl, tt), (tt, tt)))

uploaded :
    (upload_certificate env upload started).0
    ≡ ok (record {
      id = codes "c9";
      domain = codes "shop.example.com";
      expires_at = codes "2025-05-01T00:00:00+00:00";
    })
unfolding runs
uploaded = refl

-- The answer names the new id, but the row of the domain keeps its own.
not_found_under_new_id :
    (download_certificate env (codes "c9") (upload_certificate env upload started).1).0
    ≡ err not_found
unfolding runs
not_found_under_new_id = refl

text_of_key :
    from_utf8 (trim (codes "-----BEGIN KEY-----")) ≡ some (trim (codes "-----BEGIN KEY-----"))
unfolding runs
text_of_key = refl

download_certificate-upload_certificate_example :
    (download_certificate env
      (uploaded_id env (trim (codes " shop.example.com ")) started)
      (upload_certificate env upload started).1).0
    ≡ ok (record {
      domain = trim (codes " shop.example.com ");
      cert_pem = trim (codes "-----BEGIN CERTIFICATE-----");
      key_pem = trim (codes "-----BEGIN KEY-----");
    })
download_certificate-upload_certificate_example =
    download_certificate-upload_certificate env crypto-IsCorrect upload started _ refl
      started-HasKeyed text_of_key uploaded

-- After the delete the host is still served with what the cache held.
abbrev served : AppState
served = record started {
  db = record (started.db) { certificates = wild_cert ∷ [] };
  cert_cache =
      (codes "shop.example.com", record { cert_pem = codes "W"; key_pem = codes "k1" }) ∷ [];
}

still_served :
    lookup (codes "shop.example.com") (delete_certificate env (codes "c1") served).1.cert_cache
    ≡ some (record { cert_pem = codes "W"; key_pem = codes "k1" })
unfolding runs
still_served = refl
