-- ===== src/Tests/Diagnosis.antt =====
-- Runs of the handlers that try out the configuration on concrete data.
use unver.Prelude.{
  ◌<◌, ◌≡◌, ◌↔◌, refl, true, false, none, some, [], ◌∷◌, ◌++◌, codes, get_elem?, is_empty, not,
  ◌&&◌,
}
use unver.Prelude.Assoc.{lookup, insert}
use unver.State.{Db, get_setting, set_setting}
use unver.Dns.{good}
use unver.Disk.{operate}
use unver.Errors.{ok}
use unver.Cli.Update.{
  self_update, up_to_date, replace, detect_platform, find_url, copy_node, replace_binary,
  replace_static, install, self_update_programmatic,
}
use unver.Diagnosis.{at_sign, mask_email, Probes, Results, test_certificate_setup, test_cloudflare}
use unver.Diagnosis.Readiness.{
  Continues, is_reached, test_certificate_setup-panics, test_certificate_setup-ready,
}
use unver.Diagnosis.Updating.{
  Check, check_update, check_update-self_update, Leaves, Host, perform_update,
  perform_update-Leaves,
}
use unver.Tests.Data.{db}
use unver.Tests.Cli.{env-IsApart, exe, disk, env, broken}

abbrev probes : Probes
probes = record {
  directory = good 200;
  lookup_host = λ domain. good (codes "192.0.2.1" ∷ []);
  get_challenge = λ domain port. good 404;
}

abbrev with_email : Db
with_email = set_setting (codes "acme_email") (codes "admin@example.com") db

-- The local part of the address is `abé`, in which the third byte begins the `é`.
abbrev accented : Db
accented = set_setting (codes "acme_email") (codes "ab" ++ (0xc3 ∷ 0xa9 ∷ codes "@example.com")) db

masks : mask_email (codes "admin@example.com") ≡ some (some (codes "adm***"))
unfolding mask_email
masks = refl

panics : test_certificate_setup probes accented (codes "80") [] ≡ none
unfolding get_setting set_setting lookup insert test_certificate_setup mask_email
panics = refl

test_certificate_setup-panics_example :
    (test_certificate_setup probes accented (codes "80") [] ≡ none) ↔ (
      (3 < at_sign (get_setting accented (codes "acme_email")))
      × Continues (get_elem? (get_setting accented (codes "acme_email")) 3))
test_certificate_setup-panics_example =
    test_certificate_setup-panics probes accented (codes "80") []

abbrev results : Results
results = record {
  acme_configured = true;
  acme_email = some (codes "adm***");
  domain = codes "example.com";
  letsencrypt_reachable = true;
  dns_resolves = true;
  resolved_ips = codes "192.0.2.1" ∷ [];
  domain_reachable = true;
  warnings = [];
  errors = [];
}

answers_ready :
    test_certificate_setup probes with_email (codes "80") (codes "example.com")
    ≡ some (results, true)
unfolding get_setting set_setting lookup insert test_certificate_setup mask_email
answers_ready = refl

test_certificate_setup-ready_example : true ≡ (
    not (is_empty (get_setting with_email (codes "acme_email")))
    && is_reached probes (codes "80") (codes "example.com"))
test_certificate_setup-ready_example =
    test_certificate_setup-ready probes with_email (codes "80") (codes "example.com") results true
      answers_ready

abbrev bare : Host
bare = record { dockerenv = false; cgroup = some (codes "0::/init.scope") }

perform_update-Leaves_example :
    Leaves env exe
      (refl, refl, refl, refl)
      env-IsApart
      refl
      broken
      (perform_update env bare broken).1
perform_update-Leaves_example =
    perform_update-Leaves env exe (refl, refl, refl, refl) env-IsApart refl bare broken

restarts : (perform_update env bare (disk [])).1.0 ≡ true
unfolding perform_update self_update_programmatic install replace replace_binary replace_static
    copy_node operate find_url detect_platform
restarts = refl

-- The zone that the test of Cloudflare gives is empty, so that none is ever marked as accessible.
tests_no_zone :
    test_cloudflare
      (good (record { success = some true; first_error = none; zone_name = none }))
      (λ zone. good (record { success = some true; first_error = none; zone_name = none }))
      []
    ≡ record { token_valid = true; zone_accessible = false; error = none; zone_name = none }
unfolding test_cloudflare
tests_no_zone = refl

abbrev offered : Check
offered = record {
  has_update = true;
  current = codes "1.0.0";
  latest = codes "1.1.0";
  html_url = codes "https://github.com/akapzg/Unver/releases";
  docker = false;
}

offers_update : check_update env none bare ≡ ok offered
unfolding check_update
offers_update = refl

check_update-self_update_example :
    (offered.has_update ≡ false) ↔ ((self_update env broken).0 ≡ ok up_to_date)
check_update-self_update_example =
    check_update-self_update env none bare broken offered offers_update
