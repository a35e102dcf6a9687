-- ===== src/Ddns/Switches.antt =====
-- `ddns_status` and `ddns_toggle` of backend/src/api/settings.rs.
use unver.Prelude.{
  Bool, not, Option, none, some, List, [], ◌∷◌, ◌++◌, map, Text, codes, text_eq, is_empty, any,
  split_on, retain, if◌then◌else◌,
}
use unver.Prelude.Trim.{trim}
use unver.Prelude.Join.{join_with}
use unver.State.{Db, get_setting, set_setting}
use unver.Ddns.{trimmed_lines}

-- `ddns_disabled`: the names between commas.
abbrev pub disabled_list : Db → List Text
disabled_list db =
    retain (λ d. not (is_empty d))
      (map trim (split_on b',' (get_setting db (codes "ddns_disabled"))))

abbrev pub is_disabled : Db → Text → Bool
is_disabled db domain = any (λ d. text_eq d domain) (disabled_list db)

pub record DdnsDomainStatus : Type 0 where
  pub domain : Text
  pub ipv4 : Text
  pub ipv6 : Option Text
  pub enabled : Bool

abbrev status_of : Db → Text → DdnsDomainStatus
status_of db domain =
    let ipv6 = get_setting db (codes "ddns_ipv6_" ++ domain) in
    record {
      domain = domain;
      ipv4 = get_setting db (codes "ddns_ipv4_" ++ domain);
      ipv6 = if is_empty ipv6 then none else some ipv6;
      enabled = not (is_disabled db domain);
    }

unfoldable pub ddns_status : Db → List DdnsDomainStatus
ddns_status db =
    map (status_of db)
      (retain (λ d. not (is_empty d)) (trimmed_lines (get_setting db (codes "ddns_domains"))))

abbrev pub toggled : Bool → Text → List Text → List Text
toggled enabled domain disabled =
    if enabled
    then retain (λ d. not (text_eq d domain)) disabled
    else if any (λ d. text_eq d domain) disabled
    then disabled
    else disabled ++ domain ∷ []

unfoldable pub ddns_toggle : Text → Bool → Db → Db
ddns_toggle domain enabled db =
    set_setting (codes "ddns_disabled") (join_with b',' (toggled enabled domain (disabled_list db)))
      db
