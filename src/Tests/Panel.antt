-- ===== src/Tests/Panel.antt =====
-- Runs of the panel's listener and file service on concrete data.
use unver.Prelude.{◌≡◌, refl, text_eq, if◌then◌else◌, true, none, some, [], ◌∷◌, ◌++◌, Text, codes}
use unver.Prelude.Trim.{trim, trim_start, trim_end}
use unver.Prelude.Assoc.{lookup, insert}
use unver.State.{Db, get_setting, set_setting}
use unver.Disk.{file, dir, Files, IsClosed}
use unver.Panel.{spa_service, bind_addr, detect_lan_ip, lan_ip_in}
use unver.Panel.Lan.{bind_addr-lan_only}
use unver.Panel.Open.{request_of, climb, spa_service-climb}
use unver.Tests.Data.{db}

-- `/app` is the directory of the panel, and `/key` a file beside it.
abbrev files : Files
files [] = some dir
files (n ∷ []) =
    if text_eq n (codes "app")
    then some dir
    else if text_eq n (codes "key")
    then some (file (codes "secret") 0o600)
    else none
files (n ∷ m ∷ x) = none

closed : IsClosed files
closed [] n q e h = refl
closed (m ∷ []) n q e h = cc
closed (m ∷ k ∷ p) n q e h = cc

climbs :
    request_of (climb files closed (λ p. true) (codes "app" ∷ []) (codes "key" ∷ []))
    ≡ codes "/../key"
climbs = refl

spa_service-climb_example :
    ((spa_service files (λ p. true) (codes "app" ∷ []) (codes "/../key")).status ≡ 200)
    × ((spa_service files (λ p. true) (codes "app" ∷ []) (codes "/../key")).body ≡ codes "secret")
spa_service-climb_example =
    spa_service-climb files closed (λ p. true) (codes "app" ∷ []) (codes "key") [] (codes "secret")
      0o600 refl ((refl, refl, refl, (refl, (refl, (refl, tt)))), tt) refl refl

abbrev lan_only : Db
lan_only =
    set_setting (codes "panel_lan_only") (codes "true")
      (set_setting (codes "web_interface") (codes "0.0.0.0") db)

abbrev output : Text
output =
    codes "2: eth0    inet 192.168.1.5/24 brd 192.168.1.255 scope global eth0"
    ++ (10 ∷ codes "3: eth1    inet 10.0.0.5/24 brd 10.0.0.255 scope global eth1" ++ (10 ∷ []))

is_lan_only : text_eq (get_setting lan_only (codes "panel_lan_only")) (codes "true") ≡ true
unfolding get_setting set_setting lookup insert
is_lan_only = refl

bind_addr-lan_only_example :
    bind_addr lan_only (some output) ≡ get_setting lan_only (codes "web_interface")
bind_addr-lan_only_example = bind_addr-lan_only lan_only output is_lan_only (refl, (refl, tt))

-- Without the word "global", the address that is found is the one for broadcasts.
finds_broadcast :
    detect_lan_ip (some (codes "2: eth0    inet 192.168.1.5/24 brd 192.168.1.255 scope link eth0"))
    ≡ some (codes "192.168.1.255")
unfolding detect_lan_ip lan_ip_in trim trim_start trim_end
finds_broadcast = refl
