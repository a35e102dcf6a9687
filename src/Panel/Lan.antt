-- ===== src/Panel/Lan.antt =====
-- The address of the panel that is for the LAN only, of backend/src/api/mod.rs.
use unver.Prelude.{
  ◌≡◌, refl, true, false, none, some, List, [], ◌∷◌, Text, codes, text_eq, contains, starts_with,
  All, arith,
}
use unver.Prelude.Join.{text_lines}
use unver.State.{Db, get_setting}
use unver.Panel.{takes_line, lan_ip_in, detect_lan_ip, bind_addr}

starts_with-global :
    (line : Text) → starts_with line (codes "global") ≡ true → contains line (codes "lo") ≡ true
starts_with-global [] h = cc
starts_with-global (a ∷ []) h = ground arith
starts_with-global (a ∷ b ∷ []) h = ground arith
starts_with-global (a ∷ b ∷ c ∷ line) h = ground arith

-- A line that says "global" says "lo".
contains-global :
    (line : Text) → contains line (codes "global") ≡ true → contains line (codes "lo") ≡ true
contains-global [] h = cc
contains-global (x ∷ line) h = ground (arith, starts_with-global (x ∷ line), contains-global line)

no_line : (line : Text) → contains line (codes "lo") ≡ true → takes_line line ≡ false
no_line line l = ground arith

lan_ip_in_global :
    (lines : List Text)
    → All (λ line. contains line (codes "global") ≡ true) lines
    → lan_ip_in lines ≡ none
unfolding lan_ip_in
lan_ip_in_global [] h = refl
lan_ip_in_global (line ∷ lines) (g, h) =
    rw (lan_ip_in, no_line line (contains-global line g)) (lan_ip_in_global lines h)

-- Where every line of the output says "global", as `ip` prints for `scope global`, no address is found,
-- and the panel that is for the LAN only listens where it is set to listen, whatever that is.
pub bind_addr-lan_only :
    (db : Db) (output : Text)
    → text_eq (get_setting db (codes "panel_lan_only")) (codes "true") ≡ true
    → All (λ line. contains line (codes "global") ≡ true) (text_lines output)
    → bind_addr db (some output) ≡ get_setting db (codes "web_interface")
unfolding bind_addr detect_lan_ip
bind_addr-lan_only db output lan h = rw (lan, lan_ip_in_global (text_lines output) h) refl
