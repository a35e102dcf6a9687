-- ===== src/Settings.antt =====
-- The DNS token in the settings: how `get_settings` of backend/src/api/settings.rs shows it, and what
-- `update_settings` does with the one that it is sent. A token is ASCII: on other text the slices of
-- the source can panic.
pub mod Token
pub mod Page
pub mod Frame
pub mod Turns
pub mod Saved
use unver.Prelude.{
  ℕ, ◌-◌, Bool, true, false, not, ◌&&◌, List, ◌++◌, Text, codes, length, take, drop, ltb, leb,
  starts_with, contains, is_empty, if◌then◌else◌,
}
use unver.Errors.{AppResult, ok, err}
use unver.State.{Db}
use unver.Security.{Crypto, get_secret_setting, set_secret_setting}
use unver.Action.{Action}

abbrev pub ends_with : Text → Text → Bool
ends_with s t = leb (length t) (length s) && starts_with (drop (length s - length t) s) t

abbrev pub stars : Text
stars = codes "****"

-- What `get_settings` shows.
unfoldable pub mask_token : Text → Text
mask_token token =
    if ltb 8 (length token)
    then take 4 token ++ (stars ++ drop (length token - 4) token)
    else if not (is_empty token)
    then stars
    else codes ""

-- `is_masked` of `update_settings`, against the stored token.
unfoldable pub is_masked : Text → Text → Bool
is_masked current token =
    ltb 8 (length token)
    && contains token stars
    && not (is_empty current)
    && (leb 4 (length current) && starts_with token (take 4 current))
    && (leb 4 (length current) && ends_with token (drop (length current - 4) current))

abbrev pub or_default : AppResult Text → Text
or_default (ok t) = t
or_default (err e) = codes ""

module _ (crypto : Crypto) where
  abbrev pub cf_token : Db → Text
  cf_token db = or_default (get_secret_setting crypto db (codes "ddns_cf_token"))

  unfoldable pub update_token : List ℕ → Text → Action Db (Unit {0})
  update_token nonce token db =
      if not (is_masked (cf_token db) token) && not (is_empty token)
      then set_secret_setting crypto nonce (codes "ddns_cf_token") token db
      else (ok tt, db)
