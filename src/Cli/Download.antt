-- ===== src/Cli/Download.antt =====
-- Which archive an update of backend/src/cli.rs downloads.
use unver.Prelude.{
  sym, List, Any, Option-cases, text_eq_iff, ◌≡◌, refl, ◌∙◌, ap, inl, inr, Option, none, some, [],
  ◌∷◌, Text, text_eq, Bool-cases,
}
use unver.Errors.{ok}
use unver.Cli.Update.{
  from_url, from_assets, Release, Asset, asset_name, url_if_named, find_url, Env, download,
}

-- The URL of an asset of the release that has the name of this platform's archive.
abbrev pub IsOffered : Env → Release → Text → Type 0
IsOffered env release url =
    (assets : List Asset) × (release.assets ≡ some assets)
    × Any (λ a. (a.name ≡ some (asset_name env)) × (a.browser_download_url ≡ some url)) assets

-- The bytes that this release's archive for the platform was downloaded as.
abbrev pub IsDownloaded : Env → Text → Type 0
IsDownloaded env bytes =
    (release : Release) × (url : Text) × (env.get_release ≡ ok release)
    × IsOffered env release url
    × (env.get_bytes url ≡ ok bytes)

url_if_named-some :
    (name url : Text) (a : Asset)
    → url_if_named name a ≡ some url
    → (a.name ≡ some name) × (a.browser_download_url ≡ some url)
url_if_named-some name url a h = elim (Option-cases a.name) [
  | inl e ↦ absurd (cc (rw e at h))
  | inr (n, e) ↦ elim (Bool-cases (text_eq n name)) [
    | inl y ↦ let same : n ≡ name = (text_eq_iff n name).0 y in (e ∙ ap some same, rw (e, y) at h)
    | inr y ↦ absurd (cc (rw (e, y) at h))
  ]
]

find_url-named :
    (name url : Text) (assets : List Asset)
    → find_url name assets ≡ some url
    → Any (λ a. (a.name ≡ some name) × (a.browser_download_url ≡ some url)) assets
unfolding find_url
find_url-named name url [] h = absurd (cc)
find_url-named name url (a ∷ assets) h =
    let ih = find_url-named name url assets in
    elim (Option-cases (url_if_named name a)) [
      | inl e ↦ inr (ih (rw (find_url, e) at h))
      | inr (u, e) ↦ inl (url_if_named-some name url a (e ∙ rw (find_url, e) at h))
    ]

from_url-ok :
    (env : Env) (o : Option Text) (bytes : Text)
    → from_url env o ≡ ok bytes
    → (url : Text) × (o ≡ some url) × (env.get_bytes url ≡ ok bytes)
from_url-ok env none bytes h = absurd (cc)
from_url-ok env (some url) bytes h = (url, refl, h)

pub download-IsDownloaded :
    (env : Env) (release : Release) (bytes : Text)
    → env.get_release ≡ ok release
    → download env release ≡ ok bytes
    → IsDownloaded env bytes
download-IsDownloaded env release bytes r h = elim (Option-cases release.assets) [
  | inl e ↦ absurd (cc (ap (from_assets env) e))
  | inr (assets, e) ↦
      let (url, f, got) =
        from_url-ok env (find_url (asset_name env) assets) bytes
          (sym (ap (from_assets env) e) ∙ h) in
      (release, url, r, (assets, e, find_url-named (asset_name env) url assets f), got)
]
