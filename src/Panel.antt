-- ===== src/Panel.antt =====
-- The web interface's listener and files: `serve` and `detect_lan_ip` of backend/src/api/mod.rs. The
-- output of the `ip` command is an argument, ASCII, and `none` where the command cannot be started. The
-- router with its layers is left out.
pub mod Lan
pub mod Open
use unver.Prelude.{
  ℕ, Bool, true, false, not, ◌&&◌, ◌||◌, ◌==◌, Option, none, some, List, [], ◌∷◌, ◌++◌, Text, codes,
  text_eq, is_empty, is_digit, all, contains, contains_char, starts_with, find_first, retain,
  split_on, push_front, unwrap_or, leb, if◌then◌else◌,
}
use unver.Prelude.Join.{text_lines}
use unver.Prelude.Trim.{trim, split_whitespace}
use unver.State.{Db, get_setting}
use unver.Disk.{FilePath, Entry, file, dir, Files}
use unver.Cli.Update.{parent_of}

abbrev is_dotted : Text → Bool
is_dotted w = contains_char w b'.' && all (λ c. is_digit c || c == b'.') w

abbrev pub takes_line : Text → Bool
takes_line line =
    contains line (codes "inet ")
    && not (contains line (codes "docker"))
    && not (contains line (codes "lo"))

abbrev usable : Option Text → Option Text
usable none = none
usable (some ip) = if not (starts_with (trim ip) (codes "127.")) then some (trim ip) else none

abbrev pub ip_of_line : Text → Option Text
ip_of_line line =
    if takes_line line then usable (find_first is_dotted (split_whitespace line)) else none

unfoldable pub lan_ip_in : List Text → Option Text
lan_ip_in [] = none
lan_ip_in (line ∷ lines) =
    let rest = lan_ip_in lines in elim (ip_of_line line) [ some ip ↦ some ip | none ↦ rest ]

unfoldable pub detect_lan_ip : Option Text → Option Text
detect_lan_ip none = none
detect_lan_ip (some output) = lan_ip_in (text_lines output)

-- The address that `serve` listens on.
unfoldable pub bind_addr : Db → Option Text → Text
bind_addr db output =
    let iface = get_setting db (codes "web_interface") in
    if text_eq (get_setting db (codes "panel_lan_only")) (codes "true")
    then unwrap_or (detect_lan_ip output) iface
    else if is_empty iface || text_eq iface (codes "0.0.0.0")
    then codes "0.0.0.0"
    else iface

abbrev pub trim_slashes : Text → Text
trim_slashes [] = []
trim_slashes (x ∷ s) = let rest = trim_slashes s in if x == b'/' then rest else x ∷ s

-- One name of a path, as the system follows it from a directory.
abbrev pub stepped : FilePath → Text → FilePath
stepped p n =
    if is_empty n || text_eq n (codes ".")
    then p
    else if text_eq n (codes "..")
    then parent_of p
    else p ++ n ∷ []

abbrev is_dir : Option Entry → Bool
is_dir none = false
is_dir (some (file b m)) = false
is_dir (some dir) = true

-- Where a relative path leads from a directory; each name but the last is one of a directory.
unfoldable pub walk : Files → FilePath → List Text → Option FilePath
walk files p [] = some p
walk files p (n ∷ ns) =
    let rest = walk files (stepped p n) ns in if is_dir (files p) then rest else none

-- `Path::file_name` of a relative path.
abbrev last_name : List Text → Option Text
last_name [] = none
last_name (n ∷ ns) =
    let rest = last_name ns in
    elim rest [
      | some m ↦ some m
      | none ↦ if is_empty n || text_eq n (codes ".") then none else some n
    ]

abbrev pub file_name : List Text → Option Text
file_name ns = elim (last_name ns) [
  | none ↦ none
  | some n ↦ if text_eq n (codes "..") then none else some n
]

-- What stands behind the last dot, if there is a dot that does not come first.
abbrev after_dot : Text → Option Text
after_dot [] = none
after_dot (x ∷ s) =
    let rest = after_dot s in
    elim rest [ some e ↦ some e | none ↦ if x == b'.' then some s else none ]

abbrev extension : Option Text → Option Text
extension none = none
extension (some []) = none
extension (some (x ∷ s)) = after_dot s

abbrev pub content_type : Option Text → Text
content_type none = codes "application/octet-stream"
content_type (some e) =
    if text_eq e (codes "html")
    then codes "text/html"
    else if text_eq e (codes "css")
    then codes "text/css"
    else if text_eq e (codes "js")
    then codes "application/javascript"
    else if text_eq e (codes "json")
    then codes "application/json"
    else if text_eq e (codes "png")
    then codes "image/png"
    else if text_eq e (codes "svg")
    then codes "image/svg+xml"
    else if text_eq e (codes "ico")
    then codes "image/x-icon"
    else codes "application/octet-stream"

abbrev is_index : Option Text → Bool
is_index none = false
is_index (some n) = text_eq n (codes "index.html")

abbrev pub cache_control : Option Text → Text
cache_control name =
    if is_index name then codes "no-cache" else codes "public, max-age=31536000, immutable"

pub record Response : Type 0 where
  pub status : ℕ
  pub content_type : Text
  pub cache_control : Option Text
  pub body : Text

abbrev failure : Text → Response
failure message = record {
  status = 500;
  content_type = codes "text/plain; charset=utf-8";
  cache_control = none;
  body = message;
}

-- The file that a path leads to, `none` where it leads to no file.
abbrev file_at : Files → Option FilePath → Option (FilePath × Text)
file_at files none = none
file_at files (some p) = elim (files p) [
  | none ↦ none
  | some e ↦ elim e [ file b m ↦ some (p, b) | dir ↦ none ]
]

-- The names of the path below the directory.
unfoldable pub requested : Text → List Text
requested path =
    split_on b'/' (if is_empty (trim_slashes path) then codes "index.html" else trim_slashes path)

module _ (files : Files) (can_read : FilePath → Bool) (static_dir : FilePath) where
  abbrev served : List Text → FilePath → Text → Response
  served names p bytes =
      if can_read p
      then record {
        status = 200;
        content_type = content_type (extension (file_name names));
        cache_control = some (cache_control (file_name names));
        body = bytes;
      }
      else failure (codes "read error")

  -- `read_to_string` of an index that is UTF-8.
  abbrev index : Option (FilePath × Text) → Response
  index none = failure (codes "index.html not found")
  index (some (p, bytes)) =
      if can_read p
      then record {
        status = 200;
        content_type = codes "text/html; charset=utf-8";
        cache_control = none;
        body = bytes;
      }
      else failure (codes "index.html not found")

  unfoldable pub spa_service : Text → Response
  spa_service path = elim (file_at files (walk files static_dir (requested path))) [
    | some (p, bytes) ↦ served (requested path) p bytes
    | none ↦ index (file_at files (walk files static_dir (codes "index.html" ∷ [])))
  ]
