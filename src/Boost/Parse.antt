-- ===== src/Boost/Parse.antt =====
-- `parseUrl` of HttpBase.cpp on a URL made of its parts.
use hzrobot.Prelude.{
  ℕ, suc, ◌+◌, Bool, true, false, Option, some, none, [], ◌∷◌, ◌++◌, append-nil, Bytes, codes,
  length, take-append, drop-append, ◌≡◌, refl, ap, ap₂, arith,
}
use mathlib.Core.Option
use hzrobot.Text.Search.Chars.{Lacks, leb_zero, find-at, find-none, drop-at}
use hzrobot.Text.Search.{starts_with, find_first, find}
use hzrobot.Boost.{strip_scheme, split_path, split_port, is_at_start, parse_url}

not_at_start : (o : Option ℕ) → is_at_start (Option.map (◌+◌ 0) (Option.map suc o)) ≡ false
not_at_start none = refl
not_at_start (some k) =
    let same : 0 + suc k ≡ suc k = omega arith in ap (λ n. is_at_start (some n)) same

-- A URL: whether it begins with https, the server, a port or none, and a path behind its '/' or
-- none.
pub record Parts : Type 0 where
  pub secure : Bool
  pub server : Bytes
  pub port : Option Bytes
  pub path : Option Bytes

abbrev pub scheme_text : Bool → Bytes
scheme_text true = codes "https://"
scheme_text false = codes "http://"

abbrev pub port_text : Option Bytes → Bytes
port_text none = []
port_text (some port) = b':' ∷ port

abbrev pub path_text : Option Bytes → Bytes
path_text none = []
path_text (some path) = b'/' ∷ path

abbrev pub url_text : Parts → Bytes
url_text parts =
    scheme_text parts.secure ++ ((parts.server ++ port_text parts.port) ++ path_text parts.path)

abbrev pub or_default : Bytes → Option Bytes → Bytes
or_default default none = default
or_default default (some given) = given

abbrev pub LacksIn : ℕ → Option Bytes → Type 0
LacksIn c none = Unit
LacksIn c (some text) = Lacks c text

strip_scheme-text :
    (secure : Bool) (rest : Bytes) → strip_scheme (scheme_text secure ++ rest) ≡ some rest
unfolding strip_scheme find find_first starts_with
strip_scheme-text false rest = rw (leb_zero (length (codes "http://" ++ rest))) refl
strip_scheme-text true rest =
    rw (leb_zero (length (codes "https://" ++ rest)))
      (rw (not_at_start (find_first (codes "http://") (codes "ttps://" ++ rest))) refl)

split_path-text :
    (authority : Bytes) (path : Option Bytes)
    → Lacks b'/' authority
    → split_path (authority ++ path_text path)
      ≡ (authority, or_default (codes "/") (Option.map (◌∷◌ b'/') path))
unfolding split_path
split_path-text authority none h =
    rw (append-nil authority) (rw (find-none b'/' authority h, split_path) refl)
split_path-text authority (some path) h =
    rw (find-at b'/' authority path h, split_path)
      (ap₂ (λ x y. (x, y)) (take-append authority (b'/' ∷ path))
        (drop-append authority (b'/' ∷ path)))

split_port-text :
    (server : Bytes) (port : Option Bytes)
    → Lacks b':' server
    → split_port (server ++ port_text port) ≡ (server, or_default (codes "80") port)
unfolding split_port
split_port-text server none h =
    rw (append-nil server) (rw (find-none b':' server h, split_port) refl)
split_port-text server (some port) h =
    rw (find-at b':' server port h, split_port)
      (ap₂ (λ x y. (x, y)) (take-append server (b':' ∷ port)) (drop-at server port b':'))

Lacks-append : (c : ℕ) (xs ys : Bytes) → Lacks c xs → Lacks c ys → Lacks c (xs ++ ys)
Lacks-append c [] ys h k = k
Lacks-append c (x ∷ xs) ys h k = (h.0, Lacks-append c xs ys h.1 k)

Lacks-port : (port : Option Bytes) → LacksIn b'/' port → Lacks b'/' (port_text port)
Lacks-port none h = tt
Lacks-port (some port) h = (omega arith, h)

-- A URL whose server has no ':' and no '/', and whose port has no '/', is read as its parts, with
-- port 80 where it has none and the path "/" where it has none.
pub parse_url-text :
    (parts : Parts)
    → Lacks b':' parts.server
    → Lacks b'/' parts.server
    → LacksIn b'/' parts.port
    → parse_url (url_text parts)
      ≡ some (record {
        server = parts.server;
        port = or_default (codes "80") parts.port;
        path = or_default (codes "/") (Option.map (◌∷◌ b'/') parts.path);
      })
unfolding parse_url
parse_url-text parts colon slash port =
    let authority = parts.server ++ port_text parts.port in
    let plain =
      Lacks-append b'/' parts.server (port_text parts.port) slash (Lacks-port parts.port port) in
    rw (strip_scheme-text parts.secure (authority ++ path_text parts.path)) (
      rw (split_path-text authority parts.path plain)
        (rw (split_port-text parts.server parts.port colon) refl))
