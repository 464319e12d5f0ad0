-- ===== src/Indicators/Normalize.antt =====
-- normalize_indicator (fraudshield/core/repository.py). The methods of texts, urlsplit, the IDNA
-- codec and ipaddress are parameters; texts on which urlsplit or the codec raise are left out.
use Prim.Native.Char.{code}
use Prim.Native.String.{len}
use boi.Prelude.{
  ℕ, String, Bool, true, false, ◌&&◌, ◌||◌, not, Option, none, some, [], ◌∷◌, ◌==◌, string_eq,
  nat_eq, contains, if◌then◌else◌, without_char, between, every_code,
}

pub data Error : Type 0 where
  invalid_indicator invalid_domain invalid_url invalid_ip invalid_sha256 : Error
  invalid_package invalid_severity not_found integrity : Error

pub data Result (A : Type 0) : Type 0 where
  ok : A → Result A
  err : Error → Result A

infixl 5 ◌>>=◌
abbrev pub ◌>>=◌ : {A B : Type 0} → Result A → (A → Result B) → Result B
ok a >>= f = f a
err e >>= f = err e

-- `strip`, `lower`, `upper`, `rstrip(".")`, `part in text`, the scheme and the hostname of urlsplit,
-- the IDNA encoding, and `str(ip_address(text))`, none where it raises.
pub record Names : Type 0 where
  pub strip : String → String
  pub lower : String → String
  pub upper : String → String
  pub without_dots : String → String
  pub occurs : String → String → Bool
  pub scheme : String → String
  pub hostname : String → Option String
  pub idna : String → String
  pub ip_address : String → Option String

-- `[0-9a-f]` and `[a-z0-9_]`
abbrev pub is_hex_code : ℕ → Bool
is_hex_code n = between b'0' b'9' n || between b'a' b'f' n

abbrev pub is_word_code : ℕ → Bool
is_word_code n = between b'a' b'z' n || between b'0' b'9' n || n == b'_'

-- `[0-9a-f]{64}` of a whole text.
unfoldable pub is_sha256 : String → Bool
is_sha256 s = len s == 64 && every_code is_hex_code s

-- `[a-z0-9_]+(?:\.[a-z0-9_]+)+` of a whole text, read from the left: `dots` says whether a dot was
-- read, and `inside` whether a character of the part was.
unfoldable pub package_from : Bool → Bool → String → Bool
package_from dots inside String.[] = dots && inside
package_from dots inside (String.◌∷◌ c s) =
    let in_part = package_from dots true s in
    let in_next = package_from true false s in
    if is_word_code (code c) then in_part else if code c == b'.' then inside && in_next else false

unfoldable pub is_package : String → Bool
is_package = package_from false false

abbrev pub host_text : Option String → String
host_text none = ""
host_text (some h) = h

module _ (names : Names) where
  open names use {strip, lower, without_dots, occurs, scheme, hostname, idna, ip_address}

  abbrev pub candidate : String → String
  candidate raw = lower (without_dots (if occurs "://" raw then host_text (hostname raw) else raw))

  unfoldable pub normalize_domain : String → Result String
  normalize_domain raw =
      if candidate raw == "" || not (occurs "." (candidate raw))
      then err invalid_domain
      else ok (idna (candidate raw))

  unfoldable pub normalize_url : String → Result String
  normalize_url raw =
      if not (contains (scheme raw) ("http" ∷ "https" ∷ [])) || host_text (hostname raw) == ""
      then err invalid_url
      else ok raw

  abbrev pub ip_of : Option String → Result String
  ip_of none = err invalid_ip
  ip_of (some ip) = ok ip

  unfoldable pub normalize_sha256 : String → Result String
  normalize_sha256 raw =
      let compact = without_char b':' (lower raw) in
      if is_sha256 compact then ok compact else err invalid_sha256

  unfoldable pub normalize_package : String → Result String
  normalize_package raw = if is_package (lower raw) then ok (lower raw) else err invalid_package

  -- The tests of the kind, in their order.
  unfoldable pub normalize_raw : String → String → Result String
  normalize_raw kind raw =
      if contains kind ("domain" ∷ "hostname" ∷ [])
      then normalize_domain raw
      else if kind == "url"
      then normalize_url raw
      else if kind == "ip"
      then ip_of (ip_address raw)
      else if contains kind ("sha256" ∷ "apk_sha256" ∷ "certificate_sha256" ∷ [])
      then normalize_sha256 raw
      else if contains kind ("package" ∷ "package_name" ∷ [])
      then normalize_package raw
      else ok (lower raw)

  -- `normalize_indicator`
  unfoldable pub normalize_indicator : String → String → Result String
  normalize_indicator indicator_type value =
      if strip value == ""
      then err invalid_indicator
      else normalize_raw (lower (strip indicator_type)) (strip value)
