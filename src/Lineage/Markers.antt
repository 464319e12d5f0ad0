-- ===== src/Lineage/Markers.antt =====
-- Synthetic markers and their manager (fraudshield/deceptiscope/lineage/markers.py). The encodings
-- of a text and the search for a part of it are the library's and parameters.
use Prim.Native.String.{len, ◌++◌ as cat}
use boi.Prelude.{
  ℕ, ◌+◌, String, Bool, ◌&&◌, Option, none, some, List, [], ◌∷◌, ◌==◌, string_eq, nat_eq, leb,
  if◌then◌else◌,
}

pub data MarkerType : Type 0 where
  otp username password account_number card_reference : MarkerType

-- The members' values.
abbrev pub type_value : MarkerType → String
type_value otp = "OTP"
type_value username = "USERNAME"
type_value password = "PASSWORD"
type_value account_number = "ACCOUNT_NUMBER"
type_value card_reference = "CARD_REFERENCE"

-- A `SyntheticMarker`, whose id "Mnnn" is its number; `purpose` is its one metadatum.
pub record Marker : Type 0 where
  pub marker_id : ℕ
  pub marker_type : MarkerType
  pub value : String
  pub created_at_ms : ℕ
  pub purpose : String

-- Base64 and hexadecimal of the UTF-8 bytes, `quote_plus`, `rstrip("=")`, `upper`, `lower`, and
-- `part in text`.
pub record Encoding : Type 0 where
  pub base64 : String → String
  pub hex : String → String
  pub quote_plus : String → String
  pub without_padding : String → String
  pub upper : String → String
  pub lower : String → String
  pub occurs : String → String → Bool

module _ (enc : Encoding) where
  open enc use {base64, hex, quote_plus, without_padding, upper, occurs}

  -- `get_transformations`, in the order of the dict.
  unfoldable pub get_transformations : Marker → List (String × String)
  get_transformations marker =
      ("raw", marker.value)
      ∷ ("utf8", marker.value)
      ∷ ("base64", base64 marker.value)
      ∷ ("base64_url", without_padding (base64 marker.value))
      ∷ ("hex", hex marker.value)
      ∷ ("hex_upper", upper (hex marker.value))
      ∷ ("url_encoded", quote_plus marker.value)
      ∷ []

  -- The loop over the transformations: the name of the first that the text has.
  unfoldable pub first_transform : String → List (String × String) → Option String
  first_transform text [] = none
  first_transform text ((name, value) ∷ rest) =
      let later = first_transform text rest in if occurs value text then some name else later

  -- `matches_payload`: `some name` stands for the pair of True and the name.
  unfoldable pub matches_payload : Marker → String → Option String
  matches_payload marker text =
      if text == "" then none else first_transform text (get_transformations marker)

-- A `SyntheticMarkerManager`; its dict in the order of its keys.
pub record Manager : Type 0 where
  pub markers : List Marker
  pub counter : ℕ

abbrev pub new_manager : Manager
new_manager = record { markers = []; counter = 1 }

-- The fields' patterns and lengths.
unfoldable pub is_valid_marker : Marker → Bool
is_valid_marker marker =
    leb marker.marker_id 999 && leb 6 (len marker.value) && leb (len marker.value) 100

-- `self._markers[marker_id] = marker`: a key that is there keeps its place.
unfoldable pub put_marker : Marker → List Marker → List Marker
put_marker marker [] = marker ∷ []
put_marker marker (m ∷ ms) =
    let rest = put_marker marker ms in
    if m.marker_id == marker.marker_id then marker ∷ ms else m ∷ rest

abbrev pub next_marker : MarkerType → String → String → Manager → Marker
next_marker kind value purpose mgr = record {
  marker_id = mgr.counter;
  marker_type = kind;
  value = value;
  created_at_ms = 0;
  purpose = purpose;
}

-- A marker with the next number: none where the model refuses it, which leaves the number used.
unfoldable pub add_marker : MarkerType → String → String → Manager → Option Marker × Manager
add_marker kind value purpose mgr =
    if is_valid_marker (next_marker kind value purpose mgr)
    then (
      some (next_marker kind value purpose mgr),
      record {
        markers = put_marker (next_marker kind value purpose mgr) mgr.markers;
        counter = mgr.counter + 1;
      },
    )
    else (none, record mgr { counter = mgr.counter + 1 })

-- `custom_value or f"...{random}"`: an empty text counts as none; `digits` is what randint gives.
abbrev pub value_or : String → String → Option String → String
value_or prefix digits none = cat prefix digits
value_or prefix digits (some v) = if v == "" then cat prefix digits else v

unfoldable pub create_otp_marker : Option String → String → Manager → Option Marker × Manager
create_otp_marker custom digits =
    add_marker otp (value_or "DS-TEST-OTP-" digits custom) "synthetic_sms_otp_delivery"

-- `lower` is the library's.
unfoldable pub create_marker :
    (String → String) → MarkerType → Option String → String → Manager → Option Marker × Manager
create_marker lower kind custom digits =
    add_marker kind (value_or (cat "DS-TEST-" (cat (type_value kind) "-")) digits custom)
      (cat "synthetic_" (cat (lower (type_value kind)) "_injection"))

unfoldable pub find_marker : ℕ → List Marker → Option Marker
find_marker i [] = none
find_marker i (m ∷ ms) = let rest = find_marker i ms in if m.marker_id == i then some m else rest

unfoldable pub get_marker : ℕ → Manager → Option Marker
get_marker i mgr = find_marker i mgr.markers

abbrev pub all_markers : Manager → List Marker
all_markers mgr = mgr.markers
