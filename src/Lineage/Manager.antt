-- ===== src/Lineage/Manager.antt =====
-- The manager of the markers (fraudshield/deceptiscope/lineage/markers.py).
use boi.Prelude.{
  ℕ, ◌+◌, ◌<◌, ◌≡◌, refl, ap, String, false, Option, none, some, List, [], ◌∷◌, ◌++◌, ◌==◌, nat_eq,
  All, All-append, All-mono, Bool-cases, inl, inr, arith,
}
use boi.Lineage.Markers.{
  MarkerType, Marker, Manager, is_valid_marker, next_marker, put_marker, add_marker, find_marker,
  get_marker,
}

-- The numbers that are given are below the counter.
abbrev pub IsFresh : Manager → Type 0
IsFresh mgr = All (λ m. m.marker_id < mgr.counter) mgr.markers

put_marker_appends :
    (marker : Marker) (ms : List Marker)
    → All (λ m. m.marker_id < marker.marker_id) ms
    → put_marker marker ms ≡ ms ++ (marker ∷ [])
unfolding put_marker
put_marker_appends marker [] h = refl
put_marker_appends marker (m ∷ ms) h =
    let other : (m.marker_id == marker.marker_id) ≡ false = ground (arith, h.0) in
    rw other (ap (λ l. m ∷ l) (put_marker_appends marker ms h.1))

find_marker-append :
    (marker : Marker) (ms : List Marker)
    → All (λ m. m.marker_id < marker.marker_id) ms
    → find_marker marker.marker_id (ms ++ (marker ∷ [])) ≡ some marker
unfolding find_marker
find_marker-append marker [] h = ground arith
find_marker-append marker (m ∷ ms) h =
    let other : (m.marker_id == marker.marker_id) ≡ false = ground (arith, h.0) in
    rw other (find_marker-append marker ms h.1)

find_marker_before :
    (i : ℕ) (marker : Marker) (ms : List Marker)
    → i < marker.marker_id
    → find_marker i (ms ++ (marker ∷ [])) ≡ find_marker i ms
unfolding find_marker
find_marker_before i marker [] h = ground arith
find_marker_before i marker (m ∷ ms) h = elim (Bool-cases (m.marker_id == i)) [
  | inl here ↦ rw here refl
  | inr there ↦ rw there (find_marker_before i marker ms h)
]

-- What a new marker leaves of a manager: the marker is found under its number, and stands last; what
-- was found before is still found.
pub record IsAdded (mgr : Manager) (marker : Marker) (mgr' : Manager) : Type 0 where
  pub found : get_marker marker.marker_id mgr' ≡ some marker
  pub listed : mgr'.markers ≡ mgr.markers ++ (marker ∷ [])
  pub kept : (i : ℕ) → i < mgr.counter → get_marker i mgr' ≡ get_marker i mgr

abbrev pub Added : Manager → Option Marker × Manager → Type 0
Added mgr (some marker, mgr') =
    IsAdded mgr marker mgr' × IsFresh mgr' × (mgr.counter < mgr'.counter)
Added mgr (none, mgr') = (mgr'.markers ≡ mgr.markers) × IsFresh mgr' × (mgr.counter < mgr'.counter)

-- A marker that is made is found under its number, is listed after all that were made before, and
-- takes the place of none; a value that the model refuses leaves the markers as they were. Either
-- way the number is used up, and all numbers given stay below the counter.
pub add_marker-Added :
    (kind : MarkerType) (value purpose : String) (mgr : Manager)
    → IsFresh mgr
    → Added mgr (add_marker kind value purpose mgr)
unfolding add_marker get_marker
add_marker-Added kind value purpose mgr h =
    let marker = next_marker kind value purpose mgr in
    let below : All (λ m. m.marker_id < mgr.counter + 1) mgr.markers =
      All-mono _ _ mgr.markers (λ m k. omega (arith, k)) h in
    elim (Bool-cases (is_valid_marker marker)) [
      | inr refused ↦ rw refused (refl, below, omega arith)
      | inl fine ↦
          rw (fine, put_marker_appends marker mgr.markers h)
            (
              record {
                found = find_marker-append marker mgr.markers h;
                listed = refl;
                kept = λ i k. find_marker_before i marker mgr.markers k;
              },
              All-append _ mgr.markers (marker ∷ []) below (omega arith, tt),
              omega arith,
            )
    ]
