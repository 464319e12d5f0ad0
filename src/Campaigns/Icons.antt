-- ===== src/Campaigns/Icons.antt =====
-- The distance of two icon hashes (fraudshield/deceptiscope/frauddna/icon_hasher.py). A hash has 16
-- hexadecimal digits; Python's `int(s, 16)`, none where it raises, is a parameter.
use Prim.Native.String.{len}
use boi.Prelude.Floats.{Floats, minimum, maximum}
use boi.Prelude.{
  ℕ, zero, suc, ◌+◌, ◌/◌, ◌%◌, String, ◌||◌, not, Option, none, some, ◌==◌, string_eq, nat_eq,
  if◌then◌else◌,
}

-- The bits in which two numbers below 2^width differ: `(a ^ b).bit_count()`.
unfoldable pub differing_bits : ℕ → ℕ → ℕ → ℕ
differing_bits zero a b = 0
differing_bits (suc width) a b =
    (if a % 2 == b % 2 then 0 else 1) + differing_bits width (a / 2) (b / 2)

abbrev pub distance_of : Option ℕ → Option ℕ → ℕ
distance_of (some a) (some b) = differing_bits 64 a b
distance_of (some a) none = 64
distance_of none b = 64

module _ (fs : Floats) where
  open fs use {Float, literal, of_nat, sub, div, less}

  -- `max(0.0, min(1.0, x))`
  unfoldable pub in_unit : Float → Float
  in_unit x = maximum fs (literal 0 0) (minimum fs (literal 1 0) x)

  abbrev share_of : ℕ → Float
  share_of distance = in_unit (sub (literal 1 0) (div (of_nat distance) (literal 64 0)))

  module _ (int16 : String → Option ℕ) where
    -- An empty hash is one whose length is not 16.
    unfoldable pub hamming_distance : String → String → ℕ
    hamming_distance hash1 hash2 =
        if not (len hash1 == 16) || not (len hash2 == 16)
        then 64
        else distance_of (int16 hash1) (int16 hash2)

    -- `IconHasher.similarity`
    unfoldable pub icon_similarity : Option String → Option String → Option Float
    icon_similarity (some hash1) (some hash2) =
        if hash1 == "" || hash2 == "" then none else some (share_of (hamming_distance hash1 hash2))
    icon_similarity (some hash1) none = none
    icon_similarity none hash2 = none
