-- ===== src/Scoring/Engines.antt =====
-- `_engine_evidence`: what the findings of optional engines may add
-- (fraudshield/deceptiscope/scoring.py).
use boi.Prelude.Int.{ℤ, clamp}
use boi.Prelude.Floats.{Floats}
use boi.Prelude.{
  Option, ℕ, ◌+◌, ◌-◌, String, Bool, ◌&&◌, ◌||◌, not, none, some, List, [], ◌∷◌, map, ◌==◌,
  string_eq, nat_eq, min, take, take_chars, if◌then◌else◌,
}
use boi.Scoring.Types.{Category, category_of, same_category, Scored}
use boi.Scoring.Static.{Static, award}

-- Entries of `used`: the newest binding of a key is the dict's.
abbrev pub Used : Type 0
Used = List (String × Category × ℕ)

abbrev pub used_by : String → Category → Used → ℕ
used_by e c [] = 0
used_by e c ((e', c', n) ∷ u) = if e' == e && same_category c' c then n else used_by e c u

module _ (fs : Floats) where
  open fs use {Float, literal, less}

  pub record Finding : Type 0 where
    pub score_eligible : Bool
    pub confidence : Float
    pub risk_category : String
    pub engine : String
    pub risk_points : ℤ
    pub title : String
    pub evidence : List String
    pub id : String

  -- The loop's variables.
  pub record Engines : Type 0 where
    pub static : Static
    pub used : Used
    pub accepted : ℕ

  -- `f"APK-EXT-{engine.upper()}-{accepted:03d}"`, as a function of the engine and the count.
  module _ (ext_id : String → ℕ → String) where
    unfoldable pub ext_scored : Finding → Category → ℕ → ℕ → Scored
    ext_scored f c points accepted = record {
      rule_id = ext_id f.engine accepted;
      title = take_chars 300 f.title;
      category = c;
      points = points;
      base_points = none;
      rationale = Prim.Native.String.◌++◌ "Normalized local evidence from " (
          Prim.Native.String.◌++◌ f.engine
            "; contribution is capped per engine and risk dimension.");
      required_evidence = none;
      evidence_ids = [];
      artifacts = map (take_chars 500) (take 12 f.evidence);
      source_finding_id = some (take_chars 160 f.id);
    }

    -- The points that a finding may add: within 30, and within what is left of its engine's 25.
    abbrev pub granted : Finding → Category → Used → ℕ
    granted f c used = min (clamp 0 30 f.risk_points) (25 - used_by f.engine c used)

    unfoldable pub accept : Finding → Category → Engines → Engines
    accept f c s =
        let points = granted f c s.used in
        if points == 0 then s else record {
          static = award c points (ext_scored f c points (s.accepted + 1)) s.static;
          used = (f.engine, c, used_by f.engine c s.used + points) ∷ s.used;
          accepted = s.accepted + 1;
        }

    -- `if category not in allowed_categories: continue`
    abbrev pub accept_known : Finding → Option Category → Engines → Engines
    accept_known f none s = s
    accept_known f (some c) s = accept f c s

    -- One round of the loop, with its `continue`s.
    unfoldable pub engine_step : Finding → Engines → Engines
    engine_step f s =
        if not f.score_eligible || less f.confidence (literal 7 1)
        then s
        else accept_known f (category_of f.risk_category) s

    unfoldable pub engine_loop : List Finding → Engines → Engines
    engine_loop [] s = s
    engine_loop (f ∷ fs') s = engine_loop fs' (engine_step f s)

    unfoldable pub engine_evidence : List Finding → Static → Engines
    engine_evidence findings st =
        engine_loop findings (record { static = st; used = []; accepted = 0 })
