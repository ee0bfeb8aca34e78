-- ===== src/Audit/Tiers.antt =====
-- audit/ceilings.rs: what a tier caps, and the worse of two tiers.
use rust_doctor.Prelude.{ℕ, ◌≤◌, Option, none, some, arith, ltb, if◌then◌else◌, and_then, or}
use rust_doctor.Audit.Model.{RuleTier, p0, p1, p2, p3}

unfoldable pub tier_dimension_ceiling : RuleTier → Option ℕ
tier_dimension_ceiling p0 = some 20
tier_dimension_ceiling p1 = some 50
tier_dimension_ceiling p2 = some 75
tier_dimension_ceiling p3 = none

unfoldable pub tier_overall_ceiling : RuleTier → Option ℕ
tier_overall_ceiling p0 = some 40
tier_overall_ceiling p1 = some 65
tier_overall_ceiling p2 = none
tier_overall_ceiling p3 = none

unfoldable pub capped : ℕ → Option ℕ → ℕ
capped value (some ceiling) = if ltb ceiling value then ceiling else value
capped value none = value

-- `Ord::min` of two tiers: the derived order is that of the constructors.
unfoldable pub min_tier : RuleTier → RuleTier → RuleTier
min_tier p0 b = p0
min_tier a p0 = p0
min_tier p1 b = p1
min_tier a p1 = p1
min_tier p2 b = p2
min_tier a p2 = p2
min_tier p3 p3 = p3

unfoldable pub worse_tier : Option RuleTier → Option RuleTier → Option RuleTier
unfolding min_tier
worse_tier (some current) (some candidate) = some (min_tier current candidate)
worse_tier current candidate = or current candidate

unfoldable pub tier_weight : Option RuleTier → ℕ
tier_weight (some p0) = 8
tier_weight (some p1) = 4
tier_weight (some p2) = 2
tier_weight (some p3) = 1
tier_weight none = 1

pub capped_le : (v : ℕ) (c : Option ℕ) → capped v c ≤ v
unfolding capped
capped_le v none = omega arith
capped_le v (some c) = ground arith

-- How far a tier caps: no tier at all is the highest.
abbrev pub severity_of : Option RuleTier → ℕ
severity_of none = 4
severity_of (some p0) = 0
severity_of (some p1) = 1
severity_of (some p2) = 2
severity_of (some p3) = 3

pub worse_tier-severity :
    (a b c : Option RuleTier)
    → severity_of a ≤ severity_of b
    → severity_of (worse_tier a c) ≤ severity_of (worse_tier b c)
unfolding worse_tier
worse_tier-severity a b c h = ground arith

pub worse_tier-le : (a b : Option RuleTier) → severity_of (worse_tier a b) ≤ severity_of a
unfolding worse_tier
worse_tier-le a b = ground arith

-- A worse tier caps at least as low.
pub capped_mono_dimension :
    (v w : ℕ) (a b : Option RuleTier)
    → v ≤ w
    → severity_of a ≤ severity_of b
    → capped v (and_then a tier_dimension_ceiling) ≤ capped w (and_then b tier_dimension_ceiling)
unfolding capped tier_dimension_ceiling
capped_mono_dimension v w a b h k = ground arith

pub capped_mono_overall :
    (v w : ℕ) (a b : Option RuleTier)
    → v ≤ w
    → severity_of a ≤ severity_of b
    → capped v (and_then a tier_overall_ceiling) ≤ capped w (and_then b tier_overall_ceiling)
unfolding capped tier_overall_ceiling
capped_mono_overall v w a b h k = ground arith
