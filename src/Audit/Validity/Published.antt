-- ===== src/Audit/Validity/Published.antt =====
-- audit/ceilings.rs, `ceilings`: the published ceilings against the worst tier.
use rust_doctor.Prelude.{
  any-append, ℕ, ◌≡◌, refl, ◌⊎◌, inl, inr, Bool, true, false, Option, none, some, List, [], ◌∷◌,
  ◌++◌, map, arith, is_empty, any, find, retain, filter_map, fold, and_then, Option-cases, same,
  list_ord, nat_ord, cmp_list,
}
use rust_doctor.BTree.{Set, insert, insert_all}
use rust_doctor.Report.{Text}
use rust_doctor.Audit.Model.{
  ScoreDimension, security_dimension, reliability_dimension, maintainability_dimension,
  performance_dimension, dependencies_dimension, all_dimensions, dimension_name, RuleTier,
}
use rust_doctor.Audit.Tiers.{tier_dimension_ceiling, tier_overall_ceiling, worse_tier}
use rust_doctor.Audit.Density.{RuleAggregate, dimension_is, scoring_tier, worst_tier_of}
use rust_doctor.Audit.Ceilings.{
  ScoreCeiling, overall, tier_is, imposed, dimension_ceiling, ceilings,
}
use rust_doctor.Audit.Score.{overall_agrees}

imposed-dimension :
    (rules : List RuleAggregate) (g : RuleTier → Option ℕ) (name : Text) (c : ScoreCeiling)
    → imposed rules g name ≡ some c
    → c.dimension ≡ name
unfolding imposed
imposed-dimension rules g name c h = ground arith

overall_name : (d : ScoreDimension) → same (dimension_name d) overall ≡ false
unfolding dimension_name cmp_list
overall_name security_dimension = refl
overall_name reliability_dimension = refl
overall_name maintainability_dimension = refl
overall_name performance_dimension = refl
overall_name dependencies_dimension = refl

module _ {ℓ κ} {A : Type ℓ} {B : Type κ} (f : A → Option B) (p : B → Bool) where
  -- A search passes over what never meets its test.
  find-filter_map :
      (xs : List A) (ys : List B)
      → ((x : A) (y : B) → f x ≡ some y → p y ≡ false)
      → find p (filter_map f xs ++ ys) ≡ find p ys
  find-filter_map [] ys h = refl
  find-filter_map (x ∷ xs) ys h = elim (Option-cases (f x)) [
    | inl e ↦ rw (e, filter_map) (find-filter_map xs ys h)
    | inr (y, e) ↦ rw (e, filter_map) (rw (h x y e) (find-filter_map xs ys h))
  ]

  any-filter_map :
      (xs : List A)
      → ((x : A) (y : B) → f x ≡ some y → p y ≡ false)
      → any p (filter_map f xs) ≡ false
  any-filter_map [] h = refl
  any-filter_map (x ∷ xs) h = elim (Option-cases (f x)) [
    | inl e ↦ rw (e, filter_map) (any-filter_map xs h)
    | inr (y, e) ↦ rw (e, filter_map) (rw (h x y e) (any-filter_map xs h))
  ]

dimension_ceiling-other :
    (rules : List RuleAggregate) (d : ScoreDimension) (c : ScoreCeiling)
    → dimension_ceiling rules d ≡ some c
    → same c.dimension overall ≡ false
unfolding dimension_ceiling
dimension_ceiling-other rules d c h =
    rw (imposed-dimension _ tier_dimension_ceiling (dimension_name d) c h) (overall_name d)

find-overall :
    (o : Option ScoreCeiling)
    → ((c : ScoreCeiling) → o ≡ some c → c.dimension ≡ overall)
    → find (λ c. same c.dimension overall) (filter_map (λ c. c) (o ∷ [])) ≡ o
unfolding cmp_list
find-overall none h = refl
find-overall (some c) h = rw (h c refl)

tier_is_self : (t : RuleTier) → tier_is t (some t) ≡ true
tier_is_self t = ground arith

imposed-agrees :
    (rules : List RuleAggregate)
    → overall_agrees
        (imposed rules tier_overall_ceiling overall)
        (worst_tier_of rules)
        (and_then (worst_tier_of rules) tier_overall_ceiling)
      ≡ true
unfolding imposed overall_agrees tier_overall_ceiling
imposed-agrees rules = ground arith

-- The published overall ceiling is that of the worst tier of the rules, with that tier, and is
-- absent where the tier has none.
pub ceilings_agree :
    (rules : List RuleAggregate)
    → overall_agrees
        (find (λ c. same c.dimension overall) (ceilings rules))
        (worst_tier_of rules)
        (and_then (worst_tier_of rules) tier_overall_ceiling)
      ≡ true
unfolding ceilings
ceilings_agree rules =
    rw
      (find-filter_map (dimension_ceiling rules) (λ c. same c.dimension overall) all_dimensions _
        (dimension_ceiling-other rules))
      (rw
        (find-overall (imposed rules tier_overall_ceiling overall)
          (imposed-dimension rules tier_overall_ceiling overall))
        (imposed-agrees rules))

insert_nonempty : (k : Text) (m : Set Text) → is_empty (insert k m) ≡ false
unfolding insert
insert_nonempty k [] = refl
insert_nonempty k (j ∷ m) = ground arith

insert_all_nonempty :
    (ks : List Text) (m : Set Text) → is_empty m ≡ false → is_empty (insert_all ks m) ≡ false
insert_all_nonempty [] m h = h
insert_all_nonempty (k ∷ ks) m h = insert_all_nonempty ks (insert k m) (insert_nonempty k m)

-- The worst of the tiers is one of them.
worse-one :
    (t : RuleTier) (a b : Option RuleTier) → worse_tier a b ≡ some t → (a ≡ some t) ⊎ (b ≡ some t)
unfolding worse_tier
worse-one t a b h = ground arith

fold-holder :
    (t : RuleTier) (rules : List RuleAggregate) (start : Option RuleTier)
    → fold (λ worst rule. worse_tier worst (scoring_tier rule)) start rules ≡ some t
    → (start ≡ some t) ⊎ (is_empty (retain (λ r. tier_is t (scoring_tier r)) rules) ≡ false)
fold-holder t [] start h = inl h
fold-holder t (r ∷ rules) start h =
    elim (fold-holder t rules (worse_tier start (scoring_tier r)) h) [
      | inl e ↦ elim (worse-one t start (scoring_tier r) e) [
        | inl s ↦ inl s
        | inr s ↦ inr (rw (s, tier_is_self t))
      ]
      | inr e ↦ inr (ground arith)
    ]

ids_nonempty :
    (rs : List RuleAggregate)
    → is_empty rs ≡ false
    → is_empty (insert_all (map (λ r. r.id) rs) []) ≡ false
ids_nonempty [] h = cc
ids_nonempty (r ∷ rs) h =
    insert_all_nonempty (map (λ r. r.id) rs) (insert r.id []) (insert_nonempty r.id [])

imposed-names :
    (rules : List RuleAggregate) (g : RuleTier → Option ℕ) (name : Text) (c : ScoreCeiling)
    → imposed rules g name ≡ some c
    → is_empty c.rule_ids ≡ false
unfolding imposed worst_tier_of
imposed-names rules g name c h = elim (Option-cases (worst_tier_of rules)) [
  | inl e ↦ absurd (ground arith)
  | inr (t, e) ↦ elim (fold-holder t rules none e) [
    | inl s ↦ absurd (ground arith)
    | inr held ↦ ground (
      arith,
      ids_nonempty (retain (λ (r : RuleAggregate). tier_is t (scoring_tier r)) rules) held,
    )
  ]
]

no_overall :
    (o : Option ScoreCeiling)
    → ((c : ScoreCeiling) → o ≡ some c → is_empty c.rule_ids ≡ false)
    → any (λ c. is_empty c.rule_ids) (filter_map (λ c. c) (o ∷ [])) ≡ false
no_overall none h = refl
no_overall (some c) h = rw (h c refl)

-- Every published ceiling names at least one rule.
pub ceilings_named :
    (rules : List RuleAggregate) → any (λ c. is_empty c.rule_ids) (ceilings rules) ≡ false
unfolding ceilings dimension_ceiling
ceilings_named rules =
    let p = λ (c : ScoreCeiling). is_empty c.rule_ids in
    rw
      (
        any-append p (filter_map (dimension_ceiling rules) all_dimensions) _,
        any-filter_map (dimension_ceiling rules) p all_dimensions (λ d c e.
            imposed-names (retain (λ r. dimension_is d r.dimension) rules) tier_dimension_ceiling
              (dimension_name d) c e),
      )
      (no_overall (imposed rules tier_overall_ceiling overall)
        (λ c e. imposed-names rules tier_overall_ceiling overall c e))
