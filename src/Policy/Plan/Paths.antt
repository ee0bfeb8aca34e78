-- ===== src/Policy/Plan/Paths.antt =====
-- policy/paths.rs: which override of paths gives the level of a rule on a path.
use rust_doctor.Prelude.{
  ◌≡◌, refl, ap, subst, inl, inr, true, false, Option, none, some, List, [], ◌∷◌, ◌++◌, arith, any,
  Every, list_ord, nat_ord, or, Bool-cases, Option-cases,
}
use rust_doctor.BTree.{get}
use rust_doctor.Report.{Text}
use rust_doctor.PathGlob.{matches}
use rust_doctor.Policy.Levels.{RuleLevel}
use rust_doctor.Policy.Accepted.{RuleDefinition}
use rust_doctor.Policy.Plan.{
  PlannedRule, PathOverride, PolicyPlan, planned, table_level, last_level, path_level, is_request,
}

-- A table that covers the path and names the rule or its category, and the tables around it.
pub record LastTable (definition : RuleDefinition) (path : Text) (tables : List PathOverride)
    (level : RuleLevel) : Type 0 where
  pub before : List PathOverride
  pub table : PathOverride
  pub after : List PathOverride
  pub splits : tables ≡ before ++ table ∷ after
  pub covers : any (λ glob. matches glob path) table.paths ≡ true
  pub gives :
      or (get definition.id table.rules) (get definition.category table.categories) ≡ some level
  pub later : Every (λ t. table_level definition path t ≡ none) after

abbrev Decides : RuleDefinition → Text → List PathOverride → Option RuleLevel → Type 0
Decides definition path tables none = Every (λ t. table_level definition path t ≡ none) tables
Decides definition path tables (some level) = LastTable definition path tables level

table_level-some :
    (definition : RuleDefinition) (path : Text) (table : PathOverride) (level : RuleLevel)
    → table_level definition path table ≡ some level
    → (any (λ glob. matches glob path) table.paths ≡ true)
      × (or (get definition.id table.rules) (get definition.category table.categories) ≡ some level)
unfolding table_level
table_level-some definition path table level h =
    elim (Bool-cases (any (λ glob. matches glob path) table.paths)) [
      | inl e ↦ (e, ground arith)
      | inr e ↦ absurd (ground arith)
    ]

prepend :
    (definition : RuleDefinition) (path : Text) (table : PathOverride) (tables : List PathOverride)
    (r : Option RuleLevel)
    → Decides definition path tables r
    → Decides definition path (table ∷ tables) (or r (table_level definition path table))
prepend definition path table tables (some level) last = record {
  before = table ∷ last.before;
  table = last.table;
  after = last.after;
  splits = ap (λ t. table ∷ t) last.splits;
  covers = last.covers;
  gives = last.gives;
  later = last.later;
}
prepend definition path table tables none every =
    elim (Option-cases (table_level definition path table)) [
      | inl e ↦ rw e (e, every)
      | inr (level, e) ↦
          let (covers, gives) = table_level-some definition path table level e in
          rw e (record {
            before = [];
            table = table;
            after = tables;
            splits = refl;
            covers = covers;
            gives = gives;
            later = every;
          })
    ]

last_level-Decides :
    (definition : RuleDefinition) (path : Text) (tables : List PathOverride)
    → Decides definition path tables (last_level definition path tables)
unfolding last_level
last_level-Decides definition path [] = tt
last_level-Decides definition path (table ∷ tables) =
    prepend definition path table tables (last_level definition path tables)
      (last_level-Decides definition path tables)

-- Where the plan has a rule for an id and gives it a level on a path, the rule has its level from
-- no request, and the level is that of an override that covers the path and names the rule or else
-- its category, while no later override gives a level.
pub path_level-LastTable :
    (plan : PolicyPlan) (id path : Text) (rule : PlannedRule) (level : RuleLevel)
    → planned plan id ≡ some rule
    → path_level plan id path ≡ some level
    → (is_request rule.source ≡ false) × LastTable rule.definition path plan.paths.overrides level
unfolding path_level
path_level-LastTable plan id path rule level p h = elim (Bool-cases (is_request rule.source)) [
  | inl e ↦ absurd (ground arith)
  | inr e ↦
      let q : last_level rule.definition path plan.paths.overrides ≡ some level = ground arith in
      (
        e,
        subst (Decides rule.definition path plan.paths.overrides) q
            (last_level-Decides rule.definition path plan.paths.overrides),
      )
]
