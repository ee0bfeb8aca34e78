-- ===== src/Exclusion/Left.antt =====
-- report/exclusion.rs: what `apply` leaves.
use rust_doctor.Prelude.{
  ◌≡◌, ◌≢◌, refl, ◌⊎◌, inl, inr, Bool, true, false, not, Option, none, some, List, [], ◌∷◌, arith,
  retain, Every, and_then, list_ord, nat_ord, not, subst, sym,
}
use rust_doctor.BTree.{Map, Set, contains}
use rust_doctor.Report.{Text, Severity, Diagnostic}
use rust_doctor.Policy.Levels.{RuleLevel, off}
use rust_doctor.Exclusion.{
  Directive, Plan, ScanExclusions, is_ignored, path_is, remove, covers, suppress, suppress_all,
  at_level, override, apply_overrides, select_packages, active_directives, apply,
  canonical_severity,
}
use rust_doctor.Exclusion.Applied.{Every-retain, Every-filter_map, retain-Every}

abbrev pub owner_in : Option (Set Text) → Option Text → Bool
owner_in none owner = true
owner_in (some selected) none = true
owner_in (some selected) (some name) = contains name selected

abbrev pub owner_is : Option (Set Text) → Diagnostic → Bool
owner_is selected d = owner_in selected d.owner

-- The findings that no path and no package excludes.
abbrev pub Stays : Plan → ScanExclusions → Diagnostic → Type 0
Stays plan exclusions d =
    (path_is (is_ignored plan) d ≡ false)
    × (path_is (λ path. contains path exclusions.generated) d ≡ false)
    × (owner_is exclusions.packages d ≡ true)

-- The level that a path gives a finding's rule.
abbrev pub level_on_path : Plan → Diagnostic → Option RuleLevel
level_on_path plan d = and_then d.code (λ code. and_then d.path (plan.path_level code))

Every-and :
    {A : Type 0} (P Q : A → Type 0) (xs : List A)
    → Every P xs
    → Every Q xs
    → Every (λ x. P x × Q x) xs
Every-and P Q [] h k = tt
Every-and P Q (x ∷ xs) h k = ((h.0, k.0), Every-and P Q xs h.1 k.1)

Every-map :
    {A : Type 0} (P Q : A → Type 0)
    → ((x : A) → P x → Q x)
    → (xs : List A) → Every P xs
    → Every Q xs
Every-map P Q f [] h = tt
Every-map P Q f (x ∷ xs) h = (f x h.0, Every-map P Q f xs h.1)

not-true : (b : Bool) → not b ≡ true → b ≡ false
not-true b h = ground arith

-- A directive leaves findings as they are or a part of them.
suppress-part :
    (catalogue : List Text) (ds : List Diagnostic) (directive : Directive) (keys : Map Text Text)
    → ((suppress catalogue ds directive keys).0 ≡ ds)
      ⊎ ((suppress catalogue ds directive keys).0 ≡ retain (λ d. not (covers directive d keys)) ds)
unfolding suppress
suppress-part catalogue ds directive keys = ground arith

module _ (P : Diagnostic → Type 0) where
  suppress-Every :
      (catalogue : List Text) (ds : List Diagnostic) (directive : Directive) (keys : Map Text Text)
      → Every P ds
      → Every P (suppress catalogue ds directive keys).0
  suppress-Every catalogue ds directive keys h = elim (suppress-part catalogue ds directive keys) [
    | inl e ↦ subst (Every P) (sym e) h
    | inr e ↦ subst (Every P) (sym e) (Every-retain P (λ d. not (covers directive d keys)) ds h)
  ]

  suppress_all-Every :
      (catalogue : List Text) (ds : List Diagnostic) (directives : List Directive)
      (keys : Map Text Text)
      → Every P ds
      → Every P (suppress_all catalogue ds directives keys).0
  unfolding suppress_all
  suppress_all-Every catalogue ds [] keys h = h
  suppress_all-Every catalogue ds (directive ∷ directives) keys h =
      suppress_all-Every catalogue (suppress catalogue ds directive keys).0 directives keys
        (suppress-Every catalogue ds directive keys h)

  select-Every :
      (selected : Option (Set Text)) (ds : List Diagnostic)
      → Every P ds
      → Every (λ d. P d × (owner_is selected d ≡ true)) (select_packages selected ds)
  unfolding select_packages
  select-Every none ds h = Every-map P (λ d. P d × (true ≡ true)) (λ d p. (p, refl)) ds h
  select-Every (some selected) ds h =
      Every-and P (λ d. owner_is (some selected) d ≡ true) _
        (Every-retain P (owner_is (some selected)) ds h)
        (retain-Every (owner_is (some selected)) ds)

removed-Every :
    (P : Diagnostic → Type 0) (ds : List Diagnostic) (excluded : Text → Bool)
    → Every P ds
    → Every (λ d. P d × (path_is excluded d ≡ false)) (remove ds excluded).0
unfolding remove
removed-Every P ds excluded h =
    Every-and P (λ d. path_is excluded d ≡ false) _
      (Every-retain P (λ d. not (path_is excluded d)) ds h)
      (Every-map _ _ (λ d e. not-true (path_is excluded d) e) _
        (retain-Every (λ d. not (path_is excluded d)) ds))

anything : (ds : List Diagnostic) → Every (λ d. Unit {0}) ds
anything [] = tt
anything (d ∷ ds) = (tt, anything ds)

-- A finding that stays is itself, or itself with another severity.
at_level-is :
    (d e : Diagnostic) (level : Option RuleLevel)
    → at_level d level ≡ some e
    → (level ≢ some off) × ((d ≡ e) ⊎ ((s : Severity) × (record d { severity = s } ≡ e)))
unfolding at_level
at_level-is d e none q = (λ z. ground arith, inl (ground arith))
at_level-is d e (some off) q = absurd (ground arith)
at_level-is d e (some RuleLevel.warn) q =
    (λ z. ground arith, inr (canonical_severity RuleLevel.warn, ground arith))
at_level-is d e (some RuleLevel.error) q =
    (λ z. ground arith, inr (canonical_severity RuleLevel.error, ground arith))

override-Stays :
    (plan : Plan) (exclusions : ScanExclusions) (d e : Diagnostic)
    → Stays plan exclusions d
    → override plan d ≡ some e
    → Stays plan exclusions e × (level_on_path plan e ≢ some off)
unfolding override
override-Stays plan exclusions d e h q =
    let (active, which) = at_level-is d e (level_on_path plan d) q in
    elim which [
      | inl k ↦
          subst (λ x. Stays plan exclusions x × (level_on_path plan x ≢ some off)) k (h, active)
      | inr (s, k) ↦
          subst (λ x. Stays plan exclusions x × (level_on_path plan x ≢ some off)) k (h, active)
    ]

-- No finding that `apply` leaves has an ignored or generated path, a package outside the selected
-- ones, or a rule whose level on its path is off.
pub apply-excludes :
    (catalogue : List Text) (ds : List Diagnostic) (plan : Plan) (exclusions : ScanExclusions)
    (keys : Map Text Text)
    → Every
        (λ d. Stays plan exclusions d × (level_on_path plan d ≢ some off))
        (apply catalogue ds plan exclusions keys).0
unfolding apply apply_overrides
apply-excludes catalogue ds plan exclusions keys =
    let generated = λ (path : Text). contains path exclusions.generated in
    let kept = removed-Every (λ d. Unit {0}) ds (is_ignored plan) (anything ds) in
    let written = removed-Every _ (remove ds (is_ignored plan)).0 generated kept in
    let selected = select-Every _ exclusions.packages _ written in
    Every-filter_map _ (Stays plan exclusions) (override plan)
      (λ d e. override-Stays plan exclusions d e) _
      (suppress_all-Every (Stays plan exclusions) catalogue _ (active_directives plan exclusions)
        keys (Every-map _ (Stays plan exclusions) (λ d h. (h.0.0.1, h.0.1, h.1)) _ selected))
