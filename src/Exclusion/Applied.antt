-- ===== src/Exclusion/Applied.antt =====
-- report/exclusion.rs: what `suppress` leaves, with its report.
use rust_doctor.Prelude.{
  any-same-Member, ◌++◌, Member, ◌≤◌, ◌<◌, ◌≡◌, ◌≢◌, refl, ap, ◌⊎◌, inl, inr, Bool, true, false,
  not, ◌||◌, Option, none, some, List, [], ◌∷◌, arith, ltb, if◌then◌else◌, find, retain, length,
  length-retain, filter_map, Every, Bool-cases, Option-cases, list_ord, nat_ord,
}
use rust_doctor.BTree.{Map}
use rust_doctor.Report.{Text, codes, Diagnostic}
use rust_doctor.Exclusion.{
  applied, unused, missing_reason, use_expect, unknown_rule, SuppressionReport, Directive,
  starts_with, holds, closest, covers, report_of, suppress,
}

module _ {A : Type 0} (P : A → Type 0) where
  pub Every-retain : (p : A → Bool) (xs : List A) → Every P xs → Every P (retain p xs)
  Every-retain p [] h = tt
  Every-retain p (x ∷ xs) h = elim (Bool-cases (p x)) [
    | inl e ↦ rw e (h.0, Every-retain p xs h.1)
    | inr e ↦ rw e (Every-retain p xs h.1)
  ]

  pub Every-filter_map :
      (Q : A → Type 0) (f : A → Option A)
      → ((x y : A) → Q x → f x ≡ some y → P y)
      → (xs : List A) → Every Q xs
      → Every P (filter_map f xs)
  Every-filter_map Q f k [] h = tt
  Every-filter_map Q f k (x ∷ xs) h = elim (Option-cases (f x)) [
    | inl e ↦ rw (e, filter_map) (Every-filter_map Q f k xs h.1)
    | inr (y, e) ↦ rw (e, filter_map) (k x y h.0 e, Every-filter_map Q f k xs h.1)
  ]

module _ {A : Type 0} (p : A → Bool) where
  pub retain-Every : (xs : List A) → Every (λ x. p x ≡ true) (retain p xs)
  retain-Every [] = tt
  retain-Every (x ∷ xs) = elim (Bool-cases (p x)) [
    | inl e ↦ rw e (e, retain-Every xs)
    | inr e ↦ rw e (retain-Every xs)
  ]

  -- Nothing went where the length is the same.
  retain-same : (xs : List A) → length xs ≤ length (retain p xs) → retain p xs ≡ xs
  retain-same [] h = refl
  retain-same (x ∷ xs) h = elim (Bool-cases (p x)) [
    | inl e ↦ rw e (ap (λ t. x ∷ t) (retain-same xs (ground arith)))
    | inr e ↦ absurd (ground (arith, length-retain p xs))
  ]

-- A rule of the catalogue, by an id of its family.
abbrev pub IsKnown : List Text → Text → Type 0
IsKnown catalogue rule =
    ((name : Text) × (rule ≡ codes "rust_doctor::" ++ name)) × Member rule catalogue

-- The findings stay and the report is not `applied`, or the directive has a reason and known rules,
-- every finding that it covers is gone, one at least, and the report is.
abbrev pub Settles :
    List Text
    → List Diagnostic
    → Directive
    → Map Text Text
    → List Diagnostic × SuppressionReport
    → Type 0
Settles catalogue ds directive keys (left, report) =
    ((left ≡ ds) × (report.status ≢ applied))
    ⊎ ((report.status ≡ applied)
        × (directive.has_reason ≡ true)
        × Every (IsKnown catalogue) directive.rules
        × (length left < length ds)
        × Every (λ d. not (covers directive d keys) ≡ true) left)

starts_with_to :
    (prefix text : Text) → starts_with prefix text ≡ true → (rest : Text) × (text ≡ prefix ++ rest)
starts_with_to [] text h = (text, refl)
starts_with_to (c ∷ cs) [] h = absurd (ground arith)
starts_with_to (c ∷ cs) (t ∷ ts) h =
    let (rest, e) = starts_with_to cs ts (ground arith) in
    let q : t ≡ c = ground arith in (rest, rw (← q) (ap (λ rest. t ∷ rest) e))

abbrev strange : List Text → Text → Bool
strange catalogue rule =
    not (starts_with (codes "rust_doctor::") rule) || not (holds rule catalogue)

strange-IsKnown :
    (catalogue : List Text) (rule : Text) → strange catalogue rule ≡ false → IsKnown catalogue rule
strange-IsKnown catalogue rule h = (
  starts_with_to (codes "rust_doctor::") rule (ground arith),
  (any-same-Member catalogue rule).0 (ground arith),
)

find-Every :
    (catalogue rules : List Text)
    → find (strange catalogue) rules ≡ none
    → Every (IsKnown catalogue) rules
find-Every catalogue [] h = tt
find-Every catalogue (rule ∷ rules) h = elim (Bool-cases (strange catalogue rule)) [
  | inl e ↦ absurd (ground arith)
  | inr e ↦ (strange-IsKnown catalogue rule e, find-Every catalogue rules (ground arith))
]

module _ (catalogue : List Text) (ds : List Diagnostic) (directive : Directive)
    (keys : Map Text Text) where
  by_count :
      directive.has_reason ≡ true
      → Every (IsKnown catalogue) directive.rules
      → Settles catalogue ds directive keys (
        retain (λ d. not (covers directive d keys)) ds,
        report_of directive
            (if ltb (length (retain (λ d. not (covers directive d keys)) ds)) (length ds)
              then applied
              else unused)
            none
            none,
      )
  unfolding report_of
  by_count reason known =
      let p = λ (d : Diagnostic). not (covers directive d keys) in
      elim (Bool-cases (ltb (length (retain p ds)) (length ds))) [
        | inl e ↦ rw e (inr (refl, reason, known, ground arith, retain-Every p ds))
        | inr e ↦ rw e (inl (retain-same p ds (ground arith), λ q. ground arith))
      ]

  unchanged :
      (report : SuppressionReport)
      → report.status ≢ applied
      → Settles catalogue ds directive keys (ds, report)
  unchanged report h = inl (refl, h)

  Settles-if :
      (b : Bool) (x y : List Diagnostic × SuppressionReport)
      → (b ≡ true → Settles catalogue ds directive keys x)
      → (b ≡ false → Settles catalogue ds directive keys y)
      → Settles catalogue ds directive keys (if b then x else y)
  Settles-if true x y h k = h refl
  Settles-if false x y h k = k refl

  Settles-option :
      (o : Option Text) (f : Text → List Diagnostic × SuppressionReport)
      (y : List Diagnostic × SuppressionReport)
      → ((t : Text) → Settles catalogue ds directive keys (f t))
      → (o ≡ none → Settles catalogue ds directive keys y)
      → Settles catalogue ds directive keys (elim o [ some t ↦ f t | none ↦ y ])
  Settles-option none f y h k = k refl
  Settles-option (some t) f y h k = h t

-- A directive leaves the findings as they are and is not reported as applied, or is reported as
-- applied, and then it has a reason, its rules are ids of the catalogue that begin with the prefix
-- of the family, it leaves fewer findings, and it covers none of those that are left.
pub suppress_lem :
    (catalogue : List Text) (ds : List Diagnostic) (directive : Directive) (keys : Map Text Text)
    → Settles catalogue ds directive keys (suppress catalogue ds directive keys)
unfolding suppress report_of
suppress_lem catalogue ds directive keys =
    Settles-if catalogue ds directive keys (not directive.has_reason) _ _
      (λ b.
        unchanged catalogue ds directive keys (report_of directive missing_reason none none)
          (λ q. ground arith))
      (λ b.
        Settles-option catalogue ds directive keys
          (find (starts_with (codes "clippy::")) directive.rules) _ _
          (λ lint.
            unchanged catalogue ds directive keys (report_of directive use_expect (some lint) none)
              (λ q. ground arith))
          (λ e.
            Settles-option catalogue ds directive keys (find (strange catalogue) directive.rules) _
              _
              (λ rule.
                unchanged catalogue ds directive keys
                  (report_of directive unknown_rule none (closest catalogue rule))
                  (λ q. ground arith))
              (λ k.
                by_count catalogue ds directive keys (ground arith)
                  (find-Every catalogue directive.rules k))))
