-- ===== src/Audit/Validity/Projected.antt =====
-- audit/ranking.rs, `projection`: the rules that it names.
use rust_doctor.Prelude.{
  ℕ, zero, suc, ◌+◌, ◌≤◌, ◌≡◌, refl, sym, ◌∙◌, subst, ◌⊎◌, inl, inr, Bool, true, false, not, Option,
  none, some, List, [], ◌∷◌, map, arith, is_empty, length, length-map, retain, fold, all, Every,
  Bool-cases, Option-cases, Ord, list_ord, nat_ord,
}
use rust_doctor.BTree.{Set, contains, insert, insert_all}
use rust_doctor.Report.{Text}
use rust_doctor.Audit.Float.{Float}
use rust_doctor.Audit.Density.{RuleAggregate, is_withheld, remains, Scale}
use rust_doctor.Audit.Ranking.{
  Gain, pick, max_by, gain_of, best_of, project, projection, projected_rules, is_candidate,
}
use rust_doctor.Audit.Score.{projected_rules_are_named_once}

-- Distinct keys, none of which a set holds.
abbrev pub Distinct {ℓ} : {K : Type ℓ} ⦃o : Ord K⦄ → List K → Set K → Type 0
Distinct [] m = Unit
Distinct (k ∷ ks) m = (contains k m ≡ false) × Distinct ks (insert k m)

module _ {ℓ} {K : Type ℓ} ⦃o : Ord K⦄ where
  length-insert : (k : K) (m : Set K) → contains k m ≡ false → length (insert k m) ≡ suc (length m)
  unfolding contains insert
  length-insert k [] h = refl
  length-insert k (j ∷ m) h = ground (arith, length-insert k m)

  -- Collecting distinct keys in a set loses none.
  pub length-insert_all :
      (ks : List K) (m : Set K) → Distinct ks m → length (insert_all ks m) ≡ length ks + length m
  length-insert_all [] m h = omega arith
  length-insert_all (k ∷ ks) m h =
      omega (arith, length-insert_all ks (insert k m) h.1, length-insert k m h.0)

Every-retain :
    (P : RuleAggregate → Type 0) (p : RuleAggregate → Bool) (rs : List RuleAggregate)
    → Every P rs
    → Every P (retain p rs)
Every-retain P p [] h = tt
Every-retain P p (r ∷ rs) h = elim (Bool-cases (p r)) [
  | inl e ↦ rw e (h.0, Every-retain P p rs h.1)
  | inr e ↦ rw e (Every-retain P p rs h.1)
]

retain-Every :
    (p : RuleAggregate → Bool) (rs : List RuleAggregate) → Every (λ r. p r ≡ true) (retain p rs)
retain-Every p [] = tt
retain-Every p (r ∷ rs) = elim (Bool-cases (p r)) [
  | inl e ↦ rw e (e, retain-Every p rs)
  | inr e ↦ rw e (retain-Every p rs)
]

-- What `max_by` answers is one of its items.
pick-one : (b x : Gain) → (pick (some b) x ≡ some b) ⊎ (pick (some b) x ≡ some x)
pick-one b x = ground arith

fold_pick-Every :
    (P : Gain → Type 0) (gs : List Gain) (start : Option Gain) (g : Gain)
    → Every P gs
    → ((b : Gain) → start ≡ some b → P b)
    → fold pick start gs ≡ some g
    → P g
fold_pick-Every P [] start g h k e = k g e
fold_pick-Every P (x ∷ gs) none g h k e =
    fold_pick-Every P gs (some x) g h.1 (λ b q. ground (arith, h.0)) e
fold_pick-Every P (x ∷ gs) (some b) g h k e =
    fold_pick-Every P gs (pick (some b) x) g h.1
      (λ c q. elim (pick-one b x) [
        | inl kept ↦ k c (sym kept ∙ q)
        | inr taken ↦ let e' : x ≡ c = cc in subst P e' h.0
      ])
      e

Every-gains :
    (P : RuleAggregate → Type 0) (f : Float) (rules : List RuleAggregate) (scale : Scale f)
    (removed : Set Text) (rs : List RuleAggregate)
    → Every P rs
    → Every (λ g. P g.rule) (map (gain_of f rules scale removed) rs)
unfolding gain_of
Every-gains P f rules scale removed [] h = tt
Every-gains P f rules scale removed (r ∷ rs) h = (h.0, Every-gains P f rules scale removed rs h.1)

not-true : (b : Bool) → not b ≡ true → b ≡ false
not-true b h = ground arith

module _ (f : Float) (rules : List RuleAggregate) (scale : Scale f) where
  best_of-Every :
      (P : RuleAggregate → Type 0) (candidates : List RuleAggregate) (removed : Set Text) (g : Gain)
      → Every P (retain (remains removed) candidates)
      → best_of f rules scale candidates removed ≡ some g
      → P g.rule
  unfolding best_of max_by
  best_of-Every P candidates removed g h e =
      fold_pick-Every (λ x. P x.rule) _ none g
        (Every-gains P f rules scale removed (retain (remains removed) candidates) h) (λ b q. cc) e

  best_of-contains :
      (candidates : List RuleAggregate) (removed : Set Text) (g : Gain)
      → best_of f rules scale candidates removed ≡ some g
      → contains g.rule.id removed ≡ false
  unfolding remains
  best_of-contains candidates removed g e = not-true _ (
      best_of-Every (λ r. remains removed r ≡ true) candidates removed g
        (retain-Every (remains removed) candidates) e)

  project-Distinct :
      (n : ℕ) (candidates : List RuleAggregate) (removed : Set Text)
      → Distinct (map (λ r. r.id) (project f rules scale n candidates removed)) removed
  unfolding project
  project-Distinct zero candidates removed = tt
  project-Distinct (suc n) candidates removed =
      elim (Option-cases (best_of f rules scale candidates removed)) [
        | inl e ↦ rw (e, project) tt
        | inr (g, e) ↦
            rw (e, project)
              (
                best_of-contains candidates removed g e,
                project-Distinct n candidates (insert g.rule.id removed),
              )
      ]

  project-Every :
      (P : RuleAggregate → Type 0) (n : ℕ) (candidates : List RuleAggregate) (removed : Set Text)
      → Every P candidates
      → Every P (project f rules scale n candidates removed)
  unfolding project
  project-Every P zero candidates removed h = tt
  project-Every P (suc n) candidates removed h =
      elim (Option-cases (best_of f rules scale candidates removed)) [
        | inl e ↦ rw (e, project) tt
        | inr (g, e) ↦
            rw (e, project)
              (
                best_of-Every P candidates removed g (Every-retain P _ candidates h) e,
                project-Every P n candidates (insert g.rule.id removed) h,
              )
      ]

  length-project :
      (n : ℕ) (candidates : List RuleAggregate) (removed : Set Text)
      → length (project f rules scale n candidates removed) ≤ n
  unfolding project
  length-project zero candidates removed = omega arith
  length-project (suc n) candidates removed =
      elim (Option-cases (best_of f rules scale candidates removed)) [
        | inl e ↦ rw (e, project) (omega arith)
        | inr (g, e) ↦
            rw (e, project) (omega (arith, length-project n candidates (insert g.rule.id removed)))
      ]

abbrev pub IsNamed : RuleAggregate → Type 0
IsNamed r = is_empty r.id ≡ false

all-ids :
    (rs : List RuleAggregate)
    → Every IsNamed rs
    → all (λ i. not (is_empty i)) (map (λ r. r.id) rs) ≡ true
all-ids [] h = refl
all-ids (r ∷ rs) h = ground (arith, h.0, all-ids rs h.1)

-- Where every rule has a name, the projection names at most three rules, each once and none by an
-- empty name.
pub projection_named_once :
    (f : Float) (rules : List RuleAggregate) (scale : Scale f)
    → Every IsNamed rules
    → projected_rules_are_named_once (map (λ r. r.id) (projection f rules scale).0) ≡ true
unfolding projected_rules_are_named_once projection
projection_named_once f rules scale named =
    let candidates = retain (λ r. not (is_withheld r)) (retain is_candidate rules) in
    let found = project f rules scale projected_rules candidates [] in
    ground (
      arith,
      length-map (λ (r : RuleAggregate). r.id) found,
      length-project f rules scale projected_rules candidates [],
      length-insert_all (map (λ (r : RuleAggregate). r.id) found) []
          (project-Distinct f rules scale projected_rules candidates []),
      all-ids found (
          project-Every f rules scale IsNamed projected_rules candidates []
            (Every-retain IsNamed _ _ (Every-retain IsNamed _ rules named))),
    )
