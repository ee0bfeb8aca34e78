-- ===== src/Audit/Validity/Tallied.antt =====
-- audit.rs, `category_tallies`: coherence and order of the categories.
use rust_doctor.Prelude.{
  ℕ, ◌≤◌, ◌≡◌, refl, sym, Bool, true, false, Option, none, some, List, [], ◌∷◌, arith, ltb,
  if◌then◌else◌, Every, Ord, subst, Ordering-cases, inl, inr,
}
use Prim.Native.Nat.Ordering.{lt}
use rust_doctor.BTree.{Map, entry, values}
use rust_doctor.Report.{Severity, Diagnostic, weighs}
use rust_doctor.Audit.Counts.{
  SeverityCounts, word_counts, add, is_coherent, covers, add-is_coherent, add-covers,
  add-covers_left,
}
use rust_doctor.Audit.Model.{AuditCategoryName, category_ord, category_bucket}
use rust_doctor.Audit.Categories.{AuditCategory, empty_category, tally, tally_all, category_tallies}
use rust_doctor.Audit.Build.{is_valid_category, follows, categories_are_valid}

-- A map's keys ascend from a bound, and its entries meet a predicate.
abbrev Ascends {ℓ κ} :
    {K : Type ℓ} {V : Type κ} ⦃o : Ord K⦄ → (K → V → Type 0) → Option K → Map K V → Type 0
Ascends P bound [] = Unit
Ascends P bound ((k, v) ∷ m) = (follows bound k ≡ true) × P k v × Ascends P (some k) m

above-next {ℓ} :
    {K : Type ℓ} ⦃o : Ord K⦄ (bound : Option K) (k j : K)
    → follows bound k ≡ true
    → o.cmp k j ≡ lt
    → follows bound j ≡ true
above-next none k j h e = refl
above-next ⦃o⦄ (some b) k j h e = ground (arith, o.cmp_trans b k j)

module _ {ℓ κ} {K : Type ℓ} {V : Type κ} ⦃o : Ord K⦄ where
  entry-Ascends :
      (P : K → V → Type 0) (k : K) (d : V) (f : V → V) (bound : Option K) (m : Map K V)
      → follows bound k ≡ true
      → P k (f d)
      → ((v : V) → P k v → P k (f v))
      → Ascends P bound m
      → Ascends P bound (entry k d f m)
  unfolding entry
  entry-Ascends P k d f bound [] h new old a = (h, new, tt)
  entry-Ascends P k d f bound ((j, v) ∷ m) h new old a = elim (Ordering-cases (o.cmp k j)) [
    | inl e ↦ rw (e, entry) (h, new, (rw (e, follows) refl, a.1, a.2))
    | inr (inl e) ↦
        rw (e, entry)
          (
            a.0,
            (let q : k ≡ j = o.cmp_eq k j e in
                subst (λ i. P i (f v)) q (old v (subst (λ i. P i v) (sym q) a.1))),
            a.2,
          )
    | inr (inr e) ↦
        rw (e, entry)
          (a.0, a.1, entry-Ascends P k d f (some j) m (ground (arith, o.cmp_swap k j)) new old a.2)
  ]

-- The counters of a category: coherent, and covered by its occurrences.
record IsTallied (name : AuditCategoryName) (c : AuditCategory) : Type 0 where
  named : c.name ≡ name
  distinct_coherent : is_coherent c.distinct ≡ true
  occurrences_coherent : is_coherent c.occurrences ≡ true
  production_coherent : is_coherent c.production ≡ true
  distinct_covered : covers c.occurrences c.distinct ≡ true
  production_covered : covers c.occurrences c.production ≡ true
  production_bounded : covers word_counts c.production ≡ true

-- And one finding at least.
abbrev IsCounted : AuditCategoryName → AuditCategory → Type 0
IsCounted name c = IsTallied name c × (ltb 0 c.distinct.total ≡ true)

empty-IsTallied : (name : AuditCategoryName) → IsTallied name (empty_category name)
unfolding is_coherent covers
empty-IsTallied name = record {
  named = refl;
  distinct_coherent = refl;
  occurrences_coherent = refl;
  production_coherent = refl;
  distinct_covered = refl;
  production_covered = refl;
  production_bounded = refl;
}

add_bounded :
    (s : Severity) (n : ℕ) (c : SeverityCounts)
    → covers word_counts c ≡ true
    → covers word_counts (add s n c) ≡ true
unfolding covers add
add_bounded s n c h = ground arith

add_counted : (s : Severity) (c : SeverityCounts) → ltb 0 (add s 1 c).total ≡ true
unfolding add
add_counted s c = ground arith

-- The production counters take a finding that weighs.
produced_coherent :
    (w : Bool) (s : Severity) (n : ℕ) (c : SeverityCounts)
    → is_coherent c ≡ true
    → is_coherent (if w then add s n c else c) ≡ true
produced_coherent true s n c h = add-is_coherent s n c h
produced_coherent false s n c h = h

produced_covered :
    (w : Bool) (s : Severity) (n : ℕ) (a b : SeverityCounts)
    → covers a b ≡ true
    → covers word_counts b ≡ true
    → covers (add s n a) (if w then add s n b else b) ≡ true
produced_covered true s n a b h k = add-covers s n n a b (omega arith) h
produced_covered false s n a b h k = add-covers_left s n a b h k

produced_bounded :
    (w : Bool) (s : Severity) (n : ℕ) (c : SeverityCounts)
    → covers word_counts c ≡ true
    → covers word_counts (if w then add s n c else c) ≡ true
produced_bounded true s n c h = add_bounded s n c h
produced_bounded false s n c h = h

tally-IsCounted :
    (name : AuditCategoryName) (d : Diagnostic) (c : AuditCategory)
    → 1 ≤ d.occurrences
    → IsTallied name c
    → IsCounted name (tally d c)
unfolding tally
tally-IsCounted name d c h t = (
  record {
    named = t.named;
    distinct_coherent = add-is_coherent d.severity 1 c.distinct t.distinct_coherent;
    occurrences_coherent =
        add-is_coherent d.severity d.occurrences c.occurrences t.occurrences_coherent;
    production_coherent =
        produced_coherent (weighs d) d.severity d.occurrences c.production t.production_coherent;
    distinct_covered =
        add-covers d.severity d.occurrences 1 c.occurrences c.distinct h t.distinct_covered;
    production_covered =
        produced_covered (weighs d) d.severity d.occurrences c.occurrences c.production
          t.production_covered t.production_bounded;
    production_bounded =
        produced_bounded (weighs d) d.severity d.occurrences c.production t.production_bounded;
  },
  add_counted d.severity c.distinct,
)

abbrev pub Occurs : Diagnostic → Type 0
Occurs d = 1 ≤ d.occurrences

tally_all-Ascends :
    (ds : List Diagnostic) (m : Map AuditCategoryName AuditCategory)
    → Every Occurs ds
    → Ascends IsCounted none m
    → Ascends IsCounted none (tally_all ds m)
unfolding tally_all
tally_all-Ascends [] m h a = a
tally_all-Ascends (d ∷ ds) m h a =
    let name = category_bucket d.category in
    tally_all-Ascends ds _ h.1 (
      entry-Ascends IsCounted name (empty_category name) (tally d) none m refl
        (tally-IsCounted name d (empty_category name) h.0 (empty-IsTallied name))
        (λ c t. tally-IsCounted name d c h.0 t.0) a)

counted_is_valid :
    (name : AuditCategoryName) (c : AuditCategory) → IsCounted name c → is_valid_category c ≡ true
unfolding is_valid_category
counted_is_valid name c h =
    let t = h.0 in
    rw
      (
        h.1, t.distinct_coherent, t.occurrences_coherent, t.distinct_covered, t.production_coherent,
        t.production_covered,
      )
      refl

ascending_are_valid :
    (bound : Option AuditCategoryName) (m : Map AuditCategoryName AuditCategory)
    → Ascends IsCounted bound m
    → categories_are_valid bound (values m) ≡ true
unfolding categories_are_valid
ascending_are_valid bound [] a = refl
ascending_are_valid bound ((k, c) ∷ m) a =
    rw (a.1.0.named, a.0, counted_is_valid k c a.1, ascending_are_valid (some k) m a.2) refl

-- The tallies of findings that each occur at least once are valid categories in strictly increasing
-- order of name.
pub category_tallies-are_valid :
    (ds : List Diagnostic)
    → Every Occurs ds
    → categories_are_valid none (category_tallies ds) ≡ true
unfolding category_tallies
category_tallies-are_valid ds h =
    ascending_are_valid none (tally_all ds []) (tally_all-Ascends ds [] h tt)
