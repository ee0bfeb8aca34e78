-- ===== src/Structure/Components/Runs.antt =====
-- structure/duplication.rs: the roots after a run of links.
use rust_doctor.Prelude.{
  ℕ, zero, suc, ◌+◌, ◌<◌, ◌≡◌, refl, sym, ◌∙◌, ap, subst, inl, inr, some, List, [], ◌∷◌, arith,
  get_elem?, length, Option-cases, Every,
}
use rust_doctor.Structure.Components.{new, indices, root_from, root, link, link_all}
use rust_doctor.Structure.Components.Labels.{IsForest, label}
use rust_doctor.Structure.Components.Linked.{
  joined, IsRooted, IsLinked, root_own, link-IsLinked, root_from-IsRooted,
}

-- The labels that links give, one after another.
abbrev pub labels_by : (ℕ → ℕ) → List (ℕ × ℕ) → ℕ → ℕ
labels_by f [] = f
labels_by f ((left, right) ∷ links) = labels_by (λ j. joined (f left) (f right) (f j)) links

abbrev pub InRange : ℕ → List (ℕ × ℕ) → Type 0
InRange size links = Every (λ pair. (pair.0 < size) × (pair.1 < size)) links

labels_by-same :
    (links : List (ℕ × ℕ)) (f g : ℕ → ℕ) (j : ℕ)
    → ((i : ℕ) → f i ≡ g i)
    → labels_by f links j ≡ labels_by g links j
labels_by-same [] f g j h = h j
labels_by-same ((left, right) ∷ links) f g j h =
    labels_by-same links _ _ j (λ i. rw (h left, h right, h i) refl)

link_all-labels :
    (links : List (ℕ × ℕ)) (parents : List ℕ) (j : ℕ)
    → IsForest parents
    → InRange (length parents) links
    → IsForest (link_all parents links)
      × (label (link_all parents links) j ≡ labels_by (label parents) links j)
link_all-labels [] parents j f h = (f, refl)
link_all-labels ((left, right) ∷ links) parents j f ((a, b), more) =
    let step : IsLinked parents left right (link parents left right) =
      link-IsLinked parents left right f a b in
    let (forest, labels) =
      link_all-labels links (link parents left right) j step.linked_forest
        (subst (λ n. InRange n links) (sym step.linked_size) more) in
    (forest, labels ∙ labels_by-same links _ _ j step.linked_labels)

link_all-size :
    (links : List (ℕ × ℕ)) (parents : List ℕ)
    → IsForest parents
    → InRange (length parents) links
    → length (link_all parents links) ≡ length parents
link_all-size [] parents f h = refl
link_all-size ((left, right) ∷ links) parents f ((a, b), more) =
    let step : IsLinked parents left right (link parents left right) =
      link-IsLinked parents left right f a b in
    link_all-size links (link parents left right) step.linked_forest
      (subst (λ n. InRange n links) (sym step.linked_size) more)
    ∙ step.linked_size

get_indices : (from size i p : ℕ) → get_elem? (indices from size) i ≡ some p → p ≡ from + i
get_indices from zero i p h = cc
get_indices from (suc size) zero p h = ground arith
get_indices from (suc size) (suc i) p h = omega (arith, get_indices (suc from) size i p h)

length-indices : (from size : ℕ) → length (indices from size) ≡ size
length-indices from zero = refl
length-indices from (suc size) = ap suc (length-indices (suc from) size)

size_of : (size : ℕ) → length (new size) ≡ size
unfolding new
size_of size = length-indices 0 size

new-label : (size j : ℕ) → label (new size) j ≡ j
unfolding new
new-label size j = elim (Option-cases (get_elem? (indices 0 size) j)) [
  | inl e ↦ rw e refl
  | inr (p, e) ↦ let own : p ≡ j = omega (arith, get_indices 0 size j p e) in rw e (ground arith)
]

new-IsForest : (size : ℕ) → IsForest (new size)
unfolding new
new-IsForest size i p h = omega (arith, get_indices 0 size i p h)

-- After links of indices in range, the root of an index is its label where every index starts as
-- its own label and a link gives all that have either label the lesser one.
pub root-labels_by :
    (size : ℕ) (links : List (ℕ × ℕ)) (j : ℕ)
    → InRange size links
    → (root (link_all (new size) links) j).0 ≡ labels_by (λ i. i) links j
unfolding root
root-labels_by size links j h =
    let (forest, labels) =
      link_all-labels links (new size) j (new-IsForest size)
        (subst (λ n. InRange n links) (sym (size_of size)) h) in
    let rooted : IsRooted (link_all (new size) links) j
        (root_from (suc j) (link_all (new size) links) j) =
      root_from-IsRooted (suc j) (link_all (new size) links) j forest (omega arith) in
    rooted.root_is ∙ labels ∙ labels_by-same links _ _ j (new-label size)

-- After links of indices in range, the loop of `root` ends, within its fuel, at an index that is
-- its own parent.
pub root-own :
    (size : ℕ) (links : List (ℕ × ℕ)) (j : ℕ)
    → InRange size links
    → j < size
    → get_elem? (root (link_all (new size) links) j).1 (root (link_all (new size) links) j).0
      ≡ some (root (link_all (new size) links) j).0
unfolding root
root-own size links j h k =
    let parents : List ℕ = link_all (new size) links in
    let range : InRange (length (new size)) links =
      subst (λ n. InRange n links) (sym (size_of size)) h in
    let forest : IsForest parents =
      (link_all-labels links (new size) j (new-IsForest size) range).0 in
    let rooted : IsRooted parents j (root_from (suc j) parents j) =
      root_from-IsRooted (suc j) parents j forest (omega arith) in
    root_own _ j _ rooted.forest
      (omega (
        arith,
        rooted.size,
        link_all-size links (new size) (new-IsForest size) range,
        size_of size,
      ))
      (rooted.same_labels j ∙ sym rooted.root_is)
