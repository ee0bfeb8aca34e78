-- ===== src/Tests/Structures.antt =====
-- The theorems on functions that are alike.
use rust_doctor.Prelude.{ℕ, ◌≤◌, ◌≡◌, some, [], ◌∷◌, List, arith, length, get_elem?}
use rust_doctor.Structure.Similarity.{
  similarity, shared, largest_comparable, near_duplicate_threshold, similarity-largest_comparable,
}
use rust_doctor.Structure.Components.{new, root, link_all}
use rust_doctor.Structure.Components.Runs.{labels_by, root-labels_by, root-own}

abbrev links : List (ℕ × ℕ)
links = (3, 1) ∷ (4, 3) ∷ []

root-labels_by_example : (root (link_all (new 5) links) 4).0 ≡ labels_by (λ i. i) links 4
root-labels_by_example =
    root-labels_by 5 links 4 ((omega arith, omega arith), ((omega arith, omega arith), tt))

root-own_example :
    get_elem? (root (link_all (new 5) links) 4).1 (root (link_all (new 5) links) 4).0
    ≡ some (root (link_all (new 5) links) 4).0
root-own_example =
    root-own 5 links 4 ((omega arith, omega arith), ((omega arith, omega arith), tt)) (omega arith)

abbrev left : List ℕ
left = 2 ∷ 5 ∷ 7 ∷ 9 ∷ []

abbrev right : List ℕ
right = 2 ∷ 5 ∷ 6 ∷ 7 ∷ 9 ∷ []

similarity-largest_comparable_example :
    length right ≤ largest_comparable (length left) near_duplicate_threshold
unfolding similarity shared
similarity-largest_comparable_example =
    similarity-largest_comparable left right (omega arith) (omega arith)
