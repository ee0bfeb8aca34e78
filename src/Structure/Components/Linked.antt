-- ===== src/Structure/Components/Linked.antt =====
-- structure/duplication.rs: what roots and links do to labels.
use rust_doctor.Prelude.{
  ℕ, zero, suc, ◌≤◌, ◌<◌, ◌≡◌, refl, sym, ◌∙◌, ap, subst, inl, inr, some, List, [], ◌∷◌, arith, leb,
  ◌==◌, if◌then◌else◌, get_elem?, set, length, length-set, get_elem?-set_self, get_elem?-set_ne,
  Bool-cases, Option-cases, min, max,
}
use rust_doctor.Structure.Components.{root_from, root, link}
use rust_doctor.Structure.Components.Labels.{
  IsForest, top, label, top_more, hop, get_in_range, set-IsForest, label_halved,
}

get_some :
    (parents : List ℕ) (i : ℕ) → i < length parents → (p : ℕ) × (get_elem? parents i ≡ some p)
get_some [] i h = absurd (omega arith)
get_some (x ∷ xs) zero h = (x, refl)
get_some (x ∷ xs) (suc i) h = get_some xs i (omega arith)

-- The root of an index, and parents with the same labels.
pub record IsRooted (parents : List ℕ) (i : ℕ) (result : ℕ × List ℕ) : Type 0 where
  pub root_is : result.0 ≡ label parents i
  pub forest : IsForest result.1
  pub size : length result.1 ≡ length parents
  pub same_labels : (j : ℕ) → label result.1 j ≡ label parents j

pub root_from-IsRooted :
    (fuel : ℕ) (parents : List ℕ) (i : ℕ)
    → IsForest parents
    → i < fuel
    → IsRooted parents i (root_from fuel parents i)
unfolding root_from
root_from-IsRooted zero parents i f h = absurd (omega arith)
root_from-IsRooted (suc fuel) parents i f h = elim (Option-cases (get_elem? parents i)) [
  | inl e ↦
      rw (e, root_from)
        (record { root_is = rw e refl; forest = f; size = refl; same_labels = λ j. refl })
  | inr (parent, e) ↦ elim (Bool-cases (parent == i)) [
    | inl q ↦
        rw (e, q, root_from)
          (record { root_is = rw (e, q) refl; forest = f; size = refl; same_labels = λ j. refl })
    | inr q ↦
        let below : parent ≤ i = f i parent e in
        let (grandparent, g) =
          get_some parents parent (ground (arith, get_in_range parents i parent e)) in
        let higher : grandparent ≤ parent = f parent grandparent g in
        let halved : List ℕ = set parents i grandparent in
        let rooted : IsRooted halved grandparent (root_from fuel halved grandparent) =
          root_from-IsRooted fuel halved grandparent
            (set-IsForest parents i grandparent (ground arith) f) (ground arith) in
        let labels : (j : ℕ) → label halved j ≡ label parents j =
          λ j. label_halved (suc j) parents i parent grandparent j f e q g (omega arith) in
        rw (e, q, g, root_from)
          (record {
            root_is =
                rooted.root_is
                ∙ labels grandparent
                ∙ top_more (suc grandparent) (suc i) parents grandparent f (omega arith)
                    (ground arith)
                ∙ sym (hop (suc i) parents parent grandparent f g (ground arith))
                ∙ sym (hop (suc i) parents i parent f e (omega arith));
            forest = rooted.forest;
            size = rooted.size ∙ length-set parents i grandparent;
            same_labels = λ j. rooted.same_labels j ∙ labels j;
          })
  ]
]

top_root :
    (n : ℕ) (parents : List ℕ) (i : ℕ)
    → IsForest parents
    → i < n
    → i < length parents
    → get_elem? parents (top n parents i) ≡ some (top n parents i)
top_root zero parents i f h k = absurd (omega arith)
top_root (suc n) parents i f h k =
    let (p, e) = get_some parents i k in
    elim (Bool-cases (p == i)) [
      | inl q ↦ let same : p ≡ i = ground arith in rw (e, q) (e ∙ ap some same)
      | inr q ↦
          let below : p ≤ i = f i p e in
          rw (e, q) (top_root n parents p f (ground arith) (ground arith))
    ]

top_of_root :
    (n : ℕ) (parents : List ℕ) (v : ℕ) → get_elem? parents v ≡ some v → top n parents v ≡ v
top_of_root zero parents v b = refl
top_of_root (suc n) parents v b = rw b (ground arith)

label_linked :
    (n : ℕ) (parents : List ℕ) (at v i : ℕ)
    → IsForest parents
    → get_elem? parents at ≡ some at
    → get_elem? parents v ≡ some v
    → v ≤ at
    → i < n
    → top n (set parents at v) i ≡ (if top n parents i == at then v else top n parents i)
label_linked zero parents at v i f a b k h = absurd (omega arith)
label_linked (suc n) parents at v i f a b k h = elim (Bool-cases (at == i)) [
  | inl q ↦
      let same : at ≡ i = ground arith in
      let written : get_elem? (set parents at v) i ≡ some v =
        subst (λ j. get_elem? (set parents at v) j ≡ some v) same
          (get_elem?-set_self parents at v (get_in_range parents at at a)) in
      let own : top (suc n) parents i ≡ i =
        top_of_root (suc n) parents i (subst (λ j. get_elem? parents j ≡ some j) same a) in
      elim (Bool-cases (v == i)) [
        | inl r ↦ let vi : v ≡ i = ground arith in rw own (rw (written, r) (ground arith))
        | inr r ↦ rw own (
            rw (written, r)
              (label_linked n parents at v v f a b k (ground arith)
                ∙ ground (arith, top_of_root n parents v b)))
      ]
  | inr q ↦
      let kept : get_elem? (set parents at v) i ≡ get_elem? parents i =
        get_elem?-set_ne parents at i v (ground arith) in
      elim (Option-cases (get_elem? parents i)) [
        | inl e ↦ rw (kept, e) (ground arith)
        | inr (p, e) ↦ elim (Bool-cases (p == i)) [
          | inl r ↦ rw (kept, e, r) (ground arith)
          | inr r ↦
              let below : p ≤ i = f i p e in
              rw (kept, e, r) (label_linked n parents at v p f a b k (ground arith))
        ]
      ]
]

-- Two labels become the lesser of them.
abbrev pub joined : ℕ → ℕ → ℕ → ℕ
joined l r x = if x == max l r then min l r else x

pub record IsLinked (parents : List ℕ) (left right : ℕ) (after : List ℕ) : Type 0 where
  pub linked_forest : IsForest after
  pub linked_size : length after ≡ length parents
  pub linked_labels :
      (j : ℕ) → label after j ≡ joined (label parents left) (label parents right) (label parents j)

-- A root is its own parent.
pub root_own :
    (parents : List ℕ) (i r : ℕ)
    → IsForest parents
    → i < length parents
    → label parents i ≡ r
    → get_elem? parents r ≡ some r
root_own parents i r f h e =
    subst (λ x. get_elem? parents x ≡ some x) e (top_root (suc i) parents i f (omega arith) h)

attach :
    (parents halved : List ℕ) (left right l r : ℕ)
    → IsForest halved
    → length halved ≡ length parents
    → ((j : ℕ) → label halved j ≡ label parents j)
    → left < length parents
    → right < length parents
    → l ≡ label parents left
    → r ≡ label parents right
    → IsLinked parents left right (if leb l r then set halved r l else set halved l r)
attach parents halved left right l r f size same h k a b =
    let l_own : get_elem? halved l ≡ some l =
      root_own halved left l f (omega arith) (same left ∙ sym a) in
    let r_own : get_elem? halved r ≡ some r =
      root_own halved right r f (omega arith) (same right ∙ sym b) in
    elim (Bool-cases (leb l r)) [
      | inl e ↦ rw e (record {
        linked_forest = set-IsForest halved r l (ground arith) f;
        linked_size = length-set halved r l ∙ size;
        linked_labels = λ j.
            label_linked (suc j) halved r l j f r_own l_own (ground arith) (omega arith)
            ∙ ground (arith, same j, a, b);
      })
      | inr e ↦ rw e (record {
        linked_forest = set-IsForest halved l r (ground arith) f;
        linked_size = length-set halved l r ∙ size;
        linked_labels = λ j.
            label_linked (suc j) halved l r j f l_own r_own (ground arith) (omega arith)
            ∙ ground (arith, same j, a, b);
      })
    ]

pub link-IsLinked :
    (parents : List ℕ) (left right : ℕ)
    → IsForest parents
    → left < length parents
    → right < length parents
    → IsLinked parents left right (link parents left right)
unfolding link root
link-IsLinked parents left right f h k =
    let first : IsRooted parents left (root_from (suc left) parents left) =
      root_from-IsRooted (suc left) parents left f (omega arith) in
    let second : IsRooted (root_from (suc left) parents left).1 right
        (root_from (suc right) (root_from (suc left) parents left).1 right) =
      root_from-IsRooted (suc right) _ right first.forest (omega arith) in
    attach parents (root_from (suc right) (root_from (suc left) parents left).1 right).1 left right
      _ _ second.forest (second.size ∙ first.size) (λ j. second.same_labels j ∙ first.same_labels j)
      h k first.root_is (second.root_is ∙ first.same_labels right)
