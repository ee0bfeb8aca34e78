-- ===== src/Structure/Components/Labels.antt =====
-- structure/duplication.rs: the root of an index as its label.
use rust_doctor.Prelude.{
  ℕ, zero, suc, ◌≤◌, ◌<◌, ◌≡◌, refl, sym, ◌∙◌, ap, subst, inl, inr, false, Option, none, some, List,
  [], ◌∷◌, arith, ◌==◌, if◌then◌else◌, get_elem?, set, length, get_elem?-set_self, get_elem?-set_ne,
  Bool-cases, Option-cases,
}

-- No parent is above its child.
abbrev pub IsForest : List ℕ → Type 0
IsForest parents = (i p : ℕ) → get_elem? parents i ≡ some p → p ≤ i

abbrev pub top_step : (ℕ → ℕ) → ℕ → Option ℕ → ℕ
top_step next i none = i
top_step next i (some p) = if p == i then i else next p

-- The root by the parents as they are.
abbrev pub top : ℕ → List ℕ → ℕ → ℕ
top zero parents i = i
top (suc n) parents i = top_step (top n parents) i (get_elem? parents i)

abbrev pub label : List ℕ → ℕ → ℕ
label parents i = top (suc i) parents i

pub top_more :
    (n m : ℕ) (parents : List ℕ) (i : ℕ)
    → IsForest parents
    → i < n
    → i < m
    → top n parents i ≡ top m parents i
top_more zero m parents i f h k = absurd (omega arith)
top_more (suc n) zero parents i f h k = absurd (omega arith)
top_more (suc n) (suc m) parents i f h k = elim (Option-cases (get_elem? parents i)) [
  | inl e ↦ rw e refl
  | inr (p, e) ↦ elim (Bool-cases (p == i)) [
    | inl q ↦ rw (e, q) refl
    | inr q ↦
        let below : p ≤ i = f i p e in
        rw (e, q) (top_more n m parents p f (ground arith) (ground arith))
  ]
]

-- One parent up.
pub hop :
    (n : ℕ) (parents : List ℕ) (i p : ℕ)
    → IsForest parents
    → get_elem? parents i ≡ some p
    → i < n
    → top n parents i ≡ top n parents p
hop zero parents i p f e h = absurd (omega arith)
hop (suc n) parents i p f e h = elim (Bool-cases (p == i)) [
  | inl q ↦ let same : i ≡ p = ground arith in ap (top (suc n) parents) same
  | inr q ↦
      let below : p ≤ i = f i p e in
      rw (e, q) (top_more n (suc n) parents p f (ground arith) (ground arith))
]

pub get_in_range : (parents : List ℕ) (i p : ℕ) → get_elem? parents i ≡ some p → i < length parents
get_in_range [] i p h = cc
get_in_range (x ∷ xs) zero p h = omega arith
get_in_range (x ∷ xs) (suc i) p h = omega (arith, get_in_range xs i p h)

get_set : (parents : List ℕ) (at v p : ℕ) → get_elem? (set parents at v) at ≡ some p → v ≡ p
get_set [] at v p h = cc
get_set (x ∷ xs) zero v p h = ground arith
get_set (x ∷ xs) (suc at) v p h = get_set xs at v p h

pub set-IsForest :
    (parents : List ℕ) (at v : ℕ) → v ≤ at → IsForest parents → IsForest (set parents at v)
set-IsForest parents at v k f i p h = elim (Bool-cases (at == i)) [
  | inl q ↦
      let same : at ≡ i = ground arith in
      let value : v ≡ p =
        get_set parents at v p
          (subst (λ j. get_elem? (set parents at v) j ≡ some p) (sym same) h) in
      omega arith
  | inr q ↦ f i p (sym (get_elem?-set_ne parents at i v (ground arith)) ∙ h)
]

pub label_halved :
    (n : ℕ) (parents : List ℕ) (at parent grandparent i : ℕ)
    → IsForest parents
    → get_elem? parents at ≡ some parent
    → (parent == at) ≡ false
    → get_elem? parents parent ≡ some grandparent
    → i < n
    → top n (set parents at grandparent) i ≡ top n parents i
label_halved zero parents at parent grandparent i f a b c h = absurd (omega arith)
label_halved (suc n) parents at parent grandparent i f a b c h =
    let up : parent ≤ at = f at parent a in
    let higher : grandparent ≤ parent = f parent grandparent c in
    elim (Bool-cases (at == i)) [
      | inl q ↦
          let same : at ≡ i = ground arith in
          let here : get_elem? parents i ≡ some parent =
            subst (λ j. get_elem? parents j ≡ some parent) same a in
          let written : get_elem? (set parents at grandparent) i ≡ some grandparent =
            subst (λ j. get_elem? (set parents at grandparent) j ≡ some grandparent) same
              (get_elem?-set_self parents at grandparent (get_in_range parents at parent a)) in
          let apart : (grandparent == i) ≡ false = ground arith in
          let other : (parent == i) ≡ false = ground arith in
          rw (written, apart, here, other)
            (label_halved n parents at parent grandparent grandparent f a b c (ground arith)
              ∙ sym (hop n parents parent grandparent f c (ground arith)))
      | inr q ↦
          let kept : get_elem? (set parents at grandparent) i ≡ get_elem? parents i =
            get_elem?-set_ne parents at i grandparent (ground arith) in
          elim (Option-cases (get_elem? parents i)) [
            | inl e ↦ rw (kept, e) refl
            | inr (p, e) ↦ elim (Bool-cases (p == i)) [
              | inl r ↦ rw (kept, e, r) refl
              | inr r ↦
                  let below : p ≤ i = f i p e in
                  rw (kept, e, r)
                    (label_halved n parents at parent grandparent p f a b c (ground arith))
            ]
          ]
    ]
