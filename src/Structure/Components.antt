-- ===== src/Structure/Components.antt =====
-- structure/duplication.rs, `Components`: the union of similar functions, by parents that are halved on
-- the way to a root. The loop of `root` runs on fuel, one more than the index, which is enough as no
-- parent is above its child.
pub mod Labels
pub mod Linked
pub mod Runs
use rust_doctor.Prelude.{
  ℕ, zero, suc, ◌+◌, Bool, true, false, Option, none, some, List, [], ◌∷◌, leb, ◌==◌, if◌then◌else◌,
  get_elem?, set, unwrap_or,
}

-- `(0..size).collect()`, from a start.
abbrev pub indices : ℕ → ℕ → List ℕ
indices from zero = []
indices from (suc n) = from ∷ indices (suc from) n

-- `Components::new`.
unfoldable pub new : ℕ → List ℕ
new size = indices 0 size

-- The loop of `Components::root`: the root, and the parents that are left.
unfoldable pub root_from : ℕ → List ℕ → ℕ → ℕ × List ℕ
root_from zero parents index = (index, parents)
root_from (suc fuel) parents index = elim (get_elem? parents index) [
  | none ↦ (index, parents)
  | some parent ↦ elim (parent == index) [
    | true ↦ (index, parents)
    | false ↦
        let grandparent = unwrap_or (get_elem? parents parent) parent in
        root_from fuel (set parents index grandparent) grandparent
  ]
]

unfoldable pub root : List ℕ → ℕ → ℕ × List ℕ
unfolding root_from
root parents index = root_from (suc index) parents index

-- `Components::link`.
unfoldable pub link : List ℕ → ℕ → ℕ → List ℕ
unfolding root
link parents left right =
    let (l, first) = root parents left in
    let (r, second) = root first right in if leb l r then set second r l else set second l r

abbrev pub link_all : List ℕ → List (ℕ × ℕ) → List ℕ
link_all parents [] = parents
link_all parents ((left, right) ∷ links) = link_all (link parents left right) links
