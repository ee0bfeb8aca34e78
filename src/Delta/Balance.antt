-- ===== src/Delta/Balance.antt =====
-- delta.rs: the two vectors of `Matching` against each other.
use rust_doctor.Prelude.{
  ℕ, zero, suc, ◌+◌, ◌≡◌, refl, Bool, true, false, Option, none, some, List, [], ◌∷◌, arith, ◌==◌,
  if◌then◌else◌, set, length, get_elem?, replicate,
}
use rust_doctor.Delta.Matching.{Candidate, Matching, Pass, new, unconsumed, unmatched, mark}
use rust_doctor.Delta.Occurrences.{one_if}

-- How many current findings name the base `b`.
abbrev pub hits : ℕ → List (Option ℕ) → ℕ
hits b [] = 0
hits b (none ∷ ms) = hits b ms
hits b (some a ∷ ms) = one_if (a == b) + hits b ms

abbrev pub is_taken : Option Bool → Bool
is_taken (some true) = true
is_taken (some false) = false
is_taken none = false

abbrev pub taken : ℕ → List Bool → Bool
taken b consumed = is_taken (get_elem? consumed b)

abbrev pub count_taken : List Bool → ℕ
count_taken [] = 0
count_taken (b ∷ bs) = one_if b + count_taken bs

abbrev pub count_named : List (Option ℕ) → ℕ
count_named [] = 0
count_named (none ∷ ms) = count_named ms
count_named (some a ∷ ms) = suc (count_named ms)

pub record Balanced (m : Matching) : Type 0 where
  pub once : (b : ℕ) → hits b m.matched ≡ one_if (taken b m.consumed)
  pub counts : count_named m.matched ≡ count_taken m.consumed

pub unconsumed-set :
    (consumed : List Bool) (b i : ℕ)
    → unconsumed (set consumed b true) i ≡ (if b == i then false else unconsumed consumed i)
unfolding unconsumed
unconsumed-set [] b i = ground arith
unconsumed-set (x ∷ xs) zero zero = refl
unconsumed-set (x ∷ xs) zero (suc i) = ground arith
unconsumed-set (x ∷ xs) (suc b) zero = ground arith
unconsumed-set (x ∷ xs) (suc b) (suc i) = ground (arith, unconsumed-set xs b i)

pub unmatched-set :
    (matched : List (Option ℕ)) (c b i : ℕ)
    → unmatched (set matched c (some b)) i ≡ (if c == i then false else unmatched matched i)
unfolding unmatched
unmatched-set [] c b i = ground arith
unmatched-set (x ∷ xs) zero b zero = refl
unmatched-set (x ∷ xs) zero b (suc i) = ground arith
unmatched-set (x ∷ xs) (suc c) b zero = ground arith
unmatched-set (x ∷ xs) (suc c) b (suc i) = ground (arith, unmatched-set xs c b i)

hits-set :
    (matched : List (Option ℕ)) (c b a : ℕ)
    → unmatched matched c ≡ true
    → hits a (set matched c (some b)) ≡ hits a matched + one_if (b == a)
unfolding unmatched
hits-set [] c b a h = cc
hits-set (none ∷ ms) zero b a h = ground arith
hits-set (some x ∷ ms) zero b a h = cc
hits-set (none ∷ ms) (suc c) b a h = hits-set ms c b a h
hits-set (some x ∷ ms) (suc c) b a h = ground (arith, hits-set ms c b a h)

count_named-set :
    (matched : List (Option ℕ)) (c b : ℕ)
    → unmatched matched c ≡ true
    → count_named (set matched c (some b)) ≡ suc (count_named matched)
unfolding unmatched
count_named-set [] c b h = cc
count_named-set (none ∷ ms) zero b h = refl
count_named-set (some x ∷ ms) zero b h = cc
count_named-set (none ∷ ms) (suc c) b h = count_named-set ms c b h
count_named-set (some x ∷ ms) (suc c) b h = ground (arith, count_named-set ms c b h)

taken-set :
    (consumed : List Bool) (b a : ℕ)
    → unconsumed consumed b ≡ true
    → one_if (taken a (set consumed b true)) ≡ one_if (taken a consumed) + one_if (b == a)
unfolding unconsumed
taken-set [] b a h = cc
taken-set (x ∷ xs) zero zero h = ground arith
taken-set (x ∷ xs) zero (suc a) h = ground arith
taken-set (x ∷ xs) (suc b) zero h = ground arith
taken-set (x ∷ xs) (suc b) (suc a) h = ground (arith, taken-set xs b a h)

count_taken-set :
    (consumed : List Bool) (b : ℕ)
    → unconsumed consumed b ≡ true
    → count_taken (set consumed b true) ≡ suc (count_taken consumed)
unfolding unconsumed
count_taken-set [] b h = cc
count_taken-set (true ∷ xs) zero h = cc
count_taken-set (false ∷ xs) zero h = omega arith
count_taken-set (x ∷ xs) (suc b) h = ground (arith, count_taken-set xs b h)

pub mark-Balanced :
    (b c : ℕ) (p : Pass)
    → unconsumed p.consumed b ≡ true
    → unmatched p.matched c ≡ true
    → Balanced p.flags
    → Balanced (mark b c p).flags
unfolding mark
mark-Balanced b c p hb hc bal = record {
  once = λ a. omega (arith, bal.once a, hits-set p.matched c b a hc, taken-set p.consumed b a hb);
  counts =
      omega (arith, bal.counts, count_named-set p.matched c b hc, count_taken-set p.consumed b hb);
}

hits-replicate : (b n : ℕ) → hits b (replicate n none) ≡ 0
hits-replicate b zero = refl
hits-replicate b (suc n) = hits-replicate b n

taken-replicate : (b n : ℕ) → one_if (taken b (replicate n false)) ≡ 0
taken-replicate b zero = refl
taken-replicate zero (suc n) = refl
taken-replicate (suc b) (suc n) = taken-replicate b n

count_named-replicate : (n : ℕ) → count_named (replicate n none) ≡ 0
count_named-replicate zero = refl
count_named-replicate (suc n) = count_named-replicate n

count_taken-replicate : (n : ℕ) → count_taken (replicate n false) ≡ 0
count_taken-replicate zero = refl
count_taken-replicate (suc n) = omega (arith, count_taken-replicate n)

pub new-Balanced : (baseline current : List Candidate) → Balanced (new baseline current)
unfolding new
new-Balanced baseline current = record {
  once = λ b. omega (arith, hits-replicate b (length current), taken-replicate b (length baseline));
  counts =
      omega
        (arith, count_named-replicate (length current), count_taken-replicate (length baseline));
}
