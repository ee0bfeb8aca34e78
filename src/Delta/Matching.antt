-- ===== src/Delta/Matching.antt =====
-- delta.rs, from `Candidate` to `into_report`: the pairing of the findings of a base with the
-- current findings. A fingerprint is the list of its bytes; `baseline` and `current` are passed to
-- each step instead of being borrowed by `Matching`.
use rust_doctor.Prelude.{
  ℕ, suc, Bool, true, false, Option, none, some, List, [], ◌∷◌, ◌++◌, Ord, option_ord, list_ord,
  pair_ord, nat_ord, length, get_elem?, set, replicate, is_some, is_none, and_then, if◌then◌else◌,
}
use rust_doctor.BTree.{Map, entry, modify, values}
use rust_doctor.Report.{Text, DiagnosticSource, source_ord, Diagnostic}
use rust_doctor.Delta.Nearest.{Slot, insert_slot, remove_slot, nearest, sort_slots}

pub record Candidate : Type 0 where
  pub diagnostic : Diagnostic
  pub fingerprint : Option Text
  pub place : Option Text
  pub line : ℕ

-- The tuple (source, code, message), in the derived order of `FallbackKey`.
abbrev pub FallbackKey : Type 0
FallbackKey = DiagnosticSource × (Option Text × Text)

unfoldable pub fallback : Candidate → FallbackKey
fallback c = (c.diagnostic.source, (c.diagnostic.code, c.diagnostic.message))

abbrev pub PlaceKey : Type 0
PlaceKey = Option Text × FallbackKey

abbrev pub RuleKey : Type 0
RuleKey = Option Text × (DiagnosticSource × Option Text)

unfoldable pub same_path_stable : Candidate → Option (Option Text × Text)
same_path_stable c = and_then c.fingerprint (λ f. some (c.place, f))

unfoldable pub same_path_unproven : Candidate → Option PlaceKey
unfolding fallback
same_path_unproven c = if is_none c.fingerprint then some (c.place, fallback c) else none

unfoldable pub same_path_proven : Candidate → Option PlaceKey
unfolding fallback
same_path_proven c = if is_some c.fingerprint then some (c.place, fallback c) else none

unfoldable pub same_path_fallback : Candidate → Option PlaceKey
unfolding fallback
same_path_fallback c = some (c.place, fallback c)

unfoldable pub same_rule : Candidate → Option RuleKey
same_rule c = some (c.place, (c.diagnostic.source, c.diagnostic.code))

unfoldable pub moved_stable : Candidate → Option Text
moved_stable c = c.fingerprint

-- The two vectors of `Matching`, and the pairs `made` by the pass that runs.
pub record Matching : Type 0 where
  pub consumed : List Bool
  pub matched : List (Option ℕ)

pub record Pass : Type 0 where
  pub flags : Matching
  pub open flags use *
  pub made : List (ℕ × ℕ)

unfoldable pub new : List Candidate → List Candidate → Matching
new baseline current = record {
  consumed = replicate (length baseline) false;
  matched = replicate (length current) none;
}

-- The two guards of `pass`: the finding is not paired yet.
abbrev pub is_false : Option Bool → Bool
is_false (some false) = true
is_false (some true) = false
is_false none = false

unfoldable pub unconsumed : List Bool → ℕ → Bool
unconsumed consumed i = is_false (get_elem? consumed i)

abbrev pub is_unset : Option (Option ℕ) → Bool
is_unset (some none) = true
is_unset (some (some b)) = false
is_unset none = false

unfoldable pub unmatched : List (Option ℕ) → ℕ → Bool
unmatched matched i = is_unset (get_elem? matched i)

abbrev pub Group : Type 0
Group = List Slot × List Slot

module _ {K : Type 0} ⦃o : Ord K⦄ where
  -- One step of each of the two loops that fill `groups`.
  unfoldable pub add_base : Bool → Option K → Slot → Map K Group → Map K Group
  add_base true (some k) s groups = entry k ([], []) (λ g. (g.0 ++ s ∷ [], g.1)) groups
  add_base true none s groups = groups
  add_base false key s groups = groups

  unfoldable pub add_free : Bool → Option K → Slot → Map K Group → Map K Group
  add_free true (some k) s groups = modify k (λ g. (g.0, insert_slot s g.1)) groups
  add_free true none s groups = groups
  add_free false key s groups = groups

  unfoldable pub collect_bases :
      (Candidate → Option K) → List Bool → ℕ → List Candidate → Map K Group → Map K Group
  unfolding add_base unconsumed
  collect_bases key consumed i [] groups = groups
  collect_bases key consumed i (c ∷ cs) groups =
      collect_bases key consumed (suc i) cs
        (add_base (unconsumed consumed i) (key c) (c.line, i) groups)

  unfoldable pub collect_free :
      (Candidate → Option K) → List (Option ℕ) → ℕ → List Candidate → Map K Group → Map K Group
  unfolding add_free unmatched
  collect_free key matched i [] groups = groups
  collect_free key matched i (c ∷ cs) groups =
      collect_free key matched (suc i) cs
        (add_free (unmatched matched i) (key c) (c.line, i) groups)

-- The two writes and the push of one pairing.
unfoldable pub mark : ℕ → ℕ → Pass → Pass
mark b c p = record {
  flags = record { consumed = set p.consumed b true; matched = set p.matched c (some b) };
  made = p.made ++ (b, c) ∷ [];
}

-- The loop over one group's bases: it breaks when no free finding is left.
unfoldable pub pair_group : List Slot → List Slot → Pass → Pass
unfolding nearest remove_slot mark
pair_group [] free p = p
pair_group ((line, b) ∷ bases) free p = elim (nearest free line) [
  | none ↦ p
  | some n ↦ pair_group bases (remove_slot n free) (mark b n.1 p)
]

unfoldable pub pair_groups : List Group → Pass → Pass
unfolding pair_group sort_slots
pair_groups [] p = p
pair_groups ((bases, free) ∷ groups) p = pair_groups groups (pair_group (sort_slots bases) free p)

module _ {K : Type 0} ⦃o : Ord K⦄ (baseline current : List Candidate) where
  unfoldable pub groups_of :
      (Candidate → Option K) → (Candidate → Option K) → Matching → Map K Group
  unfolding collect_bases collect_free
  groups_of baseline_key current_key m =
      collect_free current_key m.matched 0 current
        (collect_bases baseline_key m.consumed 0 baseline [])

  unfoldable pub pass : (Candidate → Option K) → (Candidate → Option K) → Matching → Pass
  unfolding groups_of pair_groups
  pass baseline_key current_key m =
      pair_groups (values (groups_of baseline_key current_key m)) (record { flags = m; made = [] })
