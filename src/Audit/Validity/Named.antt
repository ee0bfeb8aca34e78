-- ===== src/Audit/Validity/Named.antt =====
-- audit.rs, `aggregate_rules`: the names of its rules.
use rust_doctor.Prelude.{
  ℕ, ◌≡◌, Bool, false, Option, none, some, List, [], ◌∷◌, map, arith, is_empty, Every, Option-cases,
  inl, inr, list_ord, nat_ord,
}
use rust_doctor.BTree.{values, Every-entry}
use rust_doctor.Report.{Text, Diagnostic}
use rust_doctor.Audit.Float.{Float}
use rust_doctor.Audit.Model.{AuditCategoryName, ScoreDimension}
use rust_doctor.Audit.Density.{RuleAggregate}
use rust_doctor.Audit.Aggregate.{
  Catalog, PendingRule, new_rule, weigh_in, update_rule, named_code, Pending, aggregate_one,
  aggregate_all, settle, with_contributions, aggregate_rules,
}
use rust_doctor.Audit.Validity.Projected.{IsNamed}

abbrev HasName : PendingRule → Type 0
HasName r = is_empty r.id ≡ false

weigh_in-id :
    (c : AuditCategoryName) (d : ScoreDimension) (w : ℕ) (b : Bool) (r : PendingRule)
    → (weigh_in c d w b r).id ≡ r.id
unfolding weigh_in
weigh_in-id c d w b r = ground arith

update_rule-id : (diagnostic : Diagnostic) (r : PendingRule) → (update_rule diagnostic r).id ≡ r.id
unfolding update_rule
update_rule-id diagnostic r = ground arith

named_code-nonempty :
    (code : Option Text) (id : Text) → named_code code ≡ some id → is_empty id ≡ false
named_code-nonempty none id h = cc
named_code-nonempty (some []) id h = cc
named_code-nonempty (some (c ∷ cs)) id h = ground arith

module _ (catalog : Catalog) where
  aggregate_one-Every :
      (diagnostic : Diagnostic) (p : Pending)
      → Every HasName (values p.rules)
      → Every HasName (values (aggregate_one catalog diagnostic p).rules)
  unfolding aggregate_one new_rule
  aggregate_one-Every diagnostic p h = elim (Option-cases (named_code diagnostic.code)) [
    | inl e ↦ rw (e, aggregate_one) h
    | inr (id, e) ↦
        rw (e, aggregate_one)
          (Every-entry HasName id (new_rule catalog id diagnostic.severity) (update_rule diagnostic)
            p.rules h
            (rw (update_rule-id diagnostic (new_rule catalog id diagnostic.severity))
              (named_code-nonempty diagnostic.code id e))
            (λ r k. rw (update_rule-id diagnostic r) k))
  ]

  aggregate_all-Every :
      (ds : List Diagnostic) (p : Pending)
      → Every HasName (values p.rules)
      → Every HasName (values (aggregate_all catalog ds p).rules)
  unfolding aggregate_all
  aggregate_all-Every [] p h = h
  aggregate_all-Every (d ∷ ds) p h =
      aggregate_all-Every ds (aggregate_one catalog d p) (aggregate_one-Every d p h)

settle-Every : (rs : List PendingRule) → Every HasName rs → Every IsNamed (map settle rs)
unfolding settle
settle-Every [] h = tt
settle-Every (r ∷ rs) h = (h.0, settle-Every rs h.1)

with_contributions-Every :
    (rs : List RuleAggregate) (ns : List ℕ)
    → Every IsNamed rs
    → Every IsNamed (with_contributions rs ns)
unfolding with_contributions
with_contributions-Every [] ns h = tt
with_contributions-Every (r ∷ rs) [] h = h
with_contributions-Every (r ∷ rs) (n ∷ ns) h = (h.0, with_contributions-Every rs ns h.1)

pub aggregate_rules-IsNamed :
    (f : Float) (catalog : Catalog) (lines members : ℕ) (ds : List Diagnostic)
    → Every IsNamed (aggregate_rules f catalog lines members ds).rules
unfolding aggregate_rules
aggregate_rules-IsNamed f catalog lines members ds =
    with_contributions-Every _ _ (settle-Every _ (aggregate_all-Every catalog ds _ tt))
