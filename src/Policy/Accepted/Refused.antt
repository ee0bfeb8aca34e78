-- ===== src/Policy/Accepted/Refused.antt =====
-- policy.rs, `accepted`: what the levels of accepted overrides are, and why overrides are refused.
use rust_doctor.Prelude.{
  ◌≡◌, refl, ◌⊎◌, inl, inr, Bool, true, false, not, ◌&&◌, Option, none, some, List, [], ◌∷◌, ◌++◌,
  arith, if◌then◌else◌, any, all, is_some, same, same_iff, list_ord, nat_ord, Result, ok, err, or,
  Every, is_none, subst, sym, ◌∙◌, Bool-cases, Option-cases, Result-cases, ap,
}
use rust_doctor.BTree.{get, entry, get-entry}
use rust_doctor.Report.{Text}
use rust_doctor.Policy.Levels.{RuleLevel, Override}
use rust_doctor.Policy.Accepted.{PolicyError, Levels, accept, accepted}

-- The level that the overrides give a selector, first come first.
abbrev pub level_for : Text → List Override → Option RuleLevel
level_for s [] = none
level_for s (o ∷ os) = let rest = level_for s os in if same s o.selector then some o.level else rest

or_none : (x : Option RuleLevel) → or x none ≡ x
or_none none = refl
or_none (some l) = refl

abbrev pub distinct : List Override → Bool
distinct [] = true
distinct (o ∷ os) = let rest = distinct os in not (any (λ p. same p.selector o.selector) os) && rest

-- A level that is written for a selector that has none.
or-entry :
    (s : Text) (o : Override) (held : Levels) (later : Option RuleLevel)
    → get o.selector held ≡ none
    → or (get s (entry o.selector o.level (λ old. o.level) held)) later
      ≡ or (get s held) (if same s o.selector then some o.level else later)
or-entry s o held later h = elim (Bool-cases (same s o.selector)) [
  | inl e ↦
      let q : s ≡ o.selector = (same_iff s o.selector).0 e in
      rw (get-entry s o.selector o.level (λ old. o.level) held, e, q, h) refl
  | inr e ↦ rw (get-entry s o.selector o.level (λ old. o.level) held, e) refl
]

module _ (well_formed : Text → Result PolicyError (Unit {0})) (known : Text → Bool)
    (unknown duplicate : PolicyError) where
  abbrev pub IsGood : Override → Type 0
  IsGood o = (well_formed o.selector ≡ ok tt) × (known o.selector ≡ true)

  -- The overrides before the one that is refused, and why it is.
  pub record Refusal (overrides : List Override) (held : Levels) (e : PolicyError) : Type 0 where
    pub before : List Override
    pub refused : Override
    pub after : List Override
    pub splits : overrides ≡ before ++ refused ∷ after
    pub earlier : Every IsGood before
    pub reason :
        (well_formed refused.selector ≡ err e)
        ⊎ (((known refused.selector ≡ false) × (e ≡ unknown))
            ⊎ ((is_some (or (get refused.selector held) (level_for refused.selector before)) ≡ true)
                × (e ≡ duplicate)))

  abbrev pub Verdict : Text → List Override → Levels → Result PolicyError Levels → Type 0
  Verdict s os held (err e) = Refusal os held e
  Verdict s os held (ok m) =
      Every IsGood os
      × (all (λ o. is_none (get o.selector held)) os && distinct os ≡ true)
      × (get s m ≡ or (get s held) (level_for s os))

  fresh-entry :
      (o : Override) (os : List Override) (held : Levels)
      → get o.selector held ≡ none
      → all (λ p. is_none (get p.selector (entry o.selector o.level (λ old. o.level) held))) os
        ≡ true
      → (all (λ p. is_none (get p.selector held)) os ≡ true)
        × (any (λ p. same p.selector o.selector) os ≡ false)
  fresh-entry o [] held h k = (refl, refl)
  fresh-entry o (p ∷ os) held h k = elim (Bool-cases (same p.selector o.selector)) [
    | inl e ↦
        absurd (ground (arith, get-entry p.selector o.selector o.level (λ old. o.level) held, e))
    | inr e ↦ ground (
      arith,
      get-entry p.selector o.selector o.level (λ old. o.level) held,
      e,
      fresh-entry o os held h,
    )
  ]

  push :
      (s : Text) (o : Override) (os : List Override) (held : Levels) (r : Result PolicyError Levels)
      → IsGood o
      → get o.selector held ≡ none
      → Verdict s os (entry o.selector o.level (λ old. o.level) held) r
      → Verdict s (o ∷ os) held r
  push s o os held (err e) good h v = record {
    before = o ∷ v.before;
    refused = v.refused;
    after = v.after;
    splits = ap (λ x. o ∷ x) v.splits;
    earlier = (good, v.earlier);
    reason = elim v.reason [
      | inl q ↦ inl q
      | inr (inl q) ↦ inr (inl q)
      | inr (inr (q, d)) ↦ inr (
          inr (
            subst (λ x. is_some x ≡ true)
                (or-entry v.refused.selector o held (level_for v.refused.selector v.before) h) q,
            d,
          ))
    ];
  }
  push s o os held (ok m) good h (every, fresh, lookup) = (
    (good, every),
    ground (arith, fresh-entry o os held h, h),
    lookup ∙ or-entry s o held (level_for s os) h,
  )

  accept-Verdict :
      (os : List Override) (held : Levels) (s : Text)
      → Verdict s os held (accept well_formed known unknown duplicate os held)
  unfolding accept
  accept-Verdict [] held s = (tt, refl, sym (or_none (get s held)))
  accept-Verdict (o ∷ os) held s = elim (Result-cases (well_formed o.selector)) [
    | inl (e, w) ↦
        rw (w, accept)
          (record {
            before = [];
            refused = o;
            after = os;
            splits = refl;
            earlier = tt;
            reason = inl w;
          })
    | inr (u, w) ↦ elim (Bool-cases (known o.selector)) [
      | inr k ↦
          rw (w, k, accept)
            (record {
              before = [];
              refused = o;
              after = os;
              splits = refl;
              earlier = tt;
              reason = inr (inl (k, refl));
            })
      | inl k ↦ elim (Option-cases (get o.selector held)) [
        | inr (l, g) ↦
            rw (w, k, g, accept)
              (record {
                before = [];
                refused = o;
                after = os;
                splits = refl;
                earlier = tt;
                reason = inr (inr (rw g refl, refl));
              })
        | inl g ↦ rw (w, k, g, accept) (push s o os held _ (w, k) g (accept-Verdict os _ s))
      ]
    ]
  ]

  -- Overrides are accepted with levels, and then every selector is well formed and known, no
  -- selector is there twice, and the level of a selector is that of its override; or they are
  -- refused with an error, and then the overrides before some override are well formed and known,
  -- and that override is not well formed, with the error of the test, is not known, or has a
  -- selector that was there before, with the errors given for these.
  pub accepted-Verdict :
      (overrides : List Override) (s : Text)
      → Verdict s overrides [] (accepted well_formed known unknown duplicate overrides)
  unfolding accepted
  accepted-Verdict overrides s = accept-Verdict overrides [] s
