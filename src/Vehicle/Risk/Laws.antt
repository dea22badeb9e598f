-- ===== src/Vehicle/Risk/Laws.antt =====
-- What the score of a risk assessment is, and what a tier takes.
use mathlib.Core.List.{Permᴰ}
use vahan.Prelude.{
  ℕ, ◌+◌, ◌*◌, ◌≤◌, ◌<◌, min, max, String, ◌≡◌, refl, sym, ◌∙◌, ap, Bool, true, false, Option, List,
  [], ◌∷◌, ◌++◌, map, length, ltb, nat_eq, if◌then◌else◌, Bool-cases, ◌⊎◌, inl, inr, arith,
}
use vahan.Prelude.Int.{ℤ}
use vahan.Js.Json.{Fields, obj}
use vahan.Js.Casing.{Casing}
use vahan.Vehicle.Risk.{
  WeightedRiskFactor, Found, push_when, reduce, baseline, found_in, assess,
  build_weighted_risk_assessment, is_true, is_false, permit_valid, insurance_valid, fitness_valid,
  violation_count, blacklisted, sort, risk_tier_from_score, high,
}
use vahan.Vehicle.Risk.Order.{IsDescending, sort-Perm, sort-IsDescending}

reduce-add : (acc : ℕ) (fs : List WeightedRiskFactor) → reduce acc fs ≡ acc + reduce 0 fs
reduce-add acc [] = ground arith
reduce-add acc (f ∷ fs) =
    ground (arith, reduce-add (acc + f.contribution) fs, reduce-add (0 + f.contribution) fs)

reduce-snoc :
    (acc : ℕ) (fs : List WeightedRiskFactor) (f : WeightedRiskFactor)
    → reduce acc (fs ++ (f ∷ [])) ≡ reduce acc fs + f.contribution
reduce-snoc acc [] f = refl
reduce-snoc acc (g ∷ fs) f = reduce-snoc (acc + g.contribution) fs f

length-snoc :
    (fs : List WeightedRiskFactor) (f : WeightedRiskFactor)
    → length (fs ++ (f ∷ [])) ≡ length fs + 1
length-snoc [] f = refl
length-snoc (g ∷ fs) f = ground (arith, length-snoc fs f)

-- One for a test that holds.
abbrev pub count : Bool → ℕ
count true = 1
count false = 0

reduce-push_when :
    (b : Bool) (f : WeightedRiskFactor) (s : String) (found : Found)
    → reduce 0 (push_when b f s found).factors ≡ reduce 0 found.factors + f.contribution * count b
reduce-push_when true f s found = rw (reduce-snoc 0 found.factors f) (ground arith)
reduce-push_when false f s found = ground arith

length-push_when :
    (b : Bool) (f : WeightedRiskFactor) (s : String) (found : Found)
    → length (push_when b f s found).factors ≡ length found.factors + count b
length-push_when true f s found = length-snoc found.factors f
length-push_when false f s found = ground arith

count-violations : (n : ℕ) → min 22 (n * 4) * count (ltb 0 n) ≡ min 22 (4 * n)
count-violations n = elim (Bool-cases (ltb 0 n)) [
  | inl e ↦ rw e (ground arith)
  | inr e ↦ rw e (ground arith)
]

count-positive : (n : ℕ) → count (ltb 0 n) ≡ min 1 n
count-positive n = elim (Bool-cases (ltb 0 n)) [
  | inl e ↦ rw e (ground arith)
  | inr e ↦ rw e (ground arith)
]

count-bound : (b : Bool) → count b ≤ 1
count-bound true = omega arith
count-bound false = omega arith

baseline-cases : (n : ℕ) → (baseline n ≡ 8) × (n ≡ 0) ⊎ (baseline n ≡ 0) × (1 ≤ n)
baseline-cases n = elim (Bool-cases (nat_eq n 0)) [
  | inl e ↦ inl (rw e refl, ground arith)
  | inr e ↦ inr (rw e refl, ground arith)
]

-- The points of five findings with their baseline stay below 100, and below 67 with three.
points-bounds :
    (p i f v b n : ℕ)
    → p ≤ 1
    → i ≤ 1
    → f ≤ 1
    → b ≤ 1
    → n ≡ p + i + f + min 1 v + b
    → let total = baseline n + (24 * p + 20 * i + 18 * f + min 22 (4 * v) + 16 * b) in
      (total ≤ 100) × (67 ≤ total → 4 ≤ n)
points-bounds p i f v b n hp hi hf hb hn = elim (baseline-cases n) [
  | inl (e, z) ↦ rw e (omega arith, λ h. omega arith)
  | inr (e, z) ↦ rw e (omega arith, λ h. omega arith)
]

clamp-add : (base s t : ℕ) → s ≡ t → base + t ≤ 100 → min 100 (max 0 (s + base)) ≡ base + t
clamp-add base s t e h = omega arith

high-score : (n : ℕ) → risk_tier_from_score n ≡ high → 67 ≤ n
unfolding risk_tier_from_score
high-score n h = ground arith

one_violation_points :
    (p i f v b : ℕ)
    → p + i + f + min 1 v + b ≡ 1
    → v ≡ 1
    → 24 * p + 20 * i + 18 * f + min 22 (4 * v) + 16 * b ≡ 4
one_violation_points p i f v b h e = omega arith

if-positive : {A : Type 0} (x y : A) (n : ℕ) → 1 ≤ n → (if ltb 0 n then x else y) ≡ x
if-positive x y n h = ground arith

if-zero : {A : Type 0} (x y : A) (n : ℕ) → n ≡ 0 → (if ltb 0 n then x else y) ≡ y
if-zero x y n h = rw h refl

module _ (cs : Casing) (number : String → Option ℤ) (snapshot : Fields) where
  -- The five findings of a snapshot.
  abbrev pub no_permit : ℕ
  no_permit = count (is_false (permit_valid cs number snapshot))

  abbrev pub no_insurance : ℕ
  no_insurance = count (is_false (insurance_valid cs number snapshot))

  abbrev pub no_fitness : ℕ
  no_fitness = count (is_false (fitness_valid cs number snapshot))

  abbrev pub violations : ℕ
  violations = violation_count cs number snapshot

  abbrev pub enforced : ℕ
  enforced = count (is_true (blacklisted cs number snapshot))

  -- The number of findings.
  abbrev pub findings : ℕ
  findings = no_permit + no_insurance + no_fitness + min 1 violations + enforced

  -- What the findings contribute.
  abbrev pub points : ℕ
  points =
      24 * no_permit + 20 * no_insurance + 18 * no_fitness + min 22 (4 * violations) + 16 * enforced

  reduce-found_in : reduce 0 (found_in cs number snapshot).factors ≡ points
  unfolding found_in
  reduce-found_in =
      rw
        (
          reduce-push_when (is_true (blacklisted cs number snapshot)),
          reduce-push_when (ltb 0 (violation_count cs number snapshot)),
          reduce-push_when (is_false (fitness_valid cs number snapshot)),
          reduce-push_when (is_false (insurance_valid cs number snapshot)),
          reduce-push_when (is_false (permit_valid cs number snapshot)),
        )
        (rw (count-violations (violation_count cs number snapshot)) (omega arith))

  length-found_in : length (found_in cs number snapshot).factors ≡ findings
  unfolding found_in
  length-found_in =
      rw
        (
          length-push_when (is_true (blacklisted cs number snapshot)),
          length-push_when (ltb 0 (violation_count cs number snapshot)),
          length-push_when (is_false (fitness_valid cs number snapshot)),
          length-push_when (is_false (insurance_valid cs number snapshot)),
          length-push_when (is_false (permit_valid cs number snapshot)),
        )
        (rw (count-positive (violation_count cs number snapshot)) (omega arith))

  findings-bounds :
      (baseline findings + points ≤ 100) × (67 ≤ baseline findings + points → 4 ≤ findings)
  findings-bounds =
      points-bounds no_permit no_insurance no_fitness violations enforced findings (count-bound _)
        (count-bound _) (count-bound _) (count-bound _) refl

  score-assess : (assess (found_in cs number snapshot)).score ≡ baseline findings + points
  unfolding assess
  score-assess =
      rw length-found_in
        (clamp-add (baseline findings) _ points reduce-found_in (findings-bounds.0))

  -- The score of a snapshot: eight without a finding, otherwise the sum of what the findings
  -- contribute. It is at most 100, and the cut at 100 changes nothing.
  pub score-build_weighted_risk_assessment :
      ((build_weighted_risk_assessment cs number (obj snapshot)).score ≡ baseline findings + points)
      × ((build_weighted_risk_assessment cs number (obj snapshot)).score ≤ 100)
  unfolding build_weighted_risk_assessment
  score-build_weighted_risk_assessment = (score-assess, rw score-assess (findings-bounds.0))

  -- A snapshot is a high risk only with four of the five findings or more.
  pub high-findings :
      risk_tier_from_score (build_weighted_risk_assessment cs number (obj snapshot)).score ≡ high
      → 4 ≤ findings
  high-findings h =
      findings-bounds.1
        (high-score _ (ap risk_tier_from_score (sym score-build_weighted_risk_assessment.0) ∙ h))

  -- The factors are as many as the findings, and the reasons are theirs, the largest contribution
  -- first; without a finding there is one reason, which says so.
  pub reasons-build_weighted_risk_assessment :
      let a = build_weighted_risk_assessment cs number (obj snapshot) in
      (length a.factors ≡ findings)
      × ((1 ≤ findings
          → (fs : List WeightedRiskFactor) × Permᴰ fs a.factors
            × IsDescending fs
            × (a.reasons ≡ map (λ f. f.reason) fs)))
      × (findings ≡ 0 → a.reasons ≡ ("No high-risk factors found in snapshot." ∷ []))
  unfolding build_weighted_risk_assessment assess
  reasons-build_weighted_risk_assessment = (
    length-found_in,
    λ h. (
      sort fs,
      sort-Perm fs,
      sort-IsDescending fs,
      if-positive _ _ (length fs) (rw length-found_in h),
    ),
    λ h. if-zero _ _ (length fs) (length-found_in ∙ h),
  )
    where
      fs : List WeightedRiskFactor
      fs = (found_in cs number snapshot).factors

-- A snapshot with one violation and nothing else scores lower than one without any finding.
pub one_violation-clean :
    (cs : Casing) (number : String → Option ℤ) (dirty clean : Fields)
    → findings cs number clean ≡ 0
    → findings cs number dirty ≡ 1
    → violations cs number dirty ≡ 1
    → (build_weighted_risk_assessment cs number (obj dirty)).score
      < (build_weighted_risk_assessment cs number (obj clean)).score
one_violation-clean cs number dirty clean none_found one v =
    let (score, bound) = score-build_weighted_risk_assessment cs number dirty in
    let (score', bound') = score-build_weighted_risk_assessment cs number clean in
    rw
      (
        score,
        score',
        none_found,
        one,
        one_violation_points _ _ _ (violations cs number dirty) _ one v,
      )
      (omega arith)
