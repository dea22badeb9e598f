-- ===== src/Vehicle/Risk.antt =====
-- apps/api-nest/src/vehicle.service.ts: the weighted risk assessment of a compliance snapshot.
-- Counts are integers. `Number` on a text is a parameter that gives the integer it reads.
pub mod Laws
pub mod Order
use Prim.Native.String
use vahan.Prelude.{
  ℕ, zero, ◌+◌, ◌*◌, min, max, String, Bool, true, false, Option, none, some, or_else, is_some,
  List, [], ◌∷◌, ◌++◌, map, length, includes, leb, ltb, nat_eq, if◌then◌else◌,
}
use vahan.Prelude.Int.{ℤ, pos, pos_part}
use vahan.Js.Text.{trim, is_empty}
use vahan.Js.Json.{Json, Fields, bool, num, str, obj, get}
use vahan.Js.Casing.{Casing}
use vahan.Js.Show.{int_text}

pub data VehicleRiskTier : Type 0 where
  low medium high : VehicleRiskTier

unfoldable pub risk_tier_from_score : ℕ → VehicleRiskTier
risk_tier_from_score score = if leb score 33 then low else if leb score 66 then medium else high

pub record WeightedRiskFactor : Type 0 where
  pub key : String
  pub label : String
  pub weight : ℕ
  pub contribution : ℕ
  pub reason : String

-- The value at one path, if every step is a property of a plain record.
abbrev pub at_path : List String → Json → Option Json
at_path [] cur = some cur
at_path (key ∷ path) (obj fs) = elim (get key fs) [ none ↦ none | some v ↦ at_path path v ]
at_path (key ∷ path) cur = none

-- The first path that leads to a value decides, whatever that value is.
abbrev pub pick_nested_value : Fields → List (List String) → Option Json
pick_nested_value root [] = none
pick_nested_value root (path ∷ paths) = elim (at_path path (obj root)) [
  | none ↦ pick_nested_value root paths
  | some v ↦ some v
]

unfoldable pub as_finite_number : (String → Option ℤ) → Option Json → Option ℤ
as_finite_number number (some (num n)) = some n
as_finite_number number (some (str s)) = if is_empty (trim s) then none else number s
as_finite_number number _ = none

abbrev pub true_words : List String
true_words = "true" ∷ "yes" ∷ "1" ∷ "active" ∷ "valid" ∷ []

abbrev pub false_words : List String
false_words = "false" ∷ "no" ∷ "0" ∷ "inactive" ∷ "invalid" ∷ []

unfoldable pub as_boolean : Casing → Option Json → Option Bool
as_boolean cs (some (bool b)) = some b
as_boolean cs (some (str raw)) =
    let s = cs.lower (trim raw) in
    if includes true_words s then some true else if includes false_words s then some false else none
as_boolean cs _ = none

-- The two lists that the assessment fills.
pub record Found : Type 0 where
  pub factors : List WeightedRiskFactor
  pub signals : List String

abbrev pub maybe_push : Option WeightedRiskFactor → Option String → Found → Found
maybe_push none signal found = found
maybe_push (some f) none found = record found { factors = found.factors ++ (f ∷ []) }
maybe_push (some f) (some s) found = record {
  factors = found.factors ++ (f ∷ []);
  signals = found.signals ++ (s ∷ []);
}

abbrev pub when {ℓ} : {A : Type ℓ} → Bool → A → Option A
when true a = some a
when false a = none

abbrev pub push_when : Bool → WeightedRiskFactor → String → Found → Found
push_when b f s = maybe_push (when b f) (when b s)

-- `value === false`, `value === true`
abbrev pub is_false : Option Bool → Bool
is_false (some false) = true
is_false _ = false

abbrev pub is_true : Option Bool → Bool
is_true (some true) = true
is_true _ = false

abbrev pub permit_factor : WeightedRiskFactor
permit_factor = record {
  key = "permit_validity";
  label = "Permit validity";
  weight = 24;
  contribution = 24;
  reason = "Permit appears expired/invalid in compliance snapshot.";
}

abbrev pub insurance_factor : WeightedRiskFactor
insurance_factor = record {
  key = "insurance_validity";
  label = "Insurance validity";
  weight = 20;
  contribution = 20;
  reason = "Insurance appears lapsed/invalid.";
}

abbrev pub fitness_factor : WeightedRiskFactor
fitness_factor = record {
  key = "fitness_validity";
  label = "Fitness validity";
  weight = 18;
  contribution = 18;
  reason = "Fitness certificate appears invalid/expired.";
}

infixl 65 ◌<>◌
abbrev ◌<>◌ : String → String → String
s <> t = String.◌++◌ s t

abbrev pub violation_factor : ℕ → WeightedRiskFactor
violation_factor n = record {
  key = "violation_history";
  label = "Violation history";
  weight = 22;
  contribution = min 22 (n * 4);
  reason = "Vehicle has " <> int_text (pos n) <> " recorded violations/challans.";
}

abbrev pub enforcement_factor : WeightedRiskFactor
enforcement_factor = record {
  key = "enforcement_flags";
  label = "Enforcement flags";
  weight = 16;
  contribution = 16;
  reason = "Vehicle has blacklist/suspension enforcement signal.";
}

-- What the assessment reads of a snapshot.
module _ (cs : Casing) (number : String → Option ℤ) (snapshot : Fields) where
  abbrev pub permit_valid : Option Bool
  permit_valid = as_boolean cs (
      pick_nested_value snapshot (
        ("permit" ∷ "isValid" ∷ [])
        ∷ ("permit" ∷ "valid" ∷ [])
        ∷ ("permitStatus" ∷ "isValid" ∷ [])
        ∷ ("compliance" ∷ "permitValid" ∷ [])
        ∷ []))

  abbrev pub insurance_valid : Option Bool
  insurance_valid = as_boolean cs (
      pick_nested_value snapshot (
        ("insurance" ∷ "isValid" ∷ [])
        ∷ ("insurance" ∷ "valid" ∷ [])
        ∷ ("compliance" ∷ "insuranceValid" ∷ [])
        ∷ []))

  abbrev pub fitness_valid : Option Bool
  fitness_valid = as_boolean cs (
      pick_nested_value snapshot (
        ("fitness" ∷ "isValid" ∷ [])
        ∷ ("fitness" ∷ "valid" ∷ [])
        ∷ ("compliance" ∷ "fitnessValid" ∷ [])
        ∷ []))

  abbrev pub violation_count : ℕ
  violation_count = pos_part (
      or_else
        (as_finite_number number (
          pick_nested_value snapshot (
            ("violations" ∷ "count" ∷ [])
            ∷ ("challan" ∷ "count" ∷ [])
            ∷ ("challanCount" ∷ [])
            ∷ ("penaltyCount" ∷ [])
            ∷ [])))
        (pos 0))

  abbrev pub blacklisted : Option Bool
  blacklisted = as_boolean cs (
      pick_nested_value snapshot (
        ("blacklist" ∷ "isBlacklisted" ∷ [])
        ∷ ("flags" ∷ "blacklisted" ∷ [])
        ∷ ("flags" ∷ "suspended" ∷ [])
        ∷ []))

  unfoldable pub found_in : Found
  found_in = push_when (is_true blacklisted) enforcement_factor "enforcement_blacklist_or_suspend" (
      push_when (ltb 0 violation_count) (violation_factor violation_count)
        ("violations=" <> int_text (pos violation_count))
        (push_when (is_false fitness_valid) fitness_factor "fitness_invalid" (
          push_when (is_false insurance_valid) insurance_factor "insurance_invalid" (
            push_when (is_false permit_valid) permit_factor "permit_invalid"
              (record { factors = []; signals = [] })))))

pub record Assessment : Type 0 where
  pub score : ℕ
  pub signals : List String
  pub reasons : List String
  pub factors : List WeightedRiskFactor

-- `factors.reduce((acc, f) => acc + f.contribution, acc)`
abbrev pub reduce : ℕ → List WeightedRiskFactor → ℕ
reduce acc [] = acc
reduce acc (f ∷ fs) = reduce (acc + f.contribution) fs

-- The stable sort by descending contribution.
abbrev pub insert : WeightedRiskFactor → List WeightedRiskFactor → List WeightedRiskFactor
insert f [] = f ∷ []
insert f (g ∷ gs) =
    let rest = insert f gs in if leb g.contribution f.contribution then f ∷ g ∷ gs else g ∷ rest

abbrev pub sort : List WeightedRiskFactor → List WeightedRiskFactor
sort [] = []
sort (f ∷ fs) = insert f (sort fs)

-- `xs.length > 0 ? xs : ys`
abbrev pub non_empty_or : List String → List String → List String
non_empty_or [] ys = ys
non_empty_or (x ∷ xs) ys = x ∷ xs

abbrev pub baseline : ℕ → ℕ
baseline n = if nat_eq n 0 then 8 else 0

-- The score, and what explains it, of the factors that have been found.
unfoldable pub assess : Found → Assessment
assess found = record {
  score = min 100 (max 0 (reduce 0 found.factors + baseline (length found.factors)));
  signals = non_empty_or found.signals ("no_high_risk_signals" ∷ []);
  reasons =
      if ltb 0 (length found.factors)
      then map (λ f. f.reason) (sort found.factors)
      else "No high-risk factors found in snapshot." ∷ [];
  factors = found.factors;
}

abbrev pub unstructured : Assessment
unstructured = record {
  score = 10;
  signals = "snapshot_missing_or_non_object" ∷ [];
  reasons = "Compliance snapshot missing; using conservative baseline risk." ∷ [];
  factors =
      record {
        key = "data_quality";
        label = "Data quality";
        weight = 10;
        contribution = 10;
        reason = "No structured compliance snapshot available.";
      }
      ∷ [];
}

unfoldable pub build_weighted_risk_assessment : Casing → (String → Option ℤ) → Json → Assessment
build_weighted_risk_assessment cs number (obj fs) = assess (found_in cs number fs)
build_weighted_risk_assessment cs number _ = unstructured
