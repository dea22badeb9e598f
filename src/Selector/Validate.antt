-- ===== src/Selector/Validate.antt =====
-- `validateRequiredSelectors` of packages/scraper-core/src/selectorRegistry.ts. The resolver is a
-- parameter: what it says of a selector, in one validation.
pub mod Laws
use vahan.Prelude.{
  ℕ, zero, suc, String, Bool, true, false, not, ◌&&◌, Option, none, some, List, [], ◌∷◌, ◌++◌,
  nat_eq, length, ◌==◌, if◌then◌else◌,
}
use vahan.Js.Text.{is_empty}
use vahan.Selector.Registry.{SelectorFieldConfig, SelectorPageConfig, SelectorRegistry}

-- `await resolver.exists(selector, timeoutMs)`: true, false or an exception.
pub data Exists : Type 0 where
  present absent failed : Exists

pub data Source : Type 0 where
  primary fallback : Source

pub data SelectorProbeOutcome : Type 0 where
  matched_primary matched_fallback missing error : SelectorProbeOutcome

pub record SelectorProbe : Type 0 where
  pub field_key : String
  pub matched_selector : Option String
  pub matched_source : Option Source
  pub attempted_primary : ℕ
  pub attempted_fallback : ℕ
  pub outcome : SelectorProbeOutcome

pub record SelectorFieldValidation : Type 0 where
  pub page_key : String
  pub field_key : String
  pub critical : Bool
  pub is_ok : Bool
  pub source : Option Source

pub record SelectorValidationResult : Type 0 where
  pub is_ok : Bool
  pub portal_id : String
  pub version : String
  pub last_updated : String
  pub page_key : String
  pub missing_critical : List String
  pub fallback_hits : List String
  pub matched : List String
  pub probes : List SelectorProbe
  pub fields : List SelectorFieldValidation

-- What a loop over selectors leaves: the one that it stopped at, how many it tried, and whether
-- one threw.
pub record Attempt : Type 0 where
  pub match : Option String
  pub tried : ℕ
  pub threw : Bool

abbrev pub no_attempt : Attempt
no_attempt = record { match = none; tried = 0; threw = false }

abbrev pub fallbacks_of : Option (List String) → List String
fallbacks_of none = []
fallbacks_of (some ss) = ss

abbrev pub is_match : Option String → Bool
is_match none = false
is_match (some s) = true

-- The outcome that the loops leave in the probe.
abbrev pub outcome_of : Option String → Option String → Bool → SelectorProbeOutcome
outcome_of (some s) fallback_match threw = matched_primary
outcome_of none (some s) threw = matched_fallback
outcome_of none none threw = if threw then error else missing

abbrev pub source_of : Option String → Option String → Option Source
source_of (some s) fallback_match = some primary
source_of none (some s) = some fallback
source_of none none = none

abbrev pub first_match : Option String → Option String → Option String
first_match (some s) fallback_match = some s
first_match none fallback_match = fallback_match

abbrev pub push_when : Bool → String → List String → List String
push_when true key keys = keys ++ (key ∷ [])
push_when false key keys = keys

abbrev pub is_fallback : Option Source → Bool
is_fallback (some fallback) = true
is_fallback _ = false

-- One round of such a loop, and the rounds behind it.
abbrev pub after : Exists → String → Attempt → Attempt
after present s rest = record { match = some s; tried = 1; threw = false }
after absent s rest = record rest { tried = suc rest.tried }
after failed s rest = record rest { tried = suc rest.tried; threw = true }

module _ (exists : String → Exists) where
  unfoldable pub try_selectors : List String → Attempt
  try_selectors [] = no_attempt
  try_selectors (s ∷ ss) = let rest = try_selectors ss in after (exists s) s rest

  abbrev pub try_primary : SelectorFieldConfig → Attempt
  try_primary field = try_selectors field.selectors

  -- The second loop runs only if the first found nothing.
  abbrev pub try_fallback : SelectorFieldConfig → Attempt
  try_fallback field =
      if is_match (try_primary field).match
      then no_attempt
      else try_selectors (fallbacks_of field.fallback_selectors)

  unfoldable pub probe_field : SelectorFieldConfig → SelectorProbe
  probe_field field =
      let p = try_primary field in
      let f = try_fallback field in
      record {
        field_key = field.field_key;
        matched_selector = first_match p.match f.match;
        matched_source = source_of p.match f.match;
        attempted_primary = p.tried;
        attempted_fallback = f.tried;
        outcome = outcome_of p.match f.match (if p.threw then true else f.threw);
      }

  abbrev pub field_ok : SelectorFieldConfig → Bool
  field_ok field = is_match (probe_field field).matched_selector

  -- The body of the loop over the fields.
  unfoldable pub validate_field :
      SelectorValidationResult → SelectorFieldConfig → SelectorValidationResult
  validate_field result field =
      let probe = probe_field field in
      let good = field_ok field in
      record result {
        missing_critical =
            push_when (not good && field.critical) field.field_key result.missing_critical;
        matched = push_when good field.field_key result.matched;
        fallback_hits =
            push_when (is_fallback probe.matched_source) field.field_key result.fallback_hits;
        probes = result.probes ++ (probe ∷ []);
        fields =
            result.fields
            ++ (record {
              page_key = result.page_key;
              field_key = field.field_key;
              critical = field.critical;
              is_ok = good;
              source = probe.matched_source;
            }
                ∷ []);
      }

  unfoldable pub validate_fields :
      SelectorValidationResult → List SelectorFieldConfig → SelectorValidationResult
  validate_fields result [] = result
  validate_fields result (f ∷ fs) = validate_fields (validate_field result f) fs

  abbrev pub find_page : String → List SelectorPageConfig → Option SelectorPageConfig
  find_page key [] = none
  find_page key (p ∷ ps) = if p.page_key == key then some p else find_page key ps

  -- `createValidationResultBase`
  unfoldable pub create_validation_result_base :
      SelectorRegistry → String → SelectorValidationResult
  create_validation_result_base registry page_key = record {
    is_ok = false;
    portal_id = registry.portal_id;
    version = registry.version;
    last_updated = registry.last_updated;
    page_key = page_key;
    missing_critical = [];
    fallback_hits = [];
    matched = [];
    probes = [];
    fields = [];
  }

  abbrev pub with_ok : SelectorValidationResult → SelectorValidationResult
  with_ok r = record r { is_ok = nat_eq (length r.missing_critical) 0 }

  abbrev pub validate_page :
      SelectorRegistry → String → Option SelectorPageConfig → Option SelectorValidationResult
  validate_page registry page_key none = none
  validate_page registry page_key (some page) =
      some (with_ok (validate_fields (create_validation_result_base registry page_key) page.fields))

  -- `options.pageKey || "default"`
  abbrev pub key_or_default : Option String → String
  key_or_default none = "default"
  key_or_default (some key) = if is_empty key then "default" else key

  -- `none` is the exception for a page that the registry lacks.
  unfoldable pub validate_required_selectors :
      SelectorRegistry → Option String → Option SelectorValidationResult
  validate_required_selectors registry page_key =
      let key = key_or_default page_key in validate_page registry key (find_page key registry.pages)
