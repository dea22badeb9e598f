-- ===== src/Selector/Tests.antt =====
-- The theorems on selectors at a registry of one page.
use vahan.Prelude.{
  String, ◌≡◌, ◌↔◌, ◌&&◌, refl, true, false, not, Option, some, none, [], ◌∷◌, map, filter, All,
  ◌==◌, if◌then◌else◌,
}
use vahan.Js.Text.{is_empty}
use vahan.Js.Json.{Json, Fields, obj, arr, nil, cons, str, bool, end, field}
use vahan.Selector.Registry.{
  SelectorRegistry, SelectorPageConfig, SelectorFieldConfig, Loaded, ok, Entry, parse_registry,
  get_selector_registry,
}
use vahan.Selector.Registry.Laws.{IsRegistry, parse_registry-IsRegistry}
use vahan.Selector.Validate.{
  Exists, present, failed, SelectorValidationResult, validate_required_selectors, field_ok,
  probe_field, find_page, key_or_default,
}
use vahan.Selector.Validate.Laws.{IsFound, keys, validate_required_selectors-page}

-- The document of a registry with a critical field and its fallback.
abbrev document : Json
document = obj (
    field "version" (str "1") (
      field "lastUpdated" (str "2026-05-01") (
        field "pages"
          (obj (
            field "default"
              (obj (
                field "fields"
                  (obj (
                    field "dateInput"
                      (obj (
                        field "selectors" (arr (cons (str "#date") nil)) (
                          field "fallbackSelectors" (arr (cons (str "input") nil))
                            (field "critical" (bool true) end))))
                      end))
                  end))
              end))
          end)))

abbrev load : String → Option Json
load raw = some document

abbrev read_file : String → Option String
read_file id = if id == "khanan" then some "yaml" else none

abbrev no_file : String → Option String
no_file id = none

abbrev page : SelectorPageConfig
page = record {
  page_key = "default";
  fields =
      record {
        field_key = "dateInput";
        selectors = "#date" ∷ [];
        fallback_selectors = some ("input" ∷ []);
        critical = true;
      }
      ∷ [];
}

abbrev registry : SelectorRegistry
registry = record {
  portal_id = "khanan";
  version = "1";
  last_updated = "2026-05-01";
  base_url = none;
  description = none;
  pages = page ∷ [];
}

abbrev exists : String → Exists
exists s = if s == "input" then present else failed

has_page : find_page exists (key_or_default exists none) registry.pages ≡ some page
has_page = refl

validate_required_selectors-page_example :
    (result : SelectorValidationResult) × (validate_required_selectors exists registry none
      ≡ some result)
    × ((result.is_ok ≡ true) ↔ All (λ f. f.critical ≡ true → IsFound exists f) page.fields)
    × (result.matched ≡ keys (filter (field_ok exists) page.fields))
    × (result.missing_critical
        ≡ keys (filter (λ f. not (field_ok exists f) && f.critical) page.fields))
    × (result.probes ≡ map (probe_field exists) page.fields)
validate_required_selectors-page_example =
    validate_required_selectors-page exists registry none page has_page

is_read : parse_registry load "yaml" "khanan" ≡ ok registry
unfolding parse_registry vahan.Js.Json.get vahan.Js.Text.trim
    vahan.Selector.Registry.normalize_pages vahan.Selector.Registry.page_configs
    vahan.Selector.Registry.page_config vahan.Selector.Registry.field_configs
    vahan.Selector.Registry.field_config vahan.Selector.Registry.normalize_selector_array
    vahan.Selector.Registry.full_strings vahan.Selector.Registry.normalize_optional_selector_array
is_read = refl

parse_registry-IsRegistry_example : IsRegistry registry.pages
parse_registry-IsRegistry_example = parse_registry-IsRegistry load "yaml" "khanan" registry is_read

is_loaded :
    get_selector_registry load read_file "khanan" true []
    ≡ (Loaded.ok registry, (record { key = "khanan"; registry = registry }) ∷ [])
unfolding get_selector_registry vahan.Selector.Registry.reload parse_registry vahan.Js.Json.get
    vahan.Js.Text.trim vahan.Selector.Registry.normalize_pages vahan.Selector.Registry.page_configs
    vahan.Selector.Registry.page_config vahan.Selector.Registry.field_configs
    vahan.Selector.Registry.field_config vahan.Selector.Registry.normalize_selector_array
    vahan.Selector.Registry.full_strings vahan.Selector.Registry.normalize_optional_selector_array
is_loaded = refl

has_id : is_empty "khanan" ≡ false
has_id = refl
