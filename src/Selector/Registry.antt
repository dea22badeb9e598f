-- ===== src/Selector/Registry.antt =====
-- packages/scraper-core/src/selectorRegistry.ts: how a registry is read, and types.ts. The YAML
-- reader and the files are parameters; `none` is an exception, or no file. A `Record` is the list
-- of its values, each with its key.
pub mod Laws
use vahan.Prelude.{
  ℕ, String, Bool, true, false, not, ◌&&◌, Option, none, some, List, [], ◌∷◌, ◌++◌, all, any,
  includes, ◌==◌, if◌then◌else◌,
}
use vahan.Js.Text.{trim, is_empty}
use vahan.Js.Json.{
  Json, Items, Fields, null, bool, num, str, arr, obj, nil, cons, end, field, get, as_string,
}

pub record SelectorFieldConfig : Type 0 where
  pub field_key : String
  pub selectors : List String
  pub fallback_selectors : Option (List String)
  pub critical : Bool

pub record SelectorPageConfig : Type 0 where
  pub page_key : String
  pub fields : List SelectorFieldConfig

pub record SelectorRegistry : Type 0 where
  pub portal_id : String
  pub version : String
  pub last_updated : String
  pub base_url : Option String
  pub description : Option String
  pub pages : List SelectorPageConfig

-- What the functions throw.
pub data RegistryError : Type 0 where
  portal_id_required no_registry unreadable not_an_object missing_version : RegistryError
  missing_last_updated no_pages missing_required_selectors missing_selectors : RegistryError
  page_not_an_object missing_fields_map missing_page : (page_key : String) → RegistryError
  field_not_an_object selectors_not_an_array no_selectors :
      (page_key field_key : String) → RegistryError
  fallbacks_not_an_array : (page_key field_key : String) → RegistryError

pub data Loaded {ℓ} (A : Type ℓ) : Type ℓ where
  ok : A → Loaded A
  err : RegistryError → Loaded A

infixl 5 ◌>>=◌
abbrev pub ◌>>=◌ {ℓ κ} : {A : Type ℓ} {B : Type κ} → Loaded A → (A → Loaded B) → Loaded B
err failure >>= rest = err failure
ok value >>= rest = rest value

-- `typeof v === 'string' && v.trim().length > 0`
abbrev pub is_full : String → Bool
is_full s = not (is_empty (trim s))

unfoldable pub full_strings : Items → List String
full_strings nil = []
full_strings (cons (str s) xs) = let rest = full_strings xs in if is_full s then s ∷ rest else rest
full_strings (cons x xs) = full_strings xs

unfoldable pub normalize_selector_array : RegistryError → Option Json → Loaded (List String)
normalize_selector_array e (some (arr xs)) = ok (full_strings xs)
normalize_selector_array e _ = err e

abbrev pub if_any : List String → Option (List String)
if_any [] = none
if_any (s ∷ ss) = some (s ∷ ss)

unfoldable pub normalize_optional_selector_array :
    RegistryError → Option Json → Loaded (Option (List String))
normalize_optional_selector_array e none = ok none
normalize_optional_selector_array e (some null) = ok none
normalize_optional_selector_array e (some (arr xs)) = ok (if_any (full_strings xs))
normalize_optional_selector_array e _ = err e

abbrev pub require_any : RegistryError → List String → Loaded (List String)
require_any e [] = err e
require_any e (s ∷ ss) = ok (s ∷ ss)

-- `typeof v === 'boolean' ? Boolean(v) : false`
abbrev pub as_critical : Option Json → Bool
as_critical (some (bool b)) = b
as_critical _ = false

-- The body of the loop over the fields of a page.
unfoldable pub field_config : String → String → Json → Loaded SelectorFieldConfig
field_config page_key field_key (obj fs) = do
  found ← normalize_selector_array (selectors_not_an_array page_key field_key) (get "selectors" fs)
  selectors ← require_any (no_selectors page_key field_key) found
  fallbacks ←
      normalize_optional_selector_array (fallbacks_not_an_array page_key field_key)
        (get "fallbackSelectors" fs)
  ok (record {
    field_key = field_key;
    selectors = selectors;
    fallback_selectors = fallbacks;
    critical = as_critical (get "critical" fs);
  })
field_config page_key field_key _ = err (field_not_an_object page_key field_key)

unfoldable pub field_configs : String → Fields → Loaded (List SelectorFieldConfig)
field_configs page_key end = ok []
field_configs page_key (field k v fs) = do
  config ← field_config page_key k v
  rest ← field_configs page_key fs
  ok (config ∷ rest)

abbrev pub object_or : RegistryError → Option Json → Loaded Fields
object_or e (some (obj fs)) = ok fs
object_or e _ = err e

-- The body of the loop over the pages.
unfoldable pub page_config : String → Json → Loaded SelectorPageConfig
page_config page_key page_raw = do
  page ← object_or (page_not_an_object page_key) (some page_raw)
  fields_raw ← object_or (missing_fields_map page_key) (get "fields" page)
  configs ← field_configs page_key fields_raw
  ok (record { page_key = page_key; fields = configs })

unfoldable pub page_configs : Fields → Loaded (List SelectorPageConfig)
page_configs end = ok []
page_configs (field k v fs) = do
  config ← page_config k v
  rest ← page_configs fs
  ok (config ∷ rest)

abbrev pub some_page : List SelectorPageConfig → Loaded (List SelectorPageConfig)
some_page [] = err no_pages
some_page (p ∷ ps) = ok (p ∷ ps)

-- An array of texts alone.
abbrev pub strings : Items → Option (List String)
strings nil = some []
strings (cons (str s) xs) = elim (strings xs) [ none ↦ none | some ss ↦ some (s ∷ ss) ]
strings (cons x xs) = none

abbrev pub required_keys : Option Json → Loaded (List String)
required_keys (some (arr xs)) = elim (strings xs) [
  | none ↦ err missing_required_selectors
  | some keys ↦ ok keys
]
required_keys _ = err missing_required_selectors

-- The fields of the legacy shape, if every value is a text.
unfoldable pub legacy_fields : List String → Fields → Loaded (List SelectorFieldConfig)
legacy_fields required end = ok []
legacy_fields required (field k (str s) fs) = do
  rest ← legacy_fields required fs
  ok (
      record {
        field_key = k;
        selectors = s ∷ [];
        fallback_selectors = none;
        critical = includes required k;
      }
      ∷ rest)
legacy_fields required (field k v fs) = err missing_selectors

unfoldable pub legacy_pages : Fields → Loaded (List SelectorPageConfig)
legacy_pages rec = do
  required ← required_keys (get "requiredSelectors" rec)
  selectors ← object_or missing_selectors (get "selectors" rec)
  configs ← legacy_fields required selectors
  ok (record { page_key = "default"; fields = configs } ∷ [])

abbrev pub pages_of : Fields → Option Json → Loaded (List SelectorPageConfig)
pages_of rec (some (obj pages)) = page_configs pages >>= some_page
pages_of rec _ = legacy_pages rec

unfoldable pub normalize_pages : Fields → Loaded (List SelectorPageConfig)
normalize_pages rec = pages_of rec (get "pages" rec)

abbrev pub full_or : RegistryError → Option String → Loaded String
full_or e none = err e
full_or e (some s) = if is_full s then ok s else err e

abbrev pub else_id : String → Option String → String
else_id portal_id none = portal_id
else_id portal_id (some s) = s

abbrev pub loaded_object : Option Json → Loaded Fields
loaded_object none = err unreadable
loaded_object (some v) = object_or not_an_object (some v)

unfoldable pub parse_registry : (String → Option Json) → String → String → Loaded SelectorRegistry
parse_registry load raw portal_id = do
  rec ← loaded_object (load raw)
  version ← full_or missing_version (as_string (get "version" rec))
  last_updated ← full_or missing_last_updated (as_string (get "lastUpdated" rec))
  pages ← normalize_pages rec
  ok (record {
    portal_id = else_id portal_id (as_string (get "portalId" rec));
    version = version;
    last_updated = last_updated;
    base_url = as_string (get "baseUrl" rec);
    description = as_string (get "description" rec);
    pages = pages;
  })

-- `REGISTRY_CACHE`, the latest entry first
pub record Entry : Type 0 where
  pub key : String
  pub registry : SelectorRegistry

unfoldable pub cached : String → List Entry → Option SelectorRegistry
cached id [] = none
cached id (e ∷ es) = if e.key == id then some e.registry else cached id es

abbrev pub file_or : Option String → Loaded String
file_or none = err no_registry
file_or (some raw) = ok raw

module _ (load : String → Option Json) (read_file : String → Option String) where
  abbrev pub store :
      String → List Entry → Loaded SelectorRegistry → Loaded SelectorRegistry × List Entry
  store id cache (ok r) = (ok r, record { key = id; registry = r } ∷ cache)
  store id cache (err e) = (err e, cache)

  unfoldable pub reload : String → List Entry → Loaded SelectorRegistry × List Entry
  reload id cache = store id cache (do raw ← file_or (read_file id); parse_registry load raw id)

  -- `getSelectorRegistry`; `read_file` finds the file of a portal, if it has one.
  unfoldable pub get_selector_registry :
      String → Bool → List Entry → Loaded SelectorRegistry × List Entry
  get_selector_registry id force cache =
      if is_empty id
      then (err portal_id_required, cache)
      else if force
      then reload id cache
      else elim (cached id cache) [ none ↦ reload id cache | some r ↦ (ok r, cache) ]
