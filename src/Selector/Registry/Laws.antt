-- ===== src/Selector/Registry/Laws.antt =====
-- What a registry that has been read is known to be, and its cache.
use vahan.Prelude.{
  String, ◌≡◌, ◌≢◌, refl, ◌∙◌, ap, subst, Bool, true, false, Option, none, some, List, [], ◌∷◌, All,
  Option-cases, inl, inr, eq_refl, if◌then◌else◌,
}
use vahan.Js.Text.{is_empty}
use vahan.Js.Json.{Json, Fields, null, bool, num, str, arr, obj, end, field, get, as_string}
use vahan.Selector.Registry.{
  SelectorFieldConfig, SelectorPageConfig, SelectorRegistry, RegistryError, Loaded, ok, err, ◌>>=◌,
  require_any, field_config, field_configs, page_config, page_configs, some_page, legacy_fields,
  legacy_pages, pages_of, normalize_pages, parse_registry, Entry, cached, store, reload,
  get_selector_registry, normalize_selector_array, normalize_optional_selector_array, object_or,
  required_keys, loaded_object, full_or, selectors_not_an_array, no_selectors,
  fallbacks_not_an_array, page_not_an_object, missing_fields_map, missing_selectors,
  missing_version, missing_last_updated,
}

>>=-ok_inv :
    {A B : Type 0} (step : Loaded A) (rest : A → Loaded B) (last : B)
    → (step >>= rest) ≡ ok last
    → (first : A) × (step ≡ ok first) × (rest first ≡ ok last)
>>=-ok_inv (err failure) rest last done = cc
>>=-ok_inv (ok first) rest last done = (first, refl, done)

ok-injective : {A : Type 0} (a b : A) → Loaded.ok a ≡ ok b → a ≡ b
ok-injective a b h = cc

err≢ok : {e : RegistryError} {r : SelectorRegistry} → err e ≡ ok r → ⊥
err≢ok h = cc

-- A field has a selector to try.
abbrev pub IsUsable : SelectorFieldConfig → Type 0
IsUsable f = f.selectors ≢ []

abbrev pub AllUsable : SelectorPageConfig → Type 0
AllUsable p = All IsUsable p.fields

require_any-ok : (e : RegistryError) (ss ts : List String) → require_any e ss ≡ ok ts → ts ≢ []
require_any-ok e [] ts h = cc
require_any-ok e (s ∷ ss) ts h = λ n. cc

field_config-IsUsable :
    (p k : String) (v : Json) (f : SelectorFieldConfig) → field_config p k v ≡ ok f → IsUsable f
unfolding field_config
field_config-IsUsable p k (obj fs) f h =
    let (found, h1, k1) =
      >>=-ok_inv (normalize_selector_array (selectors_not_an_array p k) (get "selectors" fs)) _ f
        h in
    let (ss, h2, k2) = >>=-ok_inv (require_any (no_selectors p k) found) _ f k1 in
    let (fallbacks, h3, k3) =
      >>=-ok_inv
        (normalize_optional_selector_array (fallbacks_not_an_array p k)
          (get "fallbackSelectors" fs))
        _ f k2 in
    subst (λ x. x.selectors ≢ []) (ok-injective _ _ k3) (require_any-ok _ found ss h2)
field_config-IsUsable p k null f h = cc
field_config-IsUsable p k (bool b) f h = cc
field_config-IsUsable p k (num n) f h = cc
field_config-IsUsable p k (str s) f h = cc
field_config-IsUsable p k (arr xs) f h = cc

field_configs-AllUsable :
    (p : String) (fs : Fields) (configs : List SelectorFieldConfig)
    → field_configs p fs ≡ ok configs
    → All IsUsable configs
unfolding field_configs
field_configs-AllUsable p end configs h = subst (All IsUsable) (ok-injective _ _ h) tt
field_configs-AllUsable p (field k v fs) configs h =
    let (f, h1, k1) = >>=-ok_inv (field_config p k v) _ configs h in
    let (rest, h2, k2) = >>=-ok_inv (field_configs p fs) _ configs k1 in
    subst (All IsUsable) (ok-injective _ _ k2)
      (field_config-IsUsable p k v f h1, field_configs-AllUsable p fs rest h2)

page_config-AllUsable :
    (k : String) (v : Json) (p : SelectorPageConfig) → page_config k v ≡ ok p → AllUsable p
unfolding page_config
page_config-AllUsable k v p h =
    let (page, h1, k1) = >>=-ok_inv (object_or (page_not_an_object k) (some v)) _ p h in
    let (raw, h2, k2) = >>=-ok_inv (object_or (missing_fields_map k) (get "fields" page)) _ p k1 in
    let (configs, h3, k3) = >>=-ok_inv (field_configs k raw) _ p k2 in
    subst AllUsable (ok-injective _ _ k3) (field_configs-AllUsable k raw configs h3)

page_configs-AllUsable :
    (fs : Fields) (ps : List SelectorPageConfig) → page_configs fs ≡ ok ps → All AllUsable ps
unfolding page_configs
page_configs-AllUsable end ps h = subst (All AllUsable) (ok-injective _ _ h) tt
page_configs-AllUsable (field k v fs) ps h =
    let (p, h1, k1) = >>=-ok_inv (page_config k v) _ ps h in
    let (rest, h2, k2) = >>=-ok_inv (page_configs fs) _ ps k1 in
    subst (All AllUsable) (ok-injective _ _ k2)
      (page_config-AllUsable k v p h1, page_configs-AllUsable fs rest h2)

legacy_fields-AllUsable :
    (required : List String) (fs : Fields) (configs : List SelectorFieldConfig)
    → legacy_fields required fs ≡ ok configs
    → All IsUsable configs
unfolding legacy_fields
legacy_fields-AllUsable required end configs h = subst (All IsUsable) (ok-injective _ _ h) tt
legacy_fields-AllUsable required (field k (str s) fs) configs h =
    let (rest, h1, k1) = >>=-ok_inv (legacy_fields required fs) _ configs h in
    subst (All IsUsable) (ok-injective _ _ k1)
      (λ n. cc, legacy_fields-AllUsable required fs rest h1)
legacy_fields-AllUsable required (field k null fs) configs h = cc
legacy_fields-AllUsable required (field k (bool b) fs) configs h = cc
legacy_fields-AllUsable required (field k (num n) fs) configs h = cc
legacy_fields-AllUsable required (field k (arr xs) fs) configs h = cc
legacy_fields-AllUsable required (field k (obj v) fs) configs h = cc

-- Some page, and every field of every page usable.
abbrev pub IsRegistry : List SelectorPageConfig → Type 0
IsRegistry ps = (ps ≢ []) × All AllUsable ps

legacy_pages-IsRegistry :
    (rec : Fields) (ps : List SelectorPageConfig) → legacy_pages rec ≡ ok ps → IsRegistry ps
unfolding legacy_pages
legacy_pages-IsRegistry rec ps h =
    let (required, h1, k1) = >>=-ok_inv (required_keys (get "requiredSelectors" rec)) _ ps h in
    let (raw, h2, k2) = >>=-ok_inv (object_or missing_selectors (get "selectors" rec)) _ ps k1 in
    let (configs, h3, k3) = >>=-ok_inv (legacy_fields required raw) _ ps k2 in
    subst IsRegistry (ok-injective _ _ k3)
      (λ n. cc, (legacy_fields-AllUsable required raw configs h3, tt))

some_page-ok : (ps qs : List SelectorPageConfig) → some_page ps ≡ ok qs → (qs ≢ []) × (ps ≡ qs)
some_page-ok [] qs h = cc
some_page-ok (p ∷ ps) qs h = let e = ok-injective _ _ h in (λ n. cc, e)

pages_of-IsRegistry :
    (rec : Fields) (v : Option Json) (ps : List SelectorPageConfig)
    → pages_of rec v ≡ ok ps
    → IsRegistry ps
pages_of-IsRegistry rec (some (obj raw)) ps h =
    let (qs, h1, k1) = >>=-ok_inv (page_configs raw) some_page ps h in
    let (full, same) = some_page-ok qs ps k1 in
    (full, subst (All AllUsable) same (page_configs-AllUsable raw qs h1))
pages_of-IsRegistry rec none ps h = legacy_pages-IsRegistry rec ps h
pages_of-IsRegistry rec (some null) ps h = legacy_pages-IsRegistry rec ps h
pages_of-IsRegistry rec (some (bool b)) ps h = legacy_pages-IsRegistry rec ps h
pages_of-IsRegistry rec (some (num n)) ps h = legacy_pages-IsRegistry rec ps h
pages_of-IsRegistry rec (some (str s)) ps h = legacy_pages-IsRegistry rec ps h
pages_of-IsRegistry rec (some (arr xs)) ps h = legacy_pages-IsRegistry rec ps h

-- A registry that has been read, in either shape, has a page, and every field of its pages has a
-- selector.
pub parse_registry-IsRegistry :
    (load : String → Option Json) (raw portal_id : String) (r : SelectorRegistry)
    → parse_registry load raw portal_id ≡ ok r
    → IsRegistry r.pages
unfolding parse_registry normalize_pages
parse_registry-IsRegistry load raw portal_id r h =
    let (rec, h1, k1) = >>=-ok_inv (loaded_object (load raw)) _ r h in
    let (version, h2, k2) =
      >>=-ok_inv (full_or missing_version (as_string (get "version" rec))) _ r k1 in
    let (updated, h3, k3) =
      >>=-ok_inv (full_or missing_last_updated (as_string (get "lastUpdated" rec))) _ r k2 in
    let (ps, h4, k4) = >>=-ok_inv (normalize_pages rec) _ r k3 in
    subst (λ x. IsRegistry x.pages) (ok-injective _ _ k4) (pages_of-IsRegistry rec _ ps h4)

module _ (load : String → Option Json) where
  stored-cached :
      (read_file : String → Option String) (id : String) (cache after : List Entry)
      (l : Loaded SelectorRegistry) (r : SelectorRegistry)
      → store load read_file id cache l ≡ (ok r, after)
      → cached id after ≡ some r
  unfolding cached
  stored-cached read_file id cache after (ok r') r h =
      subst (λ es. cached id es ≡ some r) (ap (λ x. x.1) h)
        (rw (eq_refl id) (ap some (ok-injective r' r (ap (λ x. x.0) h))))
  stored-cached read_file id cache after (err e) r h = absurd (err≢ok (ap (λ x. x.0) h))

  get-cached :
      (read_file : String → Option String) (id : String) (cache : List Entry) (r : SelectorRegistry)
      → is_empty id ≡ false
      → cached id cache ≡ some r
      → get_selector_registry load read_file id false cache ≡ (ok r, cache)
  unfolding get_selector_registry
  get-cached read_file id cache r full hit = rw (full, get_selector_registry, hit) refl

  -- Once a registry with a portal id that is not empty has been read, forced or not, it is given
  -- again without a look at its file, whatever the file has become, and the cache stays as it is.
  pub get_selector_registry-again :
      (read_file read_file' : String → Option String) (id : String) (force : Bool)
      (cache after : List Entry) (r : SelectorRegistry)
      → is_empty id ≡ false
      → get_selector_registry load read_file id force cache ≡ (ok r, after)
      → get_selector_registry load read_file' id false after ≡ (ok r, after)
  unfolding get_selector_registry reload
  get_selector_registry-again read_file read_file' id force cache after r full h =
      get-cached read_file' id after r full (hit force (rw (full, get_selector_registry) at h))
    where
      hit :
          (b : Bool)
          → (if b then reload load read_file id cache else elim (cached id cache) [
            | none ↦ reload load read_file id cache
            | some r ↦ (ok r, cache)
          ])
            ≡ (ok r, after)
          → cached id after ≡ some r
      hit true e = stored-cached read_file id cache after _ r e
      hit false e = elim (Option-cases (cached id cache)) [
        | inl missing ↦ stored-cached read_file id cache after _ r (rw missing at e)
        | inr (r', found) ↦
            let same : (Loaded.ok r', cache) ≡ (Loaded.ok r, after) = rw found at e in
            subst (λ es. cached id es ≡ some r) (ap (λ x. x.1) same)
              (found ∙ ap some (ok-injective r' r (ap (λ x. x.0) same)))
      ]
