-- ===== src/Selector/Validate/Laws.antt =====
-- What a validation of selectors reports.
use mathlib.Core.List.{append-nil, append_assoc}
use vahan.Prelude.{
  ℕ, suc, String, ◌≡◌, ◌↔◌, ◌⊎◌, inl, inr, refl, sym, ◌∙◌, ap, subst, Bool, true, false, not, ◌&&◌,
  Option, none, some, List, [], ◌∷◌, ◌++◌, map, filter, length, nat_eq, All, Any, if◌then◌else◌,
  arith,
}
use vahan.Selector.Registry.{SelectorFieldConfig, SelectorPageConfig, SelectorRegistry}
use vahan.Selector.Validate.{
  Exists, present, absent, failed, Attempt, fallbacks_of, is_match, push_when, after, no_attempt,
  try_selectors, try_primary, probe_field, field_ok, validate_field, validate_fields,
  SelectorValidationResult, find_page, validate_page, key_or_default, create_validation_result_base,
  validate_required_selectors, first_match,
}

after_iff :
    (e : Exists) (s : String) (rest : Attempt)
    → (is_match (after e s rest).match ≡ true) ↔ ((e ≡ present) ⊎ (is_match rest.match ≡ true))
after_iff present s rest = (λ h. inl refl, λ h. refl)
after_iff absent s rest = (λ h. inr h, λ h. ground arith)
after_iff failed s rest = (λ h. inr h, λ h. ground arith)

-- The two loops over a field.
two_loops_iff :
    (m n : Option String)
    → (is_match (first_match m (if is_match m then none else n)) ≡ true)
      ↔ ((is_match m ≡ true) ⊎ (is_match n ≡ true))
two_loops_iff (some s) n = (λ h. inl refl, λ h. refl)
two_loops_iff none n = (λ h. inr h, λ h. ground arith)

match-if :
    (b : Bool) (x y : Attempt) → (if b then x else y).match ≡ (if b then x.match else y.match)
match-if true x y = refl
match-if false x y = refl

abbrev pub keys : List SelectorFieldConfig → List String
keys fs = map (λ f. f.field_key) fs

-- What one field adds to a list of keys.
push-keys :
    (b : Bool) (f : SelectorFieldConfig) (ks : List String) (rest : List SelectorFieldConfig)
    → push_when b f.field_key ks ++ keys rest ≡ ks ++ keys (if b then f ∷ rest else rest)
push-keys true f ks rest = append_assoc ks (f.field_key ∷ []) (keys rest)
push-keys false f ks rest = refl

false≢true : false ≡ true → ⊥
false≢true h = cc

not_zero : (n : ℕ) → nat_eq (suc n) 0 ≡ true → ⊥
not_zero n h = ground arith

-- Whether a list of missing fields is empty, when one more field is looked at.
none_more :
    (good critical : Bool) (f : SelectorFieldConfig) (rest : List SelectorFieldConfig)
    → (nat_eq (length (keys (if not good && critical then f ∷ rest else rest))) 0 ≡ true)
      ↔ ((critical ≡ true → good ≡ true) × (nat_eq (length (keys rest)) 0 ≡ true))
none_more true critical f rest = (λ h. (λ c. refl, h), λ h. h.1)
none_more false true f rest =
    (λ h. absurd (not_zero (length (keys rest)) h), λ h. absurd (false≢true (h.0 refl)))
none_more false false f rest = (λ h. (λ c. absurd (false≢true c), h), λ h. h.1)

module _ (exists : String → Exists) where
  abbrev pub Finds : List String → Type 0
  Finds ss = Any (λ s. exists s ≡ present) ss

  -- A loop over selectors finds one exactly if one is there.
  try_selectors_iff :
      (ss : List String) → (is_match (try_selectors exists ss).match ≡ true) ↔ Finds ss
  unfolding try_selectors
  try_selectors_iff [] = (λ h. cc, λ h. absurd h)
  try_selectors_iff (s ∷ ss) =
      let (to, from) = after_iff (exists s) s (try_selectors exists ss) in
      let (found, back) = try_selectors_iff ss in
      (
        λ h. elim (to h) [ inl e ↦ inl e | inr m ↦ inr (found m) ],
        λ h. elim h [ inl e ↦ from (inl e) | inr m ↦ from (inr (back m)) ],
      )

  -- A field that some selector or fallback of it finds.
  abbrev pub IsFound : SelectorFieldConfig → Type 0
  IsFound f = Finds f.selectors ⊎ Finds (fallbacks_of f.fallback_selectors)

  field_ok_iff : (f : SelectorFieldConfig) → (field_ok exists f ≡ true) ↔ IsFound f
  unfolding probe_field
  field_ok_iff f =
      let (to, from) =
        two_loops_iff (try_primary exists f).match
          (try_selectors exists (fallbacks_of f.fallback_selectors)).match in
      let (p, p') = try_selectors_iff f.selectors in
      let (q, q') = try_selectors_iff (fallbacks_of f.fallback_selectors) in
      let same =
        match-if (is_match (try_primary exists f).match) no_attempt
          (try_selectors exists (fallbacks_of f.fallback_selectors)) in
      (
        λ h.
            elim (to
              (subst (λ x. is_match (first_match (try_primary exists f).match x) ≡ true) same h)) [
                | inl m ↦ inl (p m)
                | inr m ↦ inr (q m)
              ],
        λ h.
            subst (λ x. is_match (first_match (try_primary exists f).match x) ≡ true) (sym same)
              (from (elim h [ inl m ↦ inl (p' m) | inr m ↦ inr (q' m) ])),
      )

  missing_critical-validate_fields :
      (r : SelectorValidationResult) (fs : List SelectorFieldConfig)
      → (validate_fields exists r fs).missing_critical
        ≡ r.missing_critical ++ keys (filter (λ f. not (field_ok exists f) && f.critical) fs)
  unfolding validate_fields validate_field
  missing_critical-validate_fields r [] = sym (append-nil r.missing_critical)
  missing_critical-validate_fields r (f ∷ fs) =
      missing_critical-validate_fields (validate_field exists r f) fs
      ∙ push-keys (not (field_ok exists f) && f.critical) f r.missing_critical
          (filter (λ f. not (field_ok exists f) && f.critical) fs)

  matched-validate_fields :
      (r : SelectorValidationResult) (fs : List SelectorFieldConfig)
      → (validate_fields exists r fs).matched ≡ r.matched ++ keys (filter (field_ok exists) fs)
  unfolding validate_fields validate_field
  matched-validate_fields r [] = sym (append-nil r.matched)
  matched-validate_fields r (f ∷ fs) =
      matched-validate_fields (validate_field exists r f) fs
      ∙ push-keys (field_ok exists f) f r.matched (filter (field_ok exists) fs)

  probes-validate_fields :
      (r : SelectorValidationResult) (fs : List SelectorFieldConfig)
      → (validate_fields exists r fs).probes ≡ r.probes ++ map (probe_field exists) fs
  unfolding validate_fields validate_field
  probes-validate_fields r [] = sym (append-nil r.probes)
  probes-validate_fields r (f ∷ fs) =
      probes-validate_fields (validate_field exists r f) fs
      ∙ append_assoc r.probes (probe_field exists f ∷ []) (map (probe_field exists) fs)

  none_missing_iff :
      (fs : List SelectorFieldConfig)
      → (nat_eq (length (keys (filter (λ f. not (field_ok exists f) && f.critical) fs))) 0 ≡ true)
        ↔ All (λ f. f.critical ≡ true → IsFound f) fs
  none_missing_iff [] = (λ h. tt, λ h. refl)
  none_missing_iff (f ∷ fs) =
      let (to, from) =
        none_more (field_ok exists f) f.critical f
          (filter (λ f. not (field_ok exists f) && f.critical) fs) in
      let (good, good') = field_ok_iff f in
      let (all, all') = none_missing_iff fs in
      (λ h. let (x, y) = to h in (λ c. good (x c), all y), λ h. from (λ c. good' (h.0 c), all' h.1))

  -- A validation of a page that the registry has finds it healthy exactly if each of its critical
  -- fields has a selector, or a fallback, that is there. It reports as matched the fields that have
  -- one, as missing the critical fields that have none, in their order, and one probe per field.
  pub validate_required_selectors-page :
      (registry : SelectorRegistry) (page_key : Option String) (page : SelectorPageConfig)
      → find_page exists (key_or_default exists page_key) registry.pages ≡ some page
      → (result : SelectorValidationResult) × (validate_required_selectors exists registry page_key
          ≡ some result)
        × ((result.is_ok ≡ true) ↔ All (λ f. f.critical ≡ true → IsFound f) page.fields)
        × (result.matched ≡ keys (filter (field_ok exists) page.fields))
        × (result.missing_critical
            ≡ keys (filter (λ f. not (field_ok exists f) && f.critical) page.fields))
        × (result.probes ≡ map (probe_field exists) page.fields)
  unfolding validate_required_selectors create_validation_result_base
  validate_required_selectors-page registry page_key page has =
      let base = create_validation_result_base exists registry (key_or_default exists page_key) in
      let missing = missing_critical-validate_fields base page.fields in
      (
        _,
        ap (validate_page exists registry (key_or_default exists page_key)) has,
        subst
            (λ ks.
              (nat_eq (length ks) 0 ≡ true) ↔ All (λ f. f.critical ≡ true → IsFound f) page.fields)
            (sym missing) (none_missing_iff page.fields),
        matched-validate_fields base page.fields,
        missing,
        probes-validate_fields base page.fields,
      )
