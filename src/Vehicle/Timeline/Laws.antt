-- ===== src/Vehicle/Timeline/Laws.antt =====
-- The timeline of a vehicle shows the tenant's events on that vehicle, whichever query answers.
use vahan.Prelude.{
  ℕ, suc, zero, ◌≤◌, min, max, String, ◌≡◌, refl, sym, ◌∙◌, ap, subst, Bool, true, false, ◌&&◌,
  ◌||◌, Option, none, some, List, [], ◌∷◌, filter, take, length, All, All-imp, &&-true, or-true,
  ◌==◌, eq_iff, Bool-cases, Option-cases, ◌⊎◌, inl, inr, if◌then◌else◌, arith,
}
use vahan.Prelude.Int.{ℤ, pos_part}
use vahan.Js.Text.{trim}
use vahan.Js.Text.Laws.{trim_idem}
use vahan.Js.Json.{Json, Fields, null, bool, num, arr, str, obj, get}
use vahan.Js.Casing.{Casing, HasCase}
use vahan.Env.{Env, ingest_database_url}
use vahan.Prisma.{Where, matches, Query, found, thrown}
use vahan.Tenant.{normalize_tenant_slug, job_event_tenant_where}
use vahan.Tenant.Isolation.{normalize_tenant_slug_idem}
use vahan.Vehicle.Risk.{at_path}
use vahan.Vehicle.Summary.{normalize_reg_norm}
use vahan.Vehicle.Timeline.{
  TimelineEvent, VehicleTimelineResponse, JobEvent, JobEventTest, passes, json_equals, on_link,
  timeline_where_by_reg_paths_only, timeline_where_by_json_paths, norm_reg_field, field_is,
  nested_field_is, event_references, json_references_reg_norm, ok, not_implemented, map_rows, Table,
  effective_limit, scanned, scan, filtered_or_scan, get_vehicle_timeline,
}

-- A query finds rows that its filter keeps, at most as many as it takes.
abbrev pub IsSound : Table → Type 0
IsSound table =
    (f : Where JobEventTest) (n : ℕ) (rows : List JobEvent)
    → table f n ≡ found rows
    → All (λ e. matches passes f e ≡ true) rows × (length rows ≤ n)

at_path-get : (key : String) (fs : Fields) → at_path (key ∷ []) (obj fs) ≡ get key fs
at_path-get key fs = elim (Option-cases (get key fs)) [
  | inl e ↦ rw (at_path, e) refl
  | inr (v, e) ↦ rw (at_path, e) refl
]

and_true : (a b : Bool) → a ≡ true → b ≡ true → (a && b) ≡ true
and_true a b p q = ground arith

abbrev events_of : VehicleTimelineResponse → List TimelineEvent
events_of (ok k events) = events
events_of (not_implemented k reason) = []

abbrev reg_of : VehicleTimelineResponse → String
reg_of (ok k events) = k
reg_of (not_implemented k reason) = k

refused≢ok :
    {k reason reg' : String} {events : List TimelineEvent}
    → not_implemented k reason ≡ ok reg' events
    → ⊥
refused≢ok h = cc

length-take : (n : ℕ) (xs : List JobEvent) → length (take n xs) ≤ n
length-take zero xs = omega arith
length-take (suc n) [] = omega arith
length-take (suc n) (x ∷ xs) = ground (arith, length-take n xs)

All-take : (n : ℕ) (P : JobEvent → Type 0) (xs : List JobEvent) → All P xs → All P (take n xs)
All-take zero P xs h = tt
All-take (suc n) P [] h = tt
All-take (suc n) P (x ∷ xs) (p, h) = (p, All-take n P xs h)

All-filter : (p : JobEvent → Bool) (xs : List JobEvent) → All (λ x. p x ≡ true) (filter p xs)
All-filter p [] = tt
All-filter p (x ∷ xs) = elim (Bool-cases (p x)) [
  | inl e ↦ rw e (e, All-filter p xs)
  | inr e ↦ rw e (All-filter p xs)
]

true≢false : true ≡ false → ⊥
true≢false h = cc

one_of_three :
    (a b c : Bool)
    → (a ≡ true) ⊎ (b ≡ true) ⊎ (c ≡ true)
    → (if a then true else if b then true else c) ≡ true
one_of_three a b c h = ground arith

one_of_two : (a b : Bool) → b ≡ true → (if a then true else b) ≡ true
one_of_two a b h = ground arith

split_or : (a b c : Bool) → (a || (b || c)) ≡ true → (a ≡ true) ⊎ (b ≡ true) ⊎ (c ≡ true)
split_or a b c h = ground arith

module _ (cs : Casing) (has_case : HasCase cs.upper) (raw : String) where
  abbrev reg : String
  reg = normalize_reg_norm cs raw

  -- A normalized registration is its own normal form.
  normalize_reg_norm_idem : cs.upper (trim reg) ≡ reg
  unfolding normalize_reg_norm
  normalize_reg_norm_idem =
      ap cs.upper (has_case.trims (trim raw) ∙ ap cs.upper (trim_idem raw))
      ∙ has_case.idem (trim raw)

  norm_reg_field-equals :
      (v : Option Json) → json_equals v reg ≡ true → (norm_reg_field cs v == reg) ≡ true
  unfolding norm_reg_field
  norm_reg_field-equals (some (str s)) h =
      (eq_iff _ _).1 (ap (λ x. cs.upper (trim x)) ((eq_iff s reg).0 h) ∙ normalize_reg_norm_idem)
  norm_reg_field-equals none h = cc
  norm_reg_field-equals (some null) h = cc
  norm_reg_field-equals (some (bool b)) h = cc
  norm_reg_field-equals (some (num n)) h = cc
  norm_reg_field-equals (some (arr xs)) h = cc
  norm_reg_field-equals (some (obj fs)) h = cc

  field_is-at_path :
      (key : String) (v : Json)
      → json_equals (at_path (key ∷ []) v) reg ≡ true
      → field_is cs reg key v ≡ true
  field_is-at_path key (obj fs) h =
      norm_reg_field-equals (get key fs)
        (subst (λ x. json_equals x reg ≡ true) (at_path-get key fs) h)
  field_is-at_path key null h = cc
  field_is-at_path key (bool b) h = cc
  field_is-at_path key (num n) h = cc
  field_is-at_path key (str s) h = cc
  field_is-at_path key (arr xs) h = cc

  nested_field_is-at_path :
      (fs : Fields)
      → json_equals (at_path ("jobPayload" ∷ "vehicleRegNo" ∷ []) (obj fs)) reg ≡ true
      → nested_field_is cs reg (get "jobPayload" fs) ≡ true
  nested_field_is-at_path fs h = elim (Option-cases (get "jobPayload" fs)) [
    | inl e ↦ absurd (true≢false (sym (rw (e, at_path, json_equals) at h)))
    | inr (jp, e) ↦ rw e (field_is-at_path "vehicleRegNo" jp (rw (e, at_path) at h))
  ]

  -- An event that one of the three paths finds.
  event_references-at_path :
      (p : Json)
      → (json_equals (at_path ("registrationNoNorm" ∷ []) p) reg ≡ true)
        ⊎ (json_equals (at_path ("vehicleRegNo" ∷ []) p) reg ≡ true)
        ⊎ (json_equals (at_path ("jobPayload" ∷ "vehicleRegNo" ∷ []) p) reg ≡ true)
      → event_references cs reg p ≡ true
  event_references-at_path (obj fs) (inl h) =
      rw (field_is-at_path "registrationNoNorm" (obj fs) h) refl
  event_references-at_path (obj fs) (inr (inl h)) =
      one_of_three _ _ _ (inr (inl (field_is-at_path "vehicleRegNo" (obj fs) h)))
  event_references-at_path (obj fs) (inr (inr h)) =
      one_of_three _ _ _ (inr (inr (nested_field_is-at_path fs h)))
  event_references-at_path null h = ground arith
  event_references-at_path (bool b) h = ground arith
  event_references-at_path (num n) h = ground arith
  event_references-at_path (str s) h = ground arith
  event_references-at_path (arr xs) h = ground arith

  references-where :
      (e : JobEvent)
      → matches passes (timeline_where_by_reg_paths_only reg) e ≡ true
      → json_references_reg_norm cs reg e.payload e.job_payload ≡ true
  unfolding timeline_where_by_reg_paths_only matches json_references_reg_norm
  references-where e h = elim (or-true _ _ h) [
    | inl job ↦ rw (field_is-at_path "vehicleRegNo" e.job_payload job) refl
    | inr event ↦ one_of_two _ _ (event_references-at_path e.payload (split_or _ _ _ event))
  ]

  -- What the filter of the query keeps, the test of the scan accepts.
  scanned-where :
      (tenant : String) (e : JobEvent)
      → normalize_tenant_slug (some tenant) ≡ tenant
      → matches passes (timeline_where_by_json_paths reg tenant) e ≡ true
      → scanned cs reg tenant e ≡ true
  unfolding timeline_where_by_json_paths matches on_link job_event_tenant_where
  scanned-where tenant e normal h =
      let (refs, mine) = &&-true _ _ h in
      and_true _ _
        (subst (λ t. (e.tenant_id == t) ≡ true)
          (ap (λ x. normalize_tenant_slug (some x)) normal ∙ normal) mine)
        (references-where e refs)

module _ (cs : Casing) (has_case : HasCase cs.upper) (env : Env) (table : Table)
    (sound : IsSound table) where
  -- Rows of the tenant's jobs that name the registration, as many as a limit says at most.
  abbrev Scoped : String → String → String → String → ℕ → List TimelineEvent → Type 0
  Scoped raw tenant k reg' n events =
      (rows : List JobEvent) × (events ≡ map_rows rows)
      × (reg' ≡ k)
      × (length rows ≤ n)
      × All
          (λ e.
            (e.tenant_id ≡ tenant) × (json_references_reg_norm cs k e.payload e.job_payload ≡ true))
          rows

  accepted :
      (k tenant : String) (e : JobEvent)
      → scanned cs k tenant e ≡ true
      → (e.tenant_id ≡ tenant) × (json_references_reg_norm cs k e.payload e.job_payload ≡ true)
  accepted k tenant e h =
      let (mine, refs) = &&-true _ _ h in ((eq_iff e.tenant_id tenant).0 mine, refs)

  scan-Scoped :
      (raw tenant k reg' : String) (n : ℕ) (events : List TimelineEvent) (q : Query (List JobEvent))
      → scan cs k tenant n q ≡ ok reg' events
      → Scoped raw tenant k reg' n events
  scan-Scoped raw tenant k reg' n events (found rows) h = (
    take n (filter (scanned cs k tenant) rows),
    sym (ap events_of h),
    sym (ap reg_of h),
    length-take n _,
    All-imp _ _ _ (accepted k tenant) (All-take n _ _ (All-filter (scanned cs k tenant) rows)),
  )
  scan-Scoped raw tenant k reg' n events (thrown m) h = cc

  filtered-Scoped :
      (raw tenant reg' : String) (n : ℕ) (events : List TimelineEvent) (q : Query (List JobEvent))
      → normalize_tenant_slug (some tenant) ≡ tenant
      → table (timeline_where_by_json_paths (normalize_reg_norm cs raw) tenant) n ≡ q
      → filtered_or_scan cs table (normalize_reg_norm cs raw) tenant n q ≡ ok reg' events
      → Scoped raw tenant (normalize_reg_norm cs raw) reg' n events
  filtered-Scoped raw tenant reg' n events (found rows) normal e h =
      let (kept, few) = sound _ n rows e in
      (
        rows,
        sym (ap events_of h),
        sym (ap reg_of h),
        few,
        All-imp _ _ rows
            (λ x m.
              accepted (normalize_reg_norm cs raw) tenant x
                (scanned-where cs has_case raw tenant x normal m))
            kept,
      )
  filtered-Scoped raw tenant reg' n events (thrown m) normal e h =
      scan-Scoped raw tenant (normalize_reg_norm cs raw) reg' n events _ h

  -- With a sound table, and an upper case that is idempotent and keeps white space, a timeline
  -- that is answered has the normalized registration and at most as many events as the limit
  -- says, two hundred at most, all of the tenant's jobs and all naming the registration in their
  -- payload or in their job's: from the filtered query, and from the scan if that fails.
  pub get_vehicle_timeline-scoped :
      (raw tenant_id reg' : String) (limit : ℤ) (events : List TimelineEvent)
      → get_vehicle_timeline cs env table raw limit tenant_id ≡ ok reg' events
      → (rows : List JobEvent) × (events ≡ map_rows rows)
        × (reg' ≡ normalize_reg_norm cs raw)
        × (length rows ≤ min 200 (max 1 (pos_part limit)))
        × All
            (λ e.
              (e.tenant_id ≡ normalize_tenant_slug (some tenant_id))
              × (json_references_reg_norm cs (normalize_reg_norm cs raw) e.payload e.job_payload
                  ≡ true))
            rows
  unfolding get_vehicle_timeline effective_limit
  get_vehicle_timeline-scoped raw tenant_id reg' limit events h =
      elim (Option-cases (ingest_database_url env)) [
        | inl missing ↦ absurd (refused≢ok (rw (missing, get_vehicle_timeline) at h))
        | inr (url, e) ↦
            filtered-Scoped raw (normalize_tenant_slug (some tenant_id)) reg'
              (effective_limit limit) events _ (normalize_tenant_slug_idem (some tenant_id)) refl
              (rw (e, get_vehicle_timeline) at h)
      ]
