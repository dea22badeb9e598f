-- ===== src/Js/Json/Laws.antt =====
-- Reading back a property that was written.
use mathlib.Core.Option.{some-injective}
use vahan.Prelude.{
  String, ◌≡◌, refl, some, subst, sym, Bool-cases, inl, inr, if◌then◌else◌, ◌==◌, eq_iff, arith,
}
use vahan.Js.Json.{Json, Fields, end, field, get, put, AllFields}

pub get-put :
    (k j : String) (v : Json) (fs : Fields)
    → get j (put k v fs) ≡ (if k == j then some v else get j fs)
unfolding get put
get-put k j v end = refl
get-put k j v (field i w fs) = ground (arith, eq_iff k j, eq_iff i k, eq_iff i j, get-put k j v fs)

-- A property of all fields is kept by a write that has it.
pub put-AllFields :
    (P : String → Json → Type 0) (k : String) (v : Json) (fs : Fields)
    → P k v
    → AllFields P fs
    → AllFields P (put k v fs)
unfolding put
put-AllFields P k v end p h = (p, tt)
put-AllFields P k v (field i w fs) p (q, h) = elim (Bool-cases (i == k)) [
  | inl same ↦ rw same (subst (λ j. P j v) (sym ((eq_iff i k).0 same)) p, h)
  | inr other ↦ rw other (q, put-AllFields P k v fs p h)
]

pub AllFields-get :
    (P : String → Json → Type 0) (k : String) (v : Json) (fs : Fields)
    → AllFields P fs
    → get k fs ≡ some v
    → P k v
unfolding get
AllFields-get P k v end h e = cc
AllFields-get P k v (field i w fs) (q, h) e = elim (Bool-cases (i == k)) [
  | inl same ↦
      subst (λ j. P j v) ((eq_iff i k).0 same) (subst (P i) (some-injective w v (rw same at e)) q)
  | inr other ↦ AllFields-get P k v fs h (rw other at e)
]
