-- ===== src/Vehicle/Risk/Order.antt =====
-- The sort of the factors of a risk assessment.
use mathlib.Core.List.{Permᴰ}
use mathlib.Core.List.Permᴰ
use vahan.Prelude.{◌≤◌, refl, inl, inr, List, [], ◌∷◌, leb, All, All-imp, Bool-cases, arith}
use vahan.Vehicle.Risk.{WeightedRiskFactor, insert, sort}

-- Larger contributions first.
abbrev pub IsDescending : List WeightedRiskFactor → Type 0
IsDescending [] = Unit
IsDescending (f ∷ fs) = All (λ g. g.contribution ≤ f.contribution) fs × IsDescending fs

insert-Perm : (f : WeightedRiskFactor) (gs : List WeightedRiskFactor) → Permᴰ (insert f gs) (f ∷ gs)
insert-Perm f [] = Permᴰ.cons refl Permᴰ.nil
insert-Perm f (g ∷ gs) = elim (Bool-cases (leb g.contribution f.contribution)) [
  | inl e ↦ rw e (Permᴰ.refl (f ∷ g ∷ gs))
  | inr e ↦ rw e (Permᴰ.trans (Permᴰ.cons refl (insert-Perm f gs)) (Permᴰ.swap refl refl))
]

pub sort-Perm : (fs : List WeightedRiskFactor) → Permᴰ (sort fs) fs
sort-Perm [] = Permᴰ.nil
sort-Perm (f ∷ fs) = Permᴰ.trans (insert-Perm f (sort fs)) (Permᴰ.cons refl (sort-Perm fs))

-- A bound of a factor and of the others bounds what the insertion gives.
insert-All :
    (f : WeightedRiskFactor) (P : WeightedRiskFactor → Type 0) (gs : List WeightedRiskFactor)
    → P f
    → All P gs
    → All P (insert f gs)
insert-All f P [] p h = (p, tt)
insert-All f P (g ∷ gs) p (q, h) = elim (Bool-cases (leb g.contribution f.contribution)) [
  | inl e ↦ rw e (p, (q, h))
  | inr e ↦ rw e (q, insert-All f P gs p h)
]

insert-IsDescending :
    (f : WeightedRiskFactor) (gs : List WeightedRiskFactor)
    → IsDescending gs
    → IsDescending (insert f gs)
insert-IsDescending f [] h = (tt, tt)
insert-IsDescending f (g ∷ gs) (below, h) = elim (Bool-cases (leb g.contribution f.contribution)) [
  | inl e ↦
      let le : g.contribution ≤ f.contribution = ground arith in
      rw e ((le, All-imp _ _ gs (λ x b. ground arith) below), (below, h))
  | inr e ↦ rw e (
    insert-All f (λ x. x.contribution ≤ g.contribution) gs (ground arith) below,
    insert-IsDescending f gs h,
  )
]

pub sort-IsDescending : (fs : List WeightedRiskFactor) → IsDescending (sort fs)
sort-IsDescending [] = tt
sort-IsDescending (f ∷ fs) = insert-IsDescending f (sort fs) (sort-IsDescending fs)
