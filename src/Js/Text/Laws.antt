-- ===== src/Js/Text/Laws.antt =====
-- `trim` and `present`.
use Prim.Native.Char.{Char, code}
use Prim.Native.String.{[], ◌∷◌}
use Prim.Native.String
use text.Mathlib.TextLemmas.{nil-append, cons-append}
use vahan.Prelude.{
  ℕ, suc, ◌+◌, length, String, ◌≡◌, refl, Option, none, some, true, false, Bool-cases, inl, inr,
  arith, ap,
}
use vahan.Js.Text.{
  split, split_at, is_space, trim_start, trim_end, trim, is_empty, present, cons_end,
}

trim_start_idem : (s : String) → trim_start (trim_start s) ≡ trim_start s
unfolding trim_start
trim_start_idem [] = refl
trim_start_idem (c ∷ s) = elim (Bool-cases (is_space (code c))) [
  | inl space ↦ rw space (trim_start_idem s)
  | inr other ↦ rw other (rw other refl)
]

cons_end_idem : (c : Char) (s : String) → trim_end s ≡ s → trim_end (cons_end c s) ≡ cons_end c s
unfolding trim_end
cons_end_idem c [] h = elim (Bool-cases (is_space (code c))) [
  | inl space ↦ rw space refl
  | inr other ↦ rw other (rw other refl)
]
cons_end_idem c (d ∷ s) h = ap (cons_end c) h

trim_end_idem : (s : String) → trim_end (trim_end s) ≡ trim_end s
unfolding trim_end
trim_end_idem [] = refl
trim_end_idem (c ∷ s) = cons_end_idem c (trim_end s) (trim_end_idem s)

trim_start-cons_end :
    (c : Char) (s : String) → is_space (code c) ≡ false → trim_start (cons_end c s) ≡ cons_end c s
unfolding trim_start
trim_start-cons_end c [] h = rw h (rw h refl)
trim_start-cons_end c (d ∷ s) h = rw h refl

trim_start-trim_end : (s : String) → trim_start (trim_end (trim_start s)) ≡ trim_end (trim_start s)
unfolding trim_start trim_end
trim_start-trim_end [] = refl
trim_start-trim_end (c ∷ s) = elim (Bool-cases (is_space (code c))) [
  | inl space ↦ rw space (trim_start-trim_end s)
  | inr other ↦ rw other (trim_start-cons_end c (trim_end s) other)
]

pub trim_idem : (s : String) → trim (trim s) ≡ trim s
unfolding trim
trim_idem s = rw (trim_start-trim_end s) (trim_end_idem (trim_start s))

pub trim-empty : trim "" ≡ ""
unfolding trim
trim-empty = refl

pub empty-text : (s : String) → is_empty s ≡ true → s ≡ ""
empty-text [] h = refl
empty-text (c ∷ s) h = cc

-- A text that is present is trimmed and not empty.
pub present-some :
    (o : Option String) (t : String) → present o ≡ some t → (trim t ≡ t) × (is_empty t ≡ false)
unfolding present
present-some none t h = cc
present-some (some s) t h = ground (arith, trim_idem s)

pub present-none : (s : String) → present (some s) ≡ none → trim s ≡ ""
unfolding present
present-none s h = empty-text (trim s) (ground arith)

-- The separators of a text, by which it has one part more.
abbrev pub separators : ℕ → String → ℕ
separators sep s = length (split_at sep s).1

pub separators-append :
    (sep : ℕ) (s t : String)
    → separators sep (String.◌++◌ s t) ≡ separators sep s + separators sep t
unfolding split_at
separators-append sep [] t = rw nil-append (omega arith)
separators-append sep (c ∷ s) t = rw cons-append (ground (arith, separators-append sep s t))

pub length-split : (sep : ℕ) (s : String) → length (split sep s) ≡ suc (separators sep s)
unfolding split
length-split sep s = refl
