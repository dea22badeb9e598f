-- ===== src/BullMq/Laws.antt =====
-- The parts of the ids that the services choose.
use Prim.Native.String
use vahan.Prelude.{◌+◌, String, ◌≡◌, refl, ap, ◌∙◌, length, arith}
use vahan.Js.Text.{split, split_at}
use vahan.Js.Text.Laws.{separators, separators-append, length-split}
use vahan.BullMq.{AddRequest, AddResult, refused, RefusesColons}

infixl 65 ◌<>◌
abbrev ◌<>◌ : String → String → String
s <> t = String.◌++◌ s t

pub prefix-separators : (separators b':' "replay:failed-job:" ≡ 2) × (separators b':' ":" ≡ 1)
unfolding split_at
prefix-separators = (refl, refl)

pub child_id-parts :
    (id step : String)
    → length (split b':' (id <> ":" <> step)) ≡ 2 + (separators b':' id + separators b':' step)
child_id-parts id step = rw length-split (
    omega (
      arith,
      separators-append b':' (id <> ":") step,
      separators-append b':' id ":",
      prefix-separators,
    ))

-- An id of two parts is refused.
pub two_parts-refused :
    (add : AddRequest → AddResult) (q : AddRequest) (id step : String)
    → RefusesColons add
    → q.job_id ≡ id <> ":" <> step
    → separators b':' id ≡ 0
    → separators b':' step ≡ 0
    → (message : String) × (add q ≡ refused message)
two_parts-refused add q id step rule is none_in none_of =
    let parts : length (split b':' q.job_id) ≡ 2 =
      ap (λ i. length (split b':' i)) is ∙ child_id-parts id step ∙ omega arith in
    rule q (rw parts (omega arith)) (rw parts (omega arith))

-- So is one of four parts or more, as that of a copy on the dead letter queue.
pub four_parts-refused :
    (add : AddRequest → AddResult) (q : AddRequest) (a b c : String)
    → RefusesColons add
    → q.job_id ≡ "dlq:" <> a <> ":" <> b <> ":" <> c
    → (message : String) × (add q ≡ refused message)
unfolding split_at
four_parts-refused add q a b c rule is =
    let parts : length (split b':' q.job_id)
        ≡ 4 + (separators b':' a + separators b':' b + separators b':' c) =
      ap (λ i. length (split b':' i)) is
      ∙ rw length-split (
          omega (
            arith,
            separators-append b':' ("dlq:" <> a <> ":" <> b <> ":") c,
            separators-append b':' ("dlq:" <> a <> ":" <> b) ":",
            separators-append b':' ("dlq:" <> a <> ":") b,
            separators-append b':' ("dlq:" <> a) ":",
            separators-append b':' "dlq:" a,
            prefix-separators,
          )) in
    rule q (rw parts (omega arith)) (rw parts (omega arith))
