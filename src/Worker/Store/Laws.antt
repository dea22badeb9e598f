-- ===== src/Worker/Store/Laws.antt =====
-- What the calls of the store do to the rows.
use vahan.Prelude.{
  String, ◌≡◌, refl, Bool, Option, none, some, List, [], ◌∷◌, if◌then◌else◌, arith, eq_iff,
}
use vahan.Worker.Store.{ScrapeJob, find_row, update_where}

abbrev pub change : (ScrapeJob → Bool) → (ScrapeJob → ScrapeJob) → ScrapeJob → ScrapeJob
change p f j = if p j then f j else j

abbrev pub map_row : (ScrapeJob → ScrapeJob) → Option ScrapeJob → Option ScrapeJob
map_row f none = none
map_row f (some j) = some (f j)

abbrev pub status_of : Option ScrapeJob → Option String
status_of none = none
status_of (some j) = some j.status

pub find_row-update_where :
    (k : String) (p : ScrapeJob → Bool) (f : ScrapeJob → ScrapeJob) (js : List ScrapeJob)
    → ((j : ScrapeJob) → (f j).id ≡ j.id)
    → find_row k (update_where p f js) ≡ map_row (change p f) (find_row k js)
unfolding find_row update_where
find_row-update_where k p f [] keep = refl
find_row-update_where k p f (j ∷ js) keep =
    ground (arith, keep j, find_row-update_where k p f js keep)

pub find_row-id :
    (k : String) (js : List ScrapeJob) (j : ScrapeJob) → find_row k js ≡ some j → j.id ≡ k
unfolding find_row
find_row-id k [] j h = cc
find_row-id k (i ∷ js) j h = ground (arith, eq_iff i.id k, find_row-id k js j)
