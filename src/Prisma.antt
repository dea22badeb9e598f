-- ===== src/Prisma.antt =====
-- What the services use of Prisma, a package: filters, and the result of a query. A filter is a
-- tree over the tests that a table has, with Prisma's documented reading.
use vahan.Prelude.{String, Bool, ◌&&◌, ◌||◌, true}

-- `{ AND: [a, b] }`, `{ OR: [a, b] }` and `{}` over the tests `F` of one table
pub data Where (F : Type 0) : Type 0 where
  anything : Where F
  test : F → Where F
  both : Where F → Where F → Where F
  either : Where F → Where F → Where F

module _ {F R : Type 0} (passes : F → R → Bool) where
  unfoldable pub matches : Where F → R → Bool
  matches anything r = true
  matches (test f) r = passes f r
  matches (both a b) r = matches a r && matches b r
  matches (either a b) r = matches a r || matches b r

-- A query gives its result, or throws with a message.
pub data Query {ℓ} (A : Type ℓ) : Type ℓ where
  found : A → Query A
  thrown : String → Query A
