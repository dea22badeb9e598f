-- ===== src/Env.antt =====
-- `process.env`, and the variables that the services of apps/api-nest read the same way.
use vahan.Prelude.{String, Option, or_option}
use vahan.Js.Text.{present}

abbrev pub Env : Type 0
Env = String → Option String

-- `ingestDatabaseUrl()`, a method of every service with a Prisma client
unfoldable pub ingest_database_url : Env → Option String
ingest_database_url env =
    or_option (present (env "INGEST_DATABASE_URL")) (present (env "DATABASE_URL"))
