-- ===== src/Db/Schema.antt =====
-- `Connect` of internal/db/db.go, with schema.sql.
use varis.Base.{◌&&◌, List, [], ◌∷◌, if◌then◌else◌, Text, codes, text_eq, Result, ok}
use varis.Base.Effect.{Effect, lift, ◌>>◌}
use varis.Db.{Catalog, MediaType, Postgres, optical, statement}

-- The two updates at the end of schema.sql. The statements in front of them only make what is not
-- there yet.
unfoldable pub backfill : Text → Text → List MediaType → List MediaType
backfill name prefix [] = []
backfill name prefix (mt ∷ types) =
    let rest = backfill name prefix types in
    if text_eq mt.name name && text_eq mt.id_prefix (codes "DISC")
    then record mt { id_prefix = prefix; write_kind = optical } ∷ rest
    else mt ∷ rest

unfoldable pub apply_schema : Effect Catalog (Unit {0})
unfolding backfill
apply_schema db = (
  ok tt,
  record db {
    media_types =
        backfill (codes "BD-R DL") (codes "BDDL")
          (backfill (codes "BD-R") (codes "BD") db.media_types);
  },
)

-- `new_pool` is `pgxpool.New`.
unfoldable pub connect : (Text → Result (Unit {0})) → Postgres → Text → Effect Catalog (Unit {0})
unfolding apply_schema
connect new_pool pg url = lift (new_pool url) >> statement pg apply_schema
