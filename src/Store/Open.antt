-- ===== src/Store/Open.antt =====
-- internal/store/open.go: the opening of the database, with github.com/timshannon/bolthold as a
-- parameter.
use paperminer.Base.{ℕ, String}
use paperminer.Errors.{wrap}
use paperminer.Io.{Io, pure, ◌>>=◌, ◌>>◌, or_wrap}

-- `open_file` is `bolthold.Open` on a path, with the timeout in its options, and `reindex` the
-- method `ReIndex` for records of documents.
pub record Bolthold (W Store : Type 0) : Type 0 where
  pub open_file : String → ℕ → Io W Store
  pub reindex : Store → Io W (Unit {0})

unfoldable pub open_store : {W Store : Type 0} → Bolthold W Store → String → ℕ → Io W Store
open_store bolt path timeout = do
  db ← or_wrap (wrap "store") (bolt.open_file path timeout)
  or_wrap (wrap "store indexing") (bolt.reindex db)
  pure db
