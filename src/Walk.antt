-- ===== src/Walk.antt =====
-- internal/cataloger/walk.go: documents are listed again and again until a listing has nothing new,
-- and each is handed to a goroutine once. The goroutines run beside the listings and may change what
-- those return: `listing r` is what the r-th call of `ListAllDocuments` passes to its callback, and
-- the error that it returns.
pub mod Once
pub mod Ends
pub mod Pool
use paperminer.Base.{
  ℕ, zero, suc, Bool, true, false, Option, none, some, List, [], ◌∷◌, ◌++◌, contains, if◌then◌else◌,
}
use paperminer.Errors.{Err}
use paperminer.Paperless.{Document}

-- `seen` and `found` of the source; `submitted` lists the documents given to `tasks.Go`.
pub record WalkState : Type 0 where
  pub seen : List ℕ
  pub found : Bool
  pub submitted : List Document

-- The callback.
unfoldable pub visit : Document → WalkState → WalkState
visit doc s = if contains s.seen doc.id then s else record {
  seen = s.seen ++ (doc.id ∷ []);
  found = true;
  submitted = s.submitted ++ (doc ∷ []);
}

unfoldable pub visit_all : List Document → WalkState → WalkState
unfolding visit
visit_all [] s = s
visit_all (doc ∷ docs) s = visit_all docs (visit doc s)

pub data WalkResult : Type 0 where
  finished : List Document → WalkResult
  failed : Err → List Document → WalkResult

module _ (listing : ℕ → List Document × Option Err) where
  -- `next` is the next iteration, from the state that this one leaves.
  after_listing : Option WalkResult → Option Err → WalkState → Option WalkResult
  after_listing next (some e) s = some (failed e s.submitted)
  after_listing next none s = if s.found then next else some (finished s.submitted)

  -- `none` means that the fuel ran out.
  unfoldable pub walk_loop : ℕ → ℕ → WalkState → Option WalkResult
  unfolding after_listing visit_all
  walk_loop zero r s = none
  walk_loop (suc fuel) r s =
      let (docs, e) = listing r in
      let s' = visit_all docs (record s { found = false }) in
      let next = walk_loop fuel (suc r) s' in after_listing next e s'

  unfoldable pub walk_documents : ℕ → Option WalkResult
  walk_documents fuel = walk_loop fuel 0 (record { seen = []; found = false; submitted = [] })
