-- ===== src/Workflow.antt =====
-- internal/cataloger/workflow.go: the settings of the cataloger, and how its parts are put together.
pub mod Outcome
pub mod Delay
pub mod Retries
pub mod Walks
use paperminer.Base.{
  ℕ, zero, suc, ◌+◌, ◌-◌, ◌*◌, ◌/◌, ◌^◌, ℤ, pos, negsuc, String, Bool, true, false, not, Option,
  none, some, [], ◌∷◌, List, [], ◌∷◌, ltb, ltb_ℤ, if◌then◌else◌,
}
use paperminer.Errors.{Err, sentinel, early_exit}
use paperminer.Io.{Io, Result, ok, err, pure, fail, ◌>>=◌, ◌>>◌}
use paperminer.Paperless.{Document, DocumentMetadata}
use paperminer.Slices.{ExpOps}
use paperminer.Resolver.{get_or_create_by_name}
use paperminer.Resolver.Providers.{ObjectResolvers}
use paperminer.Facts.{Facts}
use paperminer.Facter.{
  Context, FactsSlice, Group, RegistryEntry, group_from_registry, names, extract,
}
use paperminer.Documents.{Fs, Dossier, make_file_facts_extractor}
use paperminer.Updater.{UpdaterClient, UpdaterOptions, Updater, new_updater, do_update}
use paperminer.Store.{bits_64}
use paperminer.Task.{TaskOptions, Task, check_modified, process_document}
use paperminer.Poller.{Options}
use paperminer.Walk.{WalkResult, finished, failed, walk_documents}

-- What the workflow gets from outside: `wf.Environment`, with the file system, the dossier library,
-- the stream of github.com/sourcegraph/conc, the list operations, and the order in which Go visits
-- the two tags of `newUpdater`. `listing tag r` is the r-th answer of the server to the walk.
pub record Environment (W File Doc : Type 0) : Type 0 where
  pub resolvers : ObjectResolvers W
  pub client : UpdaterClient W File
  pub tasks : TaskOptions W
  pub listing : ℕ → ℕ → List Document × Option Err
  pub registry : Io W (List (RegistryEntry W Doc))
  pub fs : Fs W File
  pub dossier : Dossier W Doc
  pub stream :
      List (W → (String × Result (Option Facts)) × W)
      → W
      → List (String × Result (Option Facts)) × W
  pub println : String → Io W (Unit {0})
  pub ops : ExpOps
  pub todo_first : Bool

pub record Workflow (W Doc : Type 0) : Type 0 where
  pub list_facters : Bool
  pub poll_interval : ℤ
  pub tag_name_todo : String
  pub tag_name_failed : String
  pub file_size_max : ℤ
  pub retries_max : ℤ
  pub fact_extract_timeout : ℤ
  pub facters : Group W Doc

-- Durations are nanoseconds.
abbrev pub second : ℕ
second = 10 ^ 9

abbrev pub min_poll_interval : ℤ
min_poll_interval = pos (10 * second)

abbrev pub max_poll_interval : ℤ
max_poll_interval = pos (3600 * second)

-- The `int64` of these bits.
unfoldable pub int_64 : ℕ → ℤ
int_64 b = if ltb b (2 ^ 63) then pos b else negsuc (2 ^ 64 - 1 - b)

abbrev times : ℤ → ℕ → ℤ
times (pos m) n = pos (m * n)
times (negsuc m) zero = pos 0
times (negsuc m) (suc n) = negsuc (suc m * suc n - 1)

-- `math.Pow(1.5, n)` cut to an integer.
unfoldable pub growth : ℕ → ℕ
growth n = 3 ^ n / 2 ^ n

-- The product of two `int64`.
unfoldable pub retry_delay : ℤ → ℕ → ℤ
unfolding int_64 bits_64 growth
retry_delay poll_interval count = int_64 (bits_64 (times poll_interval (growth (1 + count))))

-- `t.RetryCount() >= w.retriesMax`.
unfoldable pub is_last_retry : ℤ → Task → Bool
is_last_retry retries_max t = not (ltb_ℤ (pos t.rec.retry_count) retries_max)

module _ {W File Doc : Type 0} (env : Environment W File Doc) where
  unfoldable pub updater_options : Workflow W Doc → Task → UpdaterOptions W File
  updater_options w t = record {
    resolvers = env.resolvers;
    client = env.client;
    document = t.doc;
    metadata = t.metadata;
    todo_tag_name = w.tag_name_todo;
    failed_tag_name = w.tag_name_failed;
    file_size_max = w.file_size_max;
    extract_timeout = w.fact_extract_timeout;
    extract_file_facts = make_file_facts_extractor env.dossier (extract env.stream w.facters);
    check_modified = check_modified env.tasks t;
  }

  unfoldable pub process_document_inner : Workflow W Doc → Context → Task → Io W (Unit {0})
  process_document_inner w ctx t = do
    u ← new_updater env.todo_first (updater_options w t)
    do_update env.ops env.fs u ctx (is_last_retry w.retries_max t)

  unfoldable pub handle : Workflow W Doc → Context → Document → Io W (Unit {0})
  handle w ctx doc =
      process_document env.tasks doc (process_document_inner w ctx) (retry_delay w.poll_interval)

  -- The goroutines of the walk, one after the other; what one returns is only logged.
  handle_all : Workflow W Doc → Context → List Document → W → W
  handle_all w ctx [] s = s
  handle_all w ctx (doc ∷ docs) s = handle_all w ctx docs (handle w ctx doc s).1

  after_walk : Workflow W Doc → Context → Option WalkResult → Io W (Option WalkResult)
  unfolding handle_all
  after_walk w ctx none s = (ok none, s)
  after_walk w ctx (some (finished docs)) s = (ok (some (finished docs)), handle_all w ctx docs s)
  after_walk w ctx (some (failed e docs)) s = (err e, handle_all w ctx docs s)

  -- `none` means that the fuel of the walk ran out. Of the orders in which the pool may run the
  -- goroutines, this is the one in which all wait until the listings are through; `walk_environment`
  -- is for the walk that runs in any order, where the listings may depend on it (Walk.Pool).
  unfoldable pub process_documents : Workflow W Doc → Context → ℕ → Io W (Option WalkResult)
  unfolding after_walk
  process_documents w ctx fuel = do
    tag ← get_or_create_by_name env.resolvers.tag w.tag_name_todo
    after_walk w ctx (walk_documents (env.listing tag.id) fuel)

  print_all : List String → Io W (Unit {0})
  print_all [] = pure tt
  print_all (l ∷ ls) = env.println l >> print_all ls

  unfoldable pub validate : Workflow W Doc → Io W (Workflow W Doc)
  unfolding print_all
  validate w = do
    facters ← group_from_registry env.registry
    (if w.list_facters
        then (print_all (names facters) >> fail (sentinel early_exit))
        else pure (record w { facters = facters }))

  -- The poller's options in `Run`. The error of a poll is only logged, and `fuel` is that of its walk.
  unfoldable pub poller_options : Workflow W Doc → Context → ℕ → Options W
  unfolding process_documents
  poller_options w ctx fuel = record {
    poll = some (λ s. (process_documents w ctx fuel s).1);
    next_delay = some (λ s. w.poll_interval);
    min_delay = min_poll_interval;
    max_delay = max_poll_interval;
    jitter = record { num = pos 1; den = 10 };
  }
