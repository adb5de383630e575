-- ===== src/Core.antt =====
-- internal/core: the program's start, its temporary store, the pruner's schedule, and the value of
-- flags that take lists (internal/kpflagvalue).
pub mod Environment
pub mod Mux
pub mod Laws
pub mod Serve
pub mod Pollers
pub mod Setup
use paperminer.Base.{
  ℕ, ℤ, String, Bool, true, false, Option, none, some, List, [], ◌∷◌, ◌++◌, str_eq, ◌-ℤ◌, pos, ◌*◌,
  ◌^◌, if◌then◌else◌,
}
use paperminer.Errors.{Err, early_exit, is_error, wrap}
use paperminer.Io.{Io, Result, ok, err, pure, fail, continue, ◌>>=◌, ◌>>◌, or_wrap}
use paperminer.Paperless.{Time, Object}
use paperminer.Resolver.Permissions.{NamedObjectPermissions}
use paperminer.Resolver.Providers.{ObjectResolverClient, ObjectResolvers, new_object_resolvers}
use paperminer.Core.Environment.{WorkflowEnvBase, new_env_base, fill}
use paperminer.Documents.{with_cleanup}
use paperminer.Store.Open.{Bolthold, open_store}
use paperminer.Store.Prune.{Transactions, prune}
use paperminer.Poller.{Options}

-- The calls of package os that the store needs. `missing` is `os.Stat` with `os.ErrNotExist`, and
-- `join` is `filepath.Join` of two elements.
pub record Disk (W Store : Type 0) : Type 0 where
  pub user_cache_dir : Io W String
  pub missing : String → W → Bool × W
  pub mkdir_all : String → Io W (Unit {0})
  pub mkdir_temp : String → String → Io W String
  pub remove_all : String → Io W (Unit {0})
  pub join : String → String → String
  pub bolt : Bolthold W Store

module _ {W Store : Type 0} (disk : Disk W Store) where
  unfoldable pub base_dir : String → Io W String
  base_dir dir =
      if str_eq dir "" then or_wrap (wrap "user cache dir") disk.user_cache_dir else pure dir

  unfoldable pub create_dir : String → Io W (Unit {0})
  create_dir dir s =
      let (missing, s') = disk.missing dir s in
      (if missing then or_wrap (wrap "creating store directory") (disk.mkdir_all dir) else pure tt)
        s'

  -- The cleanup that comes with the store does nothing.
  unfoldable pub opened : String → Io W (Store × Io W (Unit {0}))
  unfolding open_store
  opened tmpdir = do s ← open_store disk.bolt (disk.join tmpdir "store.bin") 0; pure (s, pure tt)

  -- The temporary directory is removed when the function returns, with the store open.
  unfoldable pub open_default_store : String → Io W (Store × Io W (Unit {0}))
  unfolding base_dir create_dir opened with_cleanup
  open_default_store dir = do
    base ← base_dir dir
    create_dir base
    tmpdir ← disk.mkdir_temp base "paperminer-*"
    with_cleanup (disk.remove_all tmpdir) (opened tmpdir)

pub data Verdict : Type 0 where
  go_on early : Verdict
  broken : Err → Verdict

-- A workflow is what `Run` of the program asks of it: its `Validate`.
module _ {W : Type 0} where
  judge : Result (Unit {0}) → (W → Verdict × W) → W → Verdict × W
  judge (ok u) rest s = rest s
  judge (err e) rest s = (if is_error e early_exit then early else broken e, s)

  unfoldable pub validate_all : List (Io W (Unit {0})) → W → Verdict × W
  unfolding judge
  validate_all [] s = (go_on, s)
  validate_all (validate ∷ validates) s =
      let (r, s') = validate s in judge r (validate_all validates) s'

  -- `setupWorkflows`: the workflows in the order in which Go visits the map.
  unfoldable pub setup_workflows : {V : Type 0} → List (Io W V) → Io W (List V)
  setup_workflows [] = pure []
  setup_workflows (create ∷ creates) = do
    wf ← or_wrap (wrap "creating workflow") create
    wfs ← setup_workflows creates
    pure (wf ∷ wfs)

-- The rest of the program behind `Run`: the client made from its flags, its permission settings, and
-- `serve`, the group with the server and the workflows, which get what they need from the
-- environment (Core.Serve has the group's steps).
pub record Startup (W Client Store : Type 0) : Type 0 where
  pub build : Io W Client
  pub api : Client → ObjectResolverClient W
  pub flight : String → String → Io W Object → Io W Object
  pub object_permissions : NamedObjectPermissions
  pub disk : Disk W Store
  pub store_dir : String
  pub serve : WorkflowEnvBase Store Client (ObjectResolvers W) → Io W (Unit {0})

module _ {W Client Store : Type 0} (p : Startup W Client Store) where
  unfoldable pub serve_with : Client → Store → Io W (Unit {0})
  unfolding fill new_env_base
  serve_with client s = do
    resolvers ← new_object_resolvers p.flight (p.api client) p.object_permissions
    p.serve (fill client s resolvers new_env_base)

  start : Io W (Unit {0})
  unfolding serve_with with_cleanup
  start = do
    client ← p.build
    (s, cleanup) ← open_default_store p.disk p.store_dir
    with_cleanup cleanup (serve_with client s)

  after_validation : Verdict → Io W (Unit {0})
  unfolding start
  after_validation go_on = start
  after_validation early = pure tt
  after_validation (broken e) = fail e

  -- `(*Program).Run`, without its metrics.
  unfoldable pub run : List (Io W (Unit {0})) → Io W (Unit {0})
  unfolding after_validation
  run validates s = let (v, s') = validate_all validates s in after_validation v s'

-- The store pruner: the options of its poller, and what it does at each poll. The error is logged.
unfoldable pub prune_before : Time → Time
prune_before now = now -ℤ pos (24 * 3600 * 10 ^ 9)

unfoldable pub pruner_options : {W : Type 0} → Transactions W → (W → Time) → ℤ → Options W
unfolding prune_before
pruner_options db now min_delay = record {
  poll = some (λ s. (prune db (prune_before (now s)) s).1);
  next_delay = some (λ s. pos (3600 * 10 ^ 9));
  min_delay = min_delay;
  max_delay = pos 0;
  jitter = record { num = pos 1; den = 10 };
}
