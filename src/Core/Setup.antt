-- ===== src/Core/Setup.antt =====
-- `NewProgram` of internal/core/program.go, the environment that it hands to the workflows it makes
-- (internal/core/workflowenv.go), and how internal/cataloger/workflow.go and
-- internal/core/storepruner.go make theirs.
pub mod Laws
use Prim.Native.String.{◌++◌ as ◌<>◌}
use paperminer.Base.{ℕ, ℤ, pos, ◌*◌, ◌^◌, String, List, [], ◌∷◌, ◌++◌, map}
use paperminer.Io.{Io, Result, ok, err, pure, ◌>>=◌, ◌>>◌}
use paperminer.Paths.{base}
use paperminer.Flags.Registration.{Flag, listen_flag, permission_flags, cataloger_flags}
use paperminer.Core.{setup_workflows}
use paperminer.Core.Environment.{WorkflowEnvBase, new_env_base}

-- What `NewProgram` is given, or takes from packages: the path of the program, how flags are added to
-- the application of kingpin, the logger and how one is made for a workflow, the global registry of
-- plugins, a new registry of metrics, the routes, and the flags of the Paperless client.
pub record Parts (W Plugins Metrics Router Logger : Type 0) : Type 0 where
  pub args0 : String
  pub add_flags : List Flag → W → W
  pub logger : Logger
  pub with_workflow : Logger → String → Logger
  pub plugins : Plugins
  pub metrics : Metrics
  pub router : Router
  pub client_flags : List Flag

-- `workflowEnv`: the parts of the program, what `Run` makes, and the logger of one workflow.
pub record WorkflowEnv (W Made Plugins Metrics Router Logger : Type 0) : Type 0 where
  pub parts : Parts W Plugins Metrics Router Logger
  pub made : Made
  pub logger : Logger

pub record Program (Plugins Metrics Router Logger V : Type 0) : Type 0 where
  pub name : String
  pub logger : Logger
  pub plugin_registry : Plugins
  pub metrics_registry : Metrics
  pub metrics_prefix : String
  pub mux : Router
  pub workflows : List V

-- Flags are registered with the application of kingpin, and no error is returned.
unfoldable pub register : {W : Type 0} → (List Flag → W → W) → List Flag → Io W (Unit {0})
register add_flags flags s = (ok tt, add_flags flags s)

module _ {W Made Plugins Metrics Router Logger : Type 0} where
  abbrev pub env_app : WorkflowEnv W Made Plugins Metrics Router Logger → List Flag → W → W
  env_app e = e.parts.add_flags

  abbrev pub env_logger : WorkflowEnv W Made Plugins Metrics Router Logger → Logger
  env_logger e = e.logger

  abbrev pub program_name : WorkflowEnv W Made Plugins Metrics Router Logger → String
  program_name e = base e.parts.args0

  abbrev pub env_plugin_registry : WorkflowEnv W Made Plugins Metrics Router Logger → Plugins
  env_plugin_registry e = e.parts.plugins

  abbrev pub env_metrics_registry : WorkflowEnv W Made Plugins Metrics Router Logger → Metrics
  env_metrics_registry e = e.parts.metrics

  abbrev pub env_mux : WorkflowEnv W Made Plugins Metrics Router Logger → Router
  env_mux e = e.parts.router

-- A workflow that is made, with its environment: the cataloger, or the pruner with its delays.
pub data NewWorkflow (E : Type 0) : Type 0 where
  cataloger : E → NewWorkflow E
  store_pruner : E → ℤ → ℤ → NewWorkflow E

module _ {W Made Plugins Metrics Router Logger : Type 0} where
  unfoldable pub new_cataloger :
      WorkflowEnv W Made Plugins Metrics Router Logger
      → Io W (NewWorkflow (WorkflowEnv W Made Plugins Metrics Router Logger))
  unfolding register
  new_cataloger env = do
    register (env_app env) (cataloger_flags (program_name env))
    pure (cataloger env)

  unfoldable pub new_store_pruner :
      WorkflowEnv W Made Plugins Metrics Router Logger
      → Io W (NewWorkflow (WorkflowEnv W Made Plugins Metrics Router Logger))
  new_store_pruner env = pure (store_pruner env (pos 0) (pos (3600 * 10 ^ 9)))

abbrev pub CreateFunc : Type 0 → Type 0 → Type 0
CreateFunc W E = E → Io W (NewWorkflow E)

unfoldable pub workflow_create_funcs :
    {W Made Plugins Metrics Router Logger : Type 0}
    → List (String × CreateFunc W (WorkflowEnv W Made Plugins Metrics Router Logger))
workflow_create_funcs = ("cataloger", new_cataloger) ∷ ("storepruner", new_store_pruner) ∷ []

-- The fields of the program that the others can see.
abbrev pub program_with :
    {W Plugins Metrics Router Logger V : Type 0}
    → Parts W Plugins Metrics Router Logger
    → List V
    → Program Plugins Metrics Router Logger V
program_with parts wfs = record {
  name = base parts.args0;
  logger = parts.logger;
  plugin_registry = parts.plugins;
  metrics_registry = parts.metrics;
  metrics_prefix = base parts.args0 <> "_";
  mux = parts.router;
  workflows = wfs;
}

-- `registerFlags`.
unfoldable pub register_flags :
    {W Plugins Metrics Router Logger : Type 0}
    → Parts W Plugins Metrics Router Logger
    → Io W (Unit {0})
unfolding register listen_flag permission_flags
register_flags parts = do
  register parts.add_flags (listen_flag ∷ parts.client_flags)
  register parts.add_flags permission_flags

-- `Run` has made nothing yet when the workflows are made.
abbrev pub Env : Type 0 → Type 0 → Type 0 → Type 0 → Type 0 → Type 0 → Type 0 → Type 0 → Type 0
Env W Store Client Resolvers Plugins Metrics Router Logger =
    WorkflowEnv W (WorkflowEnvBase Store Client Resolvers) Plugins Metrics Router Logger

module _ {W Store Client Resolvers Plugins Metrics Router Logger : Type 0}
    (parts : Parts W Plugins Metrics Router Logger) where
  create_with :
      String × CreateFunc W (Env W Store Client Resolvers Plugins Metrics Router Logger)
      → Io W (NewWorkflow (Env W Store Client Resolvers Plugins Metrics Router Logger))
  unfolding new_env_base
  create_with (name, create) = create (record {
    parts = parts;
    made = new_env_base;
    logger = parts.with_workflow parts.logger name;
  })

  -- `order` has the entries of `workflowCreateFuncs` in the order in which Go visits the map.
  unfoldable pub new_program :
      List (String × CreateFunc W (Env W Store Client Resolvers Plugins Metrics Router Logger))
      → Io W (
          Program Plugins Metrics Router Logger
            (NewWorkflow (Env W Store Client Resolvers Plugins Metrics Router Logger)))
  unfolding register_flags create_with setup_workflows
  new_program order = do
    register_flags parts
    wfs ← setup_workflows (map create_with order)
    pure (program_with parts wfs)
