-- ===== src/Core/Environment.antt =====
-- internal/core/workflowenv.go: what a workflow can get from the program. The store, the client and
-- the resolvers are there only once `Run` has made them; before that their accessors panic. The workflows share one environment by
-- a pointer; here it is a value, which is empty when they are made and filled when they are served. The
-- accessors that hand on a field of the program stand in Core/Setup.
use paperminer.Base.{String, Option, none, some}

pub record WorkflowEnvBase (Store Client Resolvers : Type 0) : Type 0 where
  pub store_value : Option Store
  pub client_value : Option Client
  pub resolvers_value : Option Resolvers

pub data Access (A : Type 0) : Type 0 where
  panics : String → Access A
  available : A → Access A

unfoldable pub or_panic : {A : Type 0} → String → Option A → Access A
or_panic text none = panics text
or_panic text (some a) = available a

module _ {Store Client Resolvers : Type 0} where
  unfoldable pub new_env_base : WorkflowEnvBase Store Client Resolvers
  new_env_base = record { store_value = none; client_value = none; resolvers_value = none }

  -- The assignments of `Run`, under the lock.
  unfoldable pub fill :
      Client
      → Store
      → Resolvers
      → WorkflowEnvBase Store Client Resolvers
      → WorkflowEnvBase Store Client Resolvers
  fill client s resolvers e = record e {
    client_value = some client;
    store_value = some s;
    resolvers_value = some resolvers;
  }

  unfoldable pub env_store : WorkflowEnvBase Store Client Resolvers → Access Store
  unfolding or_panic
  env_store e = or_panic "Store not yet available" e.store_value

  unfoldable pub env_client : WorkflowEnvBase Store Client Resolvers → Access Client
  unfolding or_panic
  env_client e = or_panic "Client not yet available" e.client_value

  unfoldable pub env_resolvers : WorkflowEnvBase Store Client Resolvers → Access Resolvers
  unfolding or_panic
  env_resolvers e = or_panic "Resolvers not yet available" e.resolvers_value
