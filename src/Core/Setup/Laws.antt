-- ===== src/Core/Setup/Laws.antt =====
-- What `NewProgram` makes and registers.
use mathlib.Core.List.{append_assoc, reverse}
use paperminer.Base.{
  String, ◌≡◌, refl, sym, ap, subst, ◌∙◌, ◌⊎◌, inl, inr, true, List, [], ◌∷◌, ◌++◌, All, length,
  pos, ◌*◌, ◌^◌,
}
use paperminer.Io.{ok}
use paperminer.Paths.{base}
use paperminer.Flags.Registration.{
  Flag, listen_flag, permission_flags, cataloger_flags, all_flags, are_distinct,
}
use paperminer.Flags.Registration.Distinct.{initial_of, all_flags-are_distinct}
use paperminer.Core.{setup_workflows}
use paperminer.Core.Environment.{
  new_env_base, or_panic, panics, env_store, env_client, env_resolvers,
}
use paperminer.Core.Setup.{
  Parts, Program, NewWorkflow, cataloger, store_pruner, new_cataloger, new_store_pruner, register,
  workflow_create_funcs, register_flags, CreateFunc, Env, create_with, new_program, program_with,
}

-- The environment of a made workflow.
abbrev pub env_of : {E : Type 0} → NewWorkflow E → E
env_of (cataloger e) = e
env_of (store_pruner e min_delay next_delay) = e

module _ {W Plugins Metrics Router Logger : Type 0} (parts : Parts W Plugins Metrics Router Logger)
    (flags : W → List Flag) where
  -- The state when all flags are added.
  abbrev all_added : W → W
  all_added s =
      parts.add_flags (cataloger_flags (base parts.args0))
        (parts.add_flags permission_flags (parts.add_flags (listen_flag ∷ parts.client_flags) s))

  all_added-flags :
      ((fs : List Flag) (s : W) → flags (parts.add_flags fs s) ≡ flags s ++ fs)
      → (s : W) → flags (all_added s) ≡ flags s ++ all_flags parts.client_flags (base parts.args0)
  unfolding all_flags
  all_added-flags adds s =
      let own = cataloger_flags (base parts.args0) in
      let listen = listen_flag ∷ parts.client_flags in
      rw (adds own (parts.add_flags permission_flags (parts.add_flags listen s))) (
        rw (adds permission_flags (parts.add_flags listen s)) (
          rw (adds listen s) (
            ap (λ (fs : List Flag). fs ++ own) (append_assoc (flags s) listen permission_flags)
            ∙ (append_assoc (flags s) (listen ++ permission_flags) own
                ∙ ap (λ (fs : List Flag). flags s ++ fs)
                    (append_assoc listen permission_flags own)))))

module _ {W Store Client Resolvers Plugins Metrics Router Logger : Type 0}
    (parts : Parts W Plugins Metrics Router Logger) (flags : W → List Flag) where
  -- The store, the client and the resolvers are not there yet.
  abbrev pub IsEarly :
      NewWorkflow (Env W Store Client Resolvers Plugins Metrics Router Logger) → Type 0
  IsEarly wf =
      let made = (env_of wf).made in
      (env_store made ≡ panics "Store not yet available")
      × (env_client made ≡ panics "Client not yet available")
      × (env_resolvers made ≡ panics "Resolvers not yet available")

  abbrev pub Created :
      List (String × CreateFunc W (Env W Store Client Resolvers Plugins Metrics Router Logger))
      → W
      → Type 0
  Created order s =
      (p : Program Plugins Metrics Router Logger
        (NewWorkflow (Env W Store Client Resolvers Plugins Metrics Router Logger)))
      × (t : W) × (p.name ≡ base parts.args0)
      × (new_program parts order s ≡ (ok p, t))
      × (flags t ≡ flags s ++ all_flags parts.client_flags p.name)
      × (are_distinct (all_flags parts.client_flags p.name) ≡ true)
      × (length p.workflows ≡ 2)
      × All IsEarly p.workflows

  -- The environment of the workflow of a name, as it is made.
  abbrev early_env : String → Env W Store Client Resolvers Plugins Metrics Router Logger
  early_env name = record {
    parts = parts;
    made = new_env_base;
    logger = parts.with_workflow parts.logger name;
  }

  module _ (adds : (fs : List Flag) (s : W) → flags (parts.add_flags fs s) ≡ flags s ++ fs) where
    program_with-Created :
        (order : List
          (String × CreateFunc W (Env W Store Client Resolvers Plugins Metrics Router Logger)))
        (wfs : List (NewWorkflow (Env W Store Client Resolvers Plugins Metrics Router Logger)))
        (s : W)
        → All (λ (f : Flag). initial_of f.name ≡ b'p') parts.client_flags
        → are_distinct parts.client_flags ≡ true
        → length wfs ≡ 2
        → All IsEarly wfs
        → new_program parts order s ≡ (ok (program_with parts wfs), all_added parts flags s)
        → Created order s
    program_with-Created order wfs s begin distinct two early made = (
      program_with parts wfs,
      all_added parts flags s,
      refl,
      made,
      all_added-flags parts flags adds s,
      (all_flags-are_distinct parts.client_flags (base parts.args0) begin distinct).0,
      two,
      early,
    )

    -- In whatever order the map is visited, `NewProgram` succeeds with a program named after its
    -- executable, makes both workflows, whose environments panic when they are asked for the store,
    -- the client or the resolvers, and registers all flags, no two of them with the same name, if the
    -- client's flags begin with a p and are distinct.
    pub new_program-Created :
        (order : List
          (String × CreateFunc W (Env W Store Client Resolvers Plugins Metrics Router Logger)))
        (s : W)
        → (order ≡ workflow_create_funcs) ⊎ (order ≡ reverse workflow_create_funcs)
        → All (λ (f : Flag). initial_of f.name ≡ b'p') parts.client_flags
        → are_distinct parts.client_flags ≡ true
        → Created order s
    unfolding new_program register_flags register setup_workflows create_with workflow_create_funcs
        new_cataloger new_store_pruner env_store env_client env_resolvers or_panic new_env_base
    new_program-Created order s (inl e) begin distinct =
        subst (λ o. Created o s) (sym e)
          (program_with-Created workflow_create_funcs
            (cataloger (early_env "cataloger")
              ∷ store_pruner (early_env "storepruner") (pos 0) (pos (3600 * 10 ^ 9))
              ∷ [])
            s begin distinct refl ((refl, refl, refl), ((refl, refl, refl), tt)) refl)
    new_program-Created order s (inr e) begin distinct =
        subst (λ o. Created o s) (sym e)
          (program_with-Created (reverse workflow_create_funcs)
            (store_pruner (early_env "storepruner") (pos 0) (pos (3600 * 10 ^ 9))
              ∷ cataloger (early_env "cataloger")
              ∷ [])
            s begin distinct refl ((refl, refl, refl), ((refl, refl, refl), tt)) refl)
