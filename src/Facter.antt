-- ===== src/Facter.antt =====
-- internal/facter: the group of plugins, what it makes of their answers, and the choice among facts.
pub mod Laws
use paperminer.Base.{
  ℕ, ℤ, String, Bool, Option, none, some, List, [], ◌∷◌, ◌++◌, map, length, ◌==◌, if◌then◌else◌,
}
use paperminer.Errors.{Err, plain, wrap, append_into}
use paperminer.Io.{Io, Result, ok, err, pure, lift, ◌>>=◌, or_wrap}
use paperminer.Facts.{Facts, is_empty}

-- A `context.Context`, as far as the program derives one from another.
pub data Context : Type 0 where
  background : Context
  with_timeout : Context → ℤ → Context

abbrev pub FactsSlice : Type 0
FactsSlice = List Facts

-- `FactsSlice.Best`.
unfoldable pub best : FactsSlice → Result (Option Facts)
best [] = ok none
best (f ∷ []) = ok (some f)
best (f ∷ g ∷ rest) = err (plain "unable to select among facts")

-- paperminer.DocumentFacter: plugins are code of the program's users. `Doc` is a dossier document.
pub record DocumentFacter (W Doc : Type 0) : Type 0 where
  pub info_name : String
  pub document_facts : Context → Doc → Io W (Option Facts)

pub record PluginWrapper (W Doc : Type 0) : Type 0 where
  pub name : String
  pub inst : DocumentFacter W Doc

pub record Group (W Doc : Type 0) : Type 0 where
  pub plugins : List (PluginWrapper W Doc)

-- A plugin of the registry (github.com/hansmi/staticplug): its name and its `New`.
pub record RegistryEntry (W Doc : Type 0) : Type 0 where
  pub name : String
  pub make : Io W (DocumentFacter W Doc)

-- `if facts.Reporter == nil { … }`.
abbrev pub with_default : String → Option String → Option String
with_default name none = some name
with_default name (some r) = some r

-- What a callback adds to `result` and `resultErr`.
unfoldable pub report :
    String → Result (Option Facts) → FactsSlice × Option Err → FactsSlice × Option Err
report name (err e) (result, result_err) = (result, append_into result_err (wrap "plugin" e))
report name (ok none) (result, result_err) = (result, result_err)
report name (ok (some facts)) (result, result_err) =
    if is_empty facts
    then (result, result_err)
    else (result ++ (record facts { reporter = with_default name facts.reporter } ∷ []), result_err)

-- The callbacks, in the order in which the plugins were submitted.
unfoldable pub collect :
    List (String × Result (Option Facts)) → FactsSlice × Option Err → FactsSlice × Option Err
unfolding report
collect [] acc = acc
collect ((name, answer) ∷ answers) acc = collect answers (report name answer acc)

module _ {W Doc : Type 0} where
  unfoldable pub new_plugin_wrapper : DocumentFacter W Doc → PluginWrapper W Doc
  new_plugin_wrapper df = record { name = df.info_name; inst = df }

  instantiate : List (RegistryEntry W Doc) → List (PluginWrapper W Doc) → Io W (Group W Doc)
  instantiate [] plugins = pure (record { plugins = plugins })
  instantiate (p ∷ rest) plugins = do
    inst ← or_wrap (wrap "instantiating plugin") p.make
    instantiate rest (plugins ++ (new_plugin_wrapper inst ∷ []))

  -- `implementing` is the registry's `PluginsImplementing(documentFacterType)`.
  unfoldable pub group_from_registry : Io W (List (RegistryEntry W Doc)) → Io W (Group W Doc)
  unfolding instantiate new_plugin_wrapper
  group_from_registry implementing = do plugins ← implementing; instantiate plugins []

  unfoldable pub group_is_empty : Group W Doc → Bool
  group_is_empty g = length g.plugins == 0

  unfoldable pub names : Group W Doc → List String
  names g = map (λ w. w.name) g.plugins

  abbrev ask : Context → Doc → PluginWrapper W Doc → W → (String × Result (Option Facts)) × W
  ask ctx doc w s = let (answer, s') = w.inst.document_facts ctx doc s in ((w.name, answer), s')

  -- `stream` is github.com/sourcegraph/conc/stream: it runs the tasks, at the same time, and hands
  -- their results on in the order of submission.
  unfoldable pub extract :
      (List (W → (String × Result (Option Facts)) × W)
        → W
        → List (String × Result (Option Facts)) × W)
      → Group W Doc
      → Context
      → Doc
      → W
      → (FactsSlice × Option Err) × W
  extract stream g ctx doc s =
      let (answers, s') = stream (map (ask ctx doc) g.plugins) s in (collect answers ([], none), s')
