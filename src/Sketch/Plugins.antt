-- ===== src/Sketch/Plugins.antt =====
-- pkg/sketchfacts/plugin.go: a sketch as a plugin of the registry.
use paperminer.Errors.{Err}
use paperminer.Io.{Result, ok, err, pure}
use paperminer.Facter.{DocumentFacter, RegistryEntry}
use paperminer.Base.{◌≡◌, refl, ap, ◌∙◌, Option, none, some}
use paperminer.Facts.{Facts}
use paperminer.Sketch.{SketchLibrary, Options, Plugin, compiled, with_build, new, document_facts}

-- A call that returns a value or panics with an error.
pub data Attempt (A : Type 0) : Type 0 where
  value : A → Attempt A
  panicked : Err → Attempt A

abbrev pub value_or_panic : {A : Type 0} → Result A → Attempt A
value_or_panic (ok a) = value a
value_or_panic (err e) = panicked e

abbrev opts_of :
    {Message Report Sk : Type 0}
    → Options Message Report
    → Attempt (Plugin Message Report Sk)
    → Options Message Report
opts_of other (value p) = p.opts
opts_of other (panicked e) = other

abbrev build_of :
    {Message Report Sk : Type 0}
    → Attempt (Plugin Message Report Sk)
    → Option (Report → Result (Option Facts))
build_of (value p) = some p.build
build_of (panicked e) = none

module _ {W Doc Message Sk Report Node : Type 0}
    (lib : SketchLibrary W Doc Message Sk Report Node) where
  unfoldable pub must_new : Options Message Report → Attempt (Plugin Message Report Sk)
  unfolding new
  must_new opts = value_or_panic (new lib opts)

  unfoldable pub as_facter : Plugin Message Report Sk → DocumentFacter W Doc
  unfolding document_facts
  as_facter p = record { info_name = p.opts.name; document_facts = document_facts lib p }

  -- Instances are stateless: `New` returns the plugin itself.
  unfoldable pub plugin_info : Plugin Message Report Sk → RegistryEntry W Doc
  unfolding as_facter
  plugin_info p = record { name = p.opts.name; make = pure (as_facter p) }

  -- A plugin that `MustNew` returns has the options and the `Build` that it was given.
  pub must_new-eq_value :
      (opts : Options Message Report) (p : Plugin Message Report Sk)
      → must_new opts ≡ value p
      → (opts ≡ p.opts) × (opts.build ≡ some p.build)
  unfolding must_new new compiled with_build
  must_new-eq_value opts p h = inspect (compiled lib opts.textproto opts.sketch) opts.build refl h
    where
      inspect :
          (r : Result Sk) (b : Option (Report → Result (Option Facts)))
          → opts.build ≡ b
          → value_or_panic (with_build lib opts r b) ≡ value p
          → (opts ≡ p.opts) × (opts.build ≡ some p.build)
      inspect (ok s) (some b) same e = (ap (opts_of opts) e, same ∙ ap build_of e)
      inspect (ok s) none same e = absurd (cc e)
      inspect (err x) b same e = absurd (cc e)
