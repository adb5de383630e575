-- ===== src/Updater.antt =====
-- internal/cataloger/updater.go: one document is brought up to date with its facts, or marked as
-- failed.
pub mod Size
pub mod Outcome
use paperminer.Base.{
  ℕ, ℤ, pos, String, Bool, true, false, ◌&&◌, ◌||◌, Option, none, some, List, [], ◌∷◌, ◌++◌, ◌==◌,
  ltb_ℤ, if◌then◌else◌,
}
use paperminer.Errors.{
  Err, plain, detail, document_too_large, is_error, as_request, error_text, append_into,
}
use paperminer.Io.{Io, Result, ok, err, pure, fail, lift, ◌>>=◌, ◌>>◌}
use paperminer.Paperless.{Document, DocumentMetadata, DocumentFields, Object}
use paperminer.Facts.{Facts, is_empty_slice}
use paperminer.Slices.{ExpOps}
use paperminer.Resolver.{get_or_create_by_name}
use paperminer.Resolver.Providers.{ObjectResolvers}
use paperminer.Patch.{PatchBuilder, new_patch_builder, set_tag, unset_tag, set_facts, build}
use paperminer.Facter.{Context, with_timeout, FactsSlice}
use paperminer.Documents.{
  Variant, archived, original, is_useful, extract_facts, VariantFactsClient, Fs,
  extract_variant_facts,
}

pub record UpdaterClient (W File : Type 0) : Type 0 where
  pub variants : VariantFactsClient W File
  pub patch_document : ℕ → DocumentFields → Io W (Unit {0})

pub record UpdaterOptions (W File : Type 0) : Type 0 where
  pub resolvers : ObjectResolvers W
  pub client : UpdaterClient W File
  pub document : Document
  pub metadata : DocumentMetadata
  pub todo_tag_name : String
  pub failed_tag_name : String
  pub file_size_max : ℤ
  pub extract_timeout : ℤ
  pub extract_file_facts : Context → String → Io W FactsSlice
  pub check_modified : Io W (Unit {0})

pub record Updater (W File : Type 0) : Type 0 where
  pub options : UpdaterOptions W File
  pub open options use *
  pub todo_tag : Object
  pub failed_tag : Object

-- `errors.As(err, &clientReqErr) && clientReqErr.StatusCode == http.StatusNotFound`.
abbrev is_status_404 : Option ℕ → Bool
is_status_404 none = false
is_status_404 (some code) = code == 404

unfoldable pub is_permanent_error : Err → Bool
is_permanent_error e = is_error e document_too_large || is_status_404 (as_request e)

check : ℤ → String → ℤ → Option Err → Option Err
check limit text size e = if ltb_ℤ limit size then append_into e (plain text) else e

too_large : Option Err → Result (Unit {0})
too_large none = ok tt
too_large (some e) = err (detail document_too_large (error_text e))

unfoldable pub variants_of : Bool → List Variant
variants_of has_archive_version =
    (if has_archive_version then archived ∷ [] else []) ++ (original ∷ [])

module _ {W File : Type 0} where
  -- The loop runs over a map of two entries, in either order.
  unfoldable pub new_updater : Bool → UpdaterOptions W File → Io W (Updater W File)
  new_updater true opts = do
    todo ← get_or_create_by_name opts.resolvers.tag opts.todo_tag_name
    failed ← get_or_create_by_name opts.resolvers.tag opts.failed_tag_name
    pure (record { options = opts; todo_tag = todo; failed_tag = failed })
  new_updater false opts = do
    failed ← get_or_create_by_name opts.resolvers.tag opts.failed_tag_name
    todo ← get_or_create_by_name opts.resolvers.tag opts.todo_tag_name
    pure (record { options = opts; todo_tag = todo; failed_tag = failed })

  unfoldable pub check_size : Updater W File → Result (Unit {0})
  unfolding check too_large
  check_size u =
      let e =
        check u.file_size_max "original file size is too large" u.metadata.original_size none in
      too_large (
        if u.metadata.has_archive_version
        then check u.file_size_max "archive file size is too large" u.metadata.archive_size e
        else e)

  unfoldable pub get_facts : Fs W File → Updater W File → Context → Bool → Io W (Option Facts)
  unfolding variants_of
  get_facts fs u ctx has_archive_version =
      let ctx' =
        if ltb_ℤ (pos 0) u.extract_timeout then with_timeout ctx u.extract_timeout else ctx in
      extract_facts
        (λ v. extract_variant_facts fs ctx' (record {
          basedir = "";
          client = u.client.variants;
          extract = u.extract_file_facts;
          id = u.document.id;
          variant = v;
        }))
        (variants_of has_archive_version)

  unfoldable pub patch_document : Updater W File → DocumentFields → Io W (Unit {0})
  patch_document u patch =
      if is_empty_slice patch
      then pure tt
      else (do u.check_modified; u.client.patch_document u.document.id patch)

  -- The builder with the facts, if there are any.
  unfoldable pub with_facts : Updater W File → Option Facts → Io W PatchBuilder
  with_facts u none = pure (new_patch_builder u.document)
  with_facts u (some facts) =
      if is_useful (some facts)
      then set_facts u.resolvers facts (new_patch_builder u.document)
      else pure (new_patch_builder u.document)

  unfoldable pub apply_facts : ExpOps → Fs W File → Updater W File → Context → Io W (Unit {0})
  apply_facts ops fs u ctx = do
    lift (check_size u)
    facts ← get_facts fs u ctx u.metadata.has_archive_version
    pb ← with_facts u facts
    patch_document u (build ops (unset_tag u.failed_tag.id (unset_tag u.todo_tag.id pb)))

  -- The error is only logged.
  unfoldable pub mark_failed : ExpOps → Updater W File → Err → Io W (Unit {0})
  mark_failed ops u update_err =
      patch_document u (
        build ops
          (set_tag u.failed_tag.id (unset_tag u.todo_tag.id (new_patch_builder u.document))))

  -- `Do`, after `applyFacts`.
  unfoldable pub finish : ExpOps → Updater W File → Bool → Result (Unit {0}) → Io W (Unit {0})
  finish ops u last_retry (ok done) = pure tt
  finish ops u last_retry (err e) =
      if last_retry || is_permanent_error e then mark_failed ops u e else fail e

  unfoldable pub do_update : ExpOps → Fs W File → Updater W File → Context → Bool → Io W (Unit {0})
  unfolding finish
  do_update ops fs u ctx last_retry s =
      let (r, s') = apply_facts ops fs u ctx s in finish ops u last_retry r s'
