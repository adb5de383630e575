-- ===== src/Documents.antt =====
-- internal/document and internal/fsutil: a document's variants are downloaded to a temporary
-- directory, facts are extracted from the files, and the first variant with facts is used.
pub mod Laws
pub mod Cleanup
use paperminer.Base.{ℕ, String, Bool, true, false, Option, none, some, List, [], ◌∷◌, if◌then◌else◌}
use paperminer.Errors.{Err, plain, wrap, combined, append_into}
use paperminer.Io.{Io, Result, ok, err, pure, fail, lift, continue, ◌>>=◌, ◌>>◌, or_wrap}
use paperminer.Facts.{Facts, is_empty}
use paperminer.Facter.{Context, FactsSlice, best}

-- A `Variant` is an integer: 0, 1, or one that has no name.
pub data Variant : Type 0 where
  archived original : Variant
  unnamed : ℕ → Variant

-- `if !(facts == nil || facts.IsEmpty())`.
abbrev pub is_useful : Option Facts → Bool
is_useful none = false
is_useful (some f) = if is_empty f then false else true

abbrev pub of_error : Option Err → Result (Option Facts)
of_error none = ok none
of_error (some e) = err e

module _ {W : Type 0} where
  -- What an iteration of `ExtractFacts` does with the answer for its variant; `next` goes on with
  -- the errors so far.
  after_variant :
      (Option Err → Io W (Option Facts)) → Option Err → Result (Option Facts) → Io W (Option Facts)
  after_variant next all_err (err e) s = next (append_into all_err (wrap "variant" e)) s
  after_variant next all_err (ok facts) s =
      if is_useful facts then (ok facts, s) else next all_err s

  extract_loop : (Variant → Io W (Option Facts)) → List Variant → Option Err → Io W (Option Facts)
  unfolding after_variant
  extract_loop extract [] all_err s = (of_error all_err, s)
  extract_loop extract (v ∷ variants) all_err s =
      let (r, s') = extract v s in after_variant (extract_loop extract variants) all_err r s'

  unfoldable pub extract_facts :
      (Variant → Io W (Option Facts)) → List Variant → Io W (Option Facts)
  unfolding extract_loop
  extract_facts extract variants = extract_loop extract variants none

-- The client's download calls: a context, the file to write to, and the document's ID.
pub record VariantFactsClient (W File : Type 0) : Type 0 where
  pub download_document_original : Context → File → ℕ → Io W (Unit {0})
  pub download_document_archived : Context → File → ℕ → Io W (Unit {0})

-- The calls of package os: directories are paths, files are handles with a name.
pub record Fs (W File : Type 0) : Type 0 where
  pub mkdir_temp : String → String → Io W String
  pub remove_all : String → Io W (Unit {0})
  pub create_temp : String → Io W File
  pub close : File → Io W (Unit {0})
  pub file_name : File → String

-- The functions that stand between a file and its facts: `dossier.NewDocument` and its `Validate`.
pub record Dossier (W Doc : Type 0) : Type 0 where
  pub new_document : String → Doc
  pub validate : Context → Doc → Io W (Unit {0})

-- `multierr.Append` on the error of the body and that of the cleanup.
abbrev pub joined : {A : Type 0} → Result A → Result (Unit {0}) → Result A
joined (ok a) (ok u) = ok a
joined (ok a) (err e) = err e
joined (err e) (ok u) = err e
joined (err e) (err f) = err (combined e f)

module _ {W File : Type 0} where
  unfoldable pub select_download_function :
      VariantFactsClient W File → Variant → Result (Context → File → ℕ → Io W (Unit {0}))
  select_download_function cl archived = ok cl.download_document_archived
  select_download_function cl original = ok cl.download_document_original
  select_download_function cl (unnamed n) = err (plain "missing download function for variant")

  -- The rest of `download` behind `os.CreateTemp`. The deferred `Close` runs last, and its error is
  -- assigned to a variable that is no result.
  download_to :
      Fs W File → (Context → File → ℕ → Io W (Unit {0})) → Context → ℕ → File → Io W String
  download_to fs fn ctx id file s =
      let (r, s1) = fn ctx file id s in
      let (closed, s2) = fs.close file s1 in
      (elim r [ ok u ↦ ok (fs.file_name file) | err e ↦ err e ], s2)

  unfoldable pub download :
      Fs W File → Context → String → (Context → File → ℕ → Io W (Unit {0})) → ℕ → Io W String
  unfolding download_to
  download fs ctx tmpdir fn id = do file ← fs.create_temp tmpdir; download_to fs fn ctx id file

  -- `fsutil.CreateTempdir`: the directory, and the function that removes it.
  unfoldable pub create_tempdir : Fs W File → String → String → Io W (String × Io W (Unit {0}))
  create_tempdir fs dir pattern = do
    path ← fs.mkdir_temp dir pattern
    pure (path, fs.remove_all path)

module _ {W A : Type 0} where
  -- `defer multierr.AppendFunc(&err, cleanup)` on the named result: facts that are returned beside
  -- an error are not used by the caller.
  unfoldable pub with_cleanup : Io W (Unit {0}) → Io W A → Io W A
  with_cleanup cleanup body s = let (r, s1) = body s in let (c, s2) = cleanup s1 in (joined r c, s2)

pub record ExtractVariantFactsOptions (W File : Type 0) : Type 0 where
  pub basedir : String
  pub client : VariantFactsClient W File
  pub extract : Context → String → Io W FactsSlice
  pub id : ℕ
  pub variant : Variant

module _ {W File : Type 0} (fs : Fs W File) where
  unfoldable pub variant_body :
      Context
      → ExtractVariantFactsOptions W File
      → (Context → File → ℕ → Io W (Unit {0}))
      → String
      → Io W (Option Facts)
  unfolding download
  variant_body ctx o fn tmpdir = do
    path ← or_wrap (wrap "download") (download fs ctx tmpdir fn o.id)
    all ← or_wrap (wrap "extracting facts") (o.extract ctx path)
    lift (best all)

  -- What follows the choice of the download function.
  unfoldable pub in_tempdir :
      Context
      → ExtractVariantFactsOptions W File
      → (Context → File → ℕ → Io W (Unit {0}))
      → Io W (Option Facts)
  unfolding variant_body with_cleanup create_tempdir
  in_tempdir ctx o fn = do
    (tmpdir, cleanup) ← create_tempdir fs o.basedir "doc-*"
    with_cleanup cleanup (variant_body ctx o fn tmpdir)

  unfoldable pub extract_variant_facts :
      Context → ExtractVariantFactsOptions W File → Io W (Option Facts)
  unfolding in_tempdir select_download_function
  extract_variant_facts ctx o = do
    fn ← lift (select_download_function o.client o.variant)
    in_tempdir ctx o fn

-- `MakeFileFactsExtractor`; `extract` is the facter group's `Extract`, whose slice is dropped when
-- it comes with an error.
module _ {W Doc : Type 0} (d : Dossier W Doc) where
  slice_or_error : FactsSlice × Option Err → Result FactsSlice
  slice_or_error (all, none) = ok all
  slice_or_error (all, some e) = err (wrap "fact extraction" e)

  unfoldable pub make_file_facts_extractor :
      (Context → Doc → W → (FactsSlice × Option Err) × W) → Context → String → Io W FactsSlice
  unfolding slice_or_error
  make_file_facts_extractor extract ctx path = do
    let doc = d.new_document path
    or_wrap (wrap "file validation") (d.validate ctx doc)
    λ s. let (all, s') = extract ctx doc s in (slice_or_error all, s')
