-- ===== src/Documents/Cleanup.antt =====
-- The temporary directories of internal/document/variantfacts.go are removed.
use paperminer.Base.{
  ℕ, ◌≡◌, ◌≢◌, refl, sym, subst, ◌∙◌, String, Bool, true, false, not, ◌&&◌, Bool-cases, inl, inr,
}
use paperminer.Errors.{Err, wrap}
use paperminer.Io.{Io, Result, ok, err, continue, ◌>>=◌, or_wrap}
use paperminer.Facter.{Context}
use paperminer.Documents.{
  Fs, Variant, archived, original, unnamed, create_tempdir, in_tempdir, ExtractVariantFactsOptions,
  select_download_function, download_to, download, with_cleanup, variant_body,
  extract_variant_facts,
}

-- `there x s`: in state s the directory x is there. `P` has the places in the file system.
module _ {W P : Type 0} (there : P → W → Bool) where
  -- A call that neither makes nor removes directories.
  abbrev pub IsQuiet : {A : Type 0} → Io W A → Type 0
  IsQuiet m = (x : P) (s : W) → there x (m s).1 ≡ there x s

  continue-IsQuiet :
      {A B : Type 0} (f : A → Io W B) (r : Result A) (x : P) (s : W)
      → ((a : A) → IsQuiet (f a))
      → there x (continue f r s).1 ≡ there x s
  continue-IsQuiet f (ok a) x s h = h a x s
  continue-IsQuiet f (err e) x s h = refl

  >>=-IsQuiet :
      {A B : Type 0} (m : Io W A) (f : A → Io W B)
      → IsQuiet m
      → ((a : A) → IsQuiet (f a))
      → IsQuiet (m >>= f)
  >>=-IsQuiet m f hm hf x s = continue-IsQuiet f (m s).0 x (m s).1 hf ∙ hm x s

-- What is documented of the directory calls; removing is to work. A path leads to a place, and
-- `below d x` tells that x is d or a place under it. A new directory is the only one made, there was
-- nothing at or below its place, and it is removed with all that is below it.
pub record IsTidy {W File P : Type 0} (fs : Fs W File) (place : String → P) (below : P → P → Bool)
    (there : P → W → Bool) : Type 0 where
  pub reflexive : (d : P) → below d d ≡ true
  pub made :
      (base pattern dir : String) (s t : W)
      → fs.mkdir_temp base pattern s ≡ (ok dir, t)
      → ((x : P) → below (place dir) x ≡ true → there x s ≡ false)
        × ((x : P) → x ≢ place dir → there x t ≡ there x s)
  pub not_made :
      (base pattern : String) (e : Err) (s t : W)
      → fs.mkdir_temp base pattern s ≡ (err e, t)
      → (x : P) → there x t ≡ there x s
  pub removed :
      (dir : String) (x : P) (s : W)
      → there x (fs.remove_all dir s).1 ≡ (not (below (place dir) x) && there x s)
  pub create_temp : (dir : String) → IsQuiet there (fs.create_temp dir)
  pub close : (file : File) → IsQuiet there (fs.close file)

module _ {W File P : Type 0} (fs : Fs W File) (place : String → P) (below : P → P → Bool)
    (there : P → W → Bool) (tidy : IsTidy fs place below there) where
  download-IsQuiet :
      (ctx : Context) (tmpdir : String) (fn : Context → File → ℕ → Io W (Unit {0})) (id : ℕ)
      → ((file : File) → IsQuiet there (fn ctx file id))
      → IsQuiet there (download fs ctx tmpdir fn id)
  unfolding download download_to
  download-IsQuiet ctx tmpdir fn id h =
      >>=-IsQuiet there (fs.create_temp tmpdir) (download_to fs fn ctx id) (tidy.create_temp tmpdir)
        (λ file x s. tidy.close file x (fn ctx file id s).1 ∙ h file x s)

  variant_body-IsQuiet :
      (ctx : Context) (o : ExtractVariantFactsOptions W File)
      (fn : Context → File → ℕ → Io W (Unit {0})) (tmpdir : String)
      → ((file : File) → IsQuiet there (fn ctx file o.id))
      → ((path : String) → IsQuiet there (o.extract ctx path))
      → IsQuiet there (variant_body fs ctx o fn tmpdir)
  unfolding variant_body
  variant_body-IsQuiet ctx o fn tmpdir h g =
      >>=-IsQuiet there (or_wrap (wrap "download") (download fs ctx tmpdir fn o.id)) _
        (download-IsQuiet ctx tmpdir fn o.id h)
        (λ path.
          >>=-IsQuiet there (or_wrap (wrap "extracting facts") (o.extract ctx path)) _ (g path)
            (λ all x s. refl))

  cleaned :
      (d x : P) (a b : Bool)
      → (below d x ≡ true → a ≡ false)
      → (x ≢ d → b ≡ a)
      → (not (below d x) && b) ≡ a
  cleaned d x a b new same = elim (Bool-cases (below d x)) [
    | inl under ↦ rw under (sym (new under))
    | inr apart ↦ rw apart (
        same λ e.
          let both : below d d ≡ false = subst (λ y. below d y ≡ false) e apart in
          cc (both, tidy.reflexive d))
  ]

  in_tempdir-IsQuiet :
      (ctx : Context) (o : ExtractVariantFactsOptions W File)
      (fn : Context → File → ℕ → Io W (Unit {0}))
      → ((file : File) → IsQuiet there (fn ctx file o.id))
      → ((path : String) → IsQuiet there (o.extract ctx path))
      → IsQuiet there (in_tempdir fs ctx o fn)
  unfolding in_tempdir create_tempdir with_cleanup
  in_tempdir-IsQuiet ctx o fn h g x s =
      inspect (fs.mkdir_temp o.basedir "doc-*" s).0 (fs.mkdir_temp o.basedir "doc-*" s).1 refl
    where
      inspect :
          (r : Result String) (t : W)
          → fs.mkdir_temp o.basedir "doc-*" s ≡ (r, t)
          → there x (in_tempdir fs ctx o fn s).1 ≡ there x s
      inspect (err e) t failed = rw failed (tidy.not_made o.basedir "doc-*" e s t failed x)
      inspect (ok dir) t is_made =
          let (new, made) = tidy.made o.basedir "doc-*" dir s t is_made in
          let (_, t2) = variant_body fs ctx o fn dir t in
          rw is_made (
            tidy.removed dir x t2
            ∙ cleaned (place dir) x (there x s) (there x t2) (new x)
                (λ apart. variant_body-IsQuiet ctx o fn dir h g x t ∙ made x apart))

  -- `ExtractVariantFacts` leaves exactly the directories that were there before, on every path: where
  -- the downloads and the extraction touch none, and removing a directory works.
  pub extract_variant_facts-IsQuiet :
      (ctx : Context) (o : ExtractVariantFactsOptions W File)
      → ((file : File) → IsQuiet there (o.client.download_document_original ctx file o.id))
      → ((file : File) → IsQuiet there (o.client.download_document_archived ctx file o.id))
      → ((path : String) → IsQuiet there (o.extract ctx path))
      → IsQuiet there (extract_variant_facts fs ctx o)
  unfolding extract_variant_facts select_download_function
  extract_variant_facts-IsQuiet ctx o h_original h_archived g x s = chosen o.variant
    where
      chosen :
          (v : Variant)
          → there x (continue (in_tempdir fs ctx o) (select_download_function o.client v) s).1
            ≡ there x s
      chosen archived =
          in_tempdir-IsQuiet ctx o o.client.download_document_archived h_archived g x s
      chosen original =
          in_tempdir-IsQuiet ctx o o.client.download_document_original h_original g x s
      chosen (unnamed n) = refl
