-- ===== src/Tests/Directories.antt =====
-- A file system with temporary directories.
use paperminer.Base.{
  ◌≡◌, ◌≢◌, Bool-cases, inl, inr, eq_refl, refl, ◌∙◌, sym, ap, subst, String, Bool, true, false,
  not, ◌&&◌, ◌||◌, List, [], ◌∷◌, arith, str_eq, eq_iff, if◌then◌else◌,
}
use paperminer.Errors.{Err, plain}
use paperminer.Io.{Io, ok, err}
use paperminer.Io.Laws.{result_of, state_of, ok_injective}
use paperminer.Facter.{background}
use paperminer.Documents.{Fs, ExtractVariantFactsOptions, original, extract_variant_facts}
use paperminer.Documents.Cleanup.{IsTidy, extract_variant_facts-IsQuiet}
use paperminer.Tests.World.{bill_facts}

abbrev has : String → List String → Bool
has x [] = false
has x (dir ∷ dirs) = str_eq x dir || has x dirs

-- The directory "tmp" has one below it.
abbrev below : String → String → Bool
below d x = str_eq x d || (str_eq d "tmp" && str_eq x "tmp/doc")

abbrev without : String → List String → List String
without x [] = []
without x (dir ∷ dirs) = if below x dir then without x dirs else dir ∷ without x dirs

-- There is room for one temporary directory.
abbrev taken : List String → Bool
taken dirs = has "tmp" dirs || has "tmp/doc" dirs

abbrev make : Bool → Io (List String) String
make true dirs = (err (plain "file exists"), dirs)
make false dirs = (ok "tmp", "tmp" ∷ dirs)

abbrev disk : Fs (List String) String
disk = record {
  mkdir_temp = λ base pattern dirs. make (taken dirs) dirs;
  remove_all = λ dir dirs. (ok tt, without dir dirs);
  create_temp = λ dir dirs. (ok "tmp/file", dirs);
  close = λ file dirs. (ok tt, dirs);
  file_name = λ file. file;
}

has-without :
    (dir x : String) (dirs : List String)
    → has x (without dir dirs) ≡ (not (below dir x) && has x dirs)
has-without dir x [] = ground arith
has-without dir x (d ∷ dirs) = elim (Bool-cases (str_eq x d)) [
  | inl same ↦
      let e = (eq_iff x d).0 same in
      subst
        (λ y.
          has x (if below dir y then without dir dirs else y ∷ without dir dirs)
          ≡ (not (below dir x) && (str_eq x y || has x dirs)))
        e
        (elim (Bool-cases (below dir x)) [
          | inl under ↦ rw under (has-without dir x dirs ∙ rw under refl)
          | inr apart ↦ rw (apart, eq_refl x) refl
        ])
  | inr other ↦ elim (Bool-cases (below dir d)) [
    | inl under ↦ rw (under, other) (has-without dir x dirs)
    | inr apart ↦ rw (apart, other) (has-without dir x dirs)
  ]
]

free : (x : String) (s : List String) → taken s ≡ false → below "tmp" x ≡ true → has x s ≡ false
free x s e under = elim (Bool-cases (str_eq x "tmp")) [
  | inl is ↦ subst (λ y. has y s ≡ false) (sym ((eq_iff x "tmp").0 is)) (ground arith)
  | inr other ↦ elim (Bool-cases (str_eq x "tmp/doc")) [
    | inl is ↦ subst (λ y. has y s ≡ false) (sym ((eq_iff x "tmp/doc").0 is)) (ground arith)
    | inr neither ↦ absurd (cc (rw (other, neither) at under))
  ]
]

make-ok :
    (b : Bool) (dir : String) (s t : List String)
    → taken s ≡ b
    → make b s ≡ (ok dir, t)
    → ((x : String) → below dir x ≡ true → has x s ≡ false)
      × ((x : String) → x ≢ dir → has x t ≡ has x s)
make-ok true dir s t e h = absurd (cc (result_of h))
make-ok false dir s t e h =
    let same : "tmp" ≡ dir = ok_injective (result_of h) in
    (
      λ x under. free x s e (subst (λ d. below d x ≡ true) (sym same) under),
      λ x apart.
          subst (λ u. has x u ≡ has x s) (state_of h)
            (elim (Bool-cases (str_eq x "tmp")) [
              | inl is ↦ absurd (apart ((eq_iff x "tmp").0 is ∙ same))
              | inr other ↦ rw other refl
            ]),
    )

make-err :
    (b : Bool) (e : Err) (s t : List String)
    → make b s ≡ (err e, t)
    → (x : String) → has x t ≡ has x s
make-err true e s t h x = sym (ap (has x) (state_of h))
make-err false e s t h x = absurd (cc (result_of h))

disk-IsTidy : IsTidy disk (λ path. path) below has
disk-IsTidy = record {
  reflexive = λ d. rw (eq_refl d) refl;
  made = λ base pattern dir s t h. make-ok (taken s) dir s t refl h;
  not_made = λ base pattern e s t h x. make-err (taken s) e s t h x;
  removed = has-without;
  create_temp = λ dir x s. refl;
  close = λ file x s. refl;
}

-- The download fails.
abbrev failing : ExtractVariantFactsOptions (List String) String
failing = record {
  basedir = "";
  client = record {
    download_document_original = λ ctx file id dirs. (err (plain "no network"), dirs);
    download_document_archived = λ ctx file id dirs. (ok tt, dirs);
  };
  extract = λ ctx path dirs. (ok (bill_facts ∷ []), dirs);
  id = 7;
  variant = original;
}

extract_variant_facts-IsQuiet_example :
    has "tmp" (extract_variant_facts disk background failing ("home" ∷ [])).1
    ≡ has "tmp" ("home" ∷ [])
extract_variant_facts-IsQuiet_example =
    extract_variant_facts-IsQuiet disk (λ path. path) below has disk-IsTidy background failing
      (λ file x s. refl) (λ file x s. refl) (λ path x s. refl) "tmp" ("home" ∷ [])
