-- ===== src/Factertest/Laws.antt =====
-- The names of golden files.
use Prim.Native.String.{◌∷◌, ◌++◌, len}
use text.Mathlib.TextLemmas.{append-ne-nil_of_right_ne-nil, cons-ne-nil}
use text.Mathlib.TextPositions.{len-append, slice-append_left}
use paperminer.Base.{
  ℕ, pos, String, false, refl, sym, ap, subst, ◌∙◌, ◌≡◌, ◌-◌, ◌+◌, ◌*◌, ◌^◌, arith,
}
use paperminer.Errors.{wrap}
use paperminer.Io.{Io, ok, or_wrap}
use paperminer.Io.Laws.{>>=-eq_ok, or_wrap-eq_ok}
use paperminer.Facter.{background, with_timeout, DocumentFacter}
use paperminer.Documents.{Dossier}
use paperminer.Paths.{is_slash, is_dot, has, base}
use paperminer.Paths.Laws.{has-append, base-file, ext-dot}
use paperminer.Factertest.{
  Harness, make_golden_name, make_context, new_test_case, default_golden, stringify_facts,
  assert_in, assert,
}

cut : (a b : ℕ) → (a + b) - b ≡ a
cut a b = omega arith

-- The golden file of a file in any directory, whose name ends in an extension without a dot, is
-- called like the file, with the extension replaced.
pub make_golden_name-file :
    (dir stem x : String)
    → has is_slash stem ≡ false
    → has is_slash x ≡ false
    → has is_dot x ≡ false
    → make_golden_name (dir ++ ("/" ∷ (stem ++ ("." ∷ x)))) ≡ stem ++ ".want.json"
unfolding make_golden_name has
make_golden_name-file dir stem x hs hx hd =
    let f = stem ++ ("." ∷ x) in
    let free : has is_slash f ≡ false =
      rw (has-append is_slash stem ("." ∷ x)) (rw (hs, hx) refl) in
    rw (base-file dir f (append-ne-nil_of_right_ne-nil stem (cons-ne-nil "." x)) free) (
      rw (ext-dot stem x hs hx hd) (
        rw (len-append stem ("." ∷ x))
          (rw (cut (len stem) (len ("." ∷ x))) (rw (slice-append_left stem ("." ∷ x)) refl))))

-- What a test that passes has done.
abbrev pub HasPassed :
    {W Doc : Type 0}
    → Harness W
    → Dossier W Doc
    → DocumentFacter W Doc
    → String
    → String
    → W
    → W
    → Type 0
HasPassed t lib df input golden s s' =
    let doc = lib.new_document input in
    let ctx = with_timeout background (pos (60 * 10 ^ 9)) in
    (facts : _) × (s1 : _) × (s2 : _) × (s3 : _) × (lib.validate ctx doc s ≡ (ok tt, s1))
    × (df.document_facts ctx doc s1 ≡ (ok facts, s2))
    × (t.log ("Discovered facts:\n" ++ stringify_facts t facts) s2 ≡ (ok tt, s3))
    × (t.assert_golden default_golden golden facts s3 ≡ (ok tt, s'))

module _ {W Doc : Type 0} (t : Harness W) (lib : Dossier W Doc) (df : DocumentFacter W Doc) where
  assert_in-eq_ok :
      (input : String) (s s' : W)
      → assert_in t lib (new_test_case df) input s ≡ (ok tt, s')
      → HasPassed t lib df input (make_golden_name input) s s'
  unfolding assert_in make_context new_test_case
  assert_in-eq_ok input s s' h =
      let doc = lib.new_document input in
      let ctx = with_timeout background (pos (60 * 10 ^ 9)) in
      let valid = or_wrap (wrap "Validate() failed") (lib.validate ctx doc) in
      let found = or_wrap (wrap "DocumentFacts() failed") (df.document_facts ctx doc) in
      let (u, s1, e1, h1) = >>=-eq_ok valid _ s s' tt h in
      let (facts, s2, e2, h2) = >>=-eq_ok found _ s1 s' tt h1 in
      let (v, s3, logged, h3) =
        >>=-eq_ok (t.log ("Discovered facts:\n" ++ stringify_facts t facts)) _ s2 s' tt h2 in
      (
        facts,
        s1,
        s2,
        s3,
        or_wrap-eq_ok (wrap "Validate() failed") (lib.validate ctx doc) s s1 tt e1,
        or_wrap-eq_ok (wrap "DocumentFacts() failed") (df.document_facts ctx doc) s1 s2 facts e2,
        logged,
        h3,
      )

  -- A test of a file in some directory that passes, with a `t.Run` that runs the body: the document
  -- was valid, the facter, asked under a context with a timeout of a minute, returned no error, and its
  -- facts, which may be nil, were logged and passed the comparison with the golden file that is called
  -- like the file.
  pub assert-eq_ok :
      (dir stem x : String) (s s' : W)
      → ((name : String) (body : Io W (Unit {0})) → t.run_subtest name body ≡ body)
      → has is_slash stem ≡ false
      → has is_slash x ≡ false
      → has is_dot x ≡ false
      → let path = dir ++ ("/" ∷ (stem ++ ("." ∷ x))) in
        assert t lib (new_test_case df) path s ≡ (ok tt, s')
        → HasPassed t lib df path (stem ++ ".want.json") s s'
  unfolding assert
  assert-eq_ok dir stem x s s' runs hs hx hd h =
      let path = dir ++ ("/" ∷ (stem ++ ("." ∷ x))) in
      let ran = sym (ap (λ (m : Io W (Unit {0})). m s) (runs (base path) _)) ∙ h in
      subst (λ name. HasPassed t lib df path name s s') (make_golden_name-file dir stem x hs hx hd)
        (assert_in-eq_ok path s s' ran)
