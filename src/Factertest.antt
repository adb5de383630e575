-- ===== src/Factertest.antt =====
-- pkg/factertest/testcase.go: a test of a facter, which compares the facts it finds in a file with
-- those of a golden file.
pub mod Laws
use Prim.Native.String.{◌++◌ as ◌<>◌, len, slice}
use paperminer.Base.{ℕ, ℤ, pos, ◌-◌, ◌*◌, ◌^◌, String, Bool, true, Option, none, some}
use paperminer.Errors.{wrap}
use paperminer.Io.{Io, Result, ok, err, or_wrap, ◌>>=◌, ◌>>◌}
use paperminer.Facts.{Facts}
use paperminer.Facter.{Context, background, with_timeout, DocumentFacter}
use paperminer.Documents.{Dossier}
use paperminer.Paths.{base, ext}

-- Where golden files are, and how facts are compared: an empty list equals a missing one, and times
-- are equal up to the margin.
pub record Golden : Type 0 where
  pub dir : String
  pub equate_empty : Bool
  pub time_margin : ℤ

unfoldable pub default_golden : Golden
default_golden = record { dir = "./testdata"; equate_empty = true; time_margin = pos 0 }

-- The rest of the world: `run_subtest` is `t.Run`, `assert_golden` is `Assert` of github.com/hansmi/aurum,
-- `marshal` its JSON codec, `go_syntax` the format `%#v`, and `log` is `t.Logf`. A test that has
-- failed, or was ended by `t.Fatalf`, is an error.
pub record Harness (W : Type 0) : Type 0 where
  pub run_subtest : String → Io W (Unit {0}) → Io W (Unit {0})
  pub assert_golden : Golden → String → Option Facts → Io W (Unit {0})
  pub marshal : Facts → Result String
  pub go_syntax : Option Facts → String
  pub log : String → Io W (Unit {0})

pub record TestCase (W Doc : Type 0) : Type 0 where
  pub golden : Golden
  pub facter : DocumentFacter W Doc
  pub test_timeout : ℤ

-- The base of the path, with the extension replaced.
unfoldable pub make_golden_name : String → String
make_golden_name path =
    let name = base path in slice name 0 (len name - len (ext name)) <> ".want.json"

text_or : String → Result String → String
text_or other (ok text) = text
text_or other (err e) = other

unfoldable pub stringify_facts : {W : Type 0} → Harness W → Option Facts → String
unfolding text_or
stringify_facts t none = t.go_syntax none
stringify_facts t (some facts) = text_or (t.go_syntax (some facts)) (t.marshal facts)

module _ {W Doc : Type 0} where
  unfoldable pub new_test_case : DocumentFacter W Doc → TestCase W Doc
  unfolding default_golden
  new_test_case df = record {
    golden = default_golden;
    facter = df;
    test_timeout = pos (60 * 10 ^ 9);
  }

  -- The cancellation at the end of the test is left out.
  unfoldable pub make_context : TestCase W Doc → Context
  make_context tc = with_timeout background tc.test_timeout

  unfoldable pub assert_in : Harness W → Dossier W Doc → TestCase W Doc → String → Io W (Unit {0})
  unfolding make_context
  assert_in t lib tc input = do
    let ctx = make_context tc
    let doc = lib.new_document input
    or_wrap (wrap "Validate() failed") (lib.validate ctx doc)
    facts ← or_wrap (wrap "DocumentFacts() failed") (tc.facter.document_facts ctx doc)
    t.log ("Discovered facts:\n" <> stringify_facts t facts)
    t.assert_golden tc.golden (make_golden_name input) facts

  unfoldable pub assert : Harness W → Dossier W Doc → TestCase W Doc → String → Io W (Unit {0})
  unfolding assert_in
  assert t lib tc input = t.run_subtest (base input) (assert_in t lib tc input)
