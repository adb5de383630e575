-- ===== src/Tests/Invoicing.antt =====
-- Invoices with a total in the two notations that the sketch accepts.
use paperminer.Base.{
  ℕ, ◌≡◌, refl, inl, inr, true, none, some, [], ◌∷◌, String, str_eq, if◌then◌else◌,
}
use paperminer.Errors.{wrap, plain}
use paperminer.Io.{Result, ok, err}
use paperminer.Facts.{Facts}
use paperminer.Facter.{background}
use paperminer.Sketch.{SketchLibrary, Plugin, document_facts}
use paperminer.Sketch.Laws.{HasValid}
use paperminer.Invoice.{Number, trim_space, build, invoice_options}
use paperminer.Invoice.Laws.{FactsAre, IsPrinted, invoice_facts, invoice_comma}

-- One page with one node, which has all names.
abbrev library : SketchLibrary ℕ ℕ ℕ ℕ ℕ ℕ
library = record {
  compile_from_textproto_string = λ text. ok 0;
  compile = λ m. ok m;
  next = λ s doc ctx n. (ok doc, n);
  node_by_name = λ report name. some report;
  valid = λ node. true;
}

-- No other text is a number.
abbrev nothing_else : String → Result Number
nothing_else text = err (plain "invalid syntax")

abbrev with_value : String → ℕ → String → String
with_value v node name = if str_eq name "value" then v else "€"

abbrev plugin_for : (ℕ → String → String) → Plugin ℕ ℕ ℕ
plugin_for named = record {
  opts = invoice_options library nothing_else named "nodes: {}";
  s = 0;
  build = build nothing_else library.node_by_name named;
}

abbrev with_point : ℕ → String → String
with_point = with_value " 0202.30 "

abbrev with_comma : ℕ → String → String
with_comma = with_value "202,30"

abbrev expected : Facts
expected = record {
  reporter = none;
  title = some "Invoice, Euro, 202.30";
  created = none;
  document_type = none;
  correspondent = some "Acme Lawn Care";
  storage_path = none;
  set_tags = "invoice" ∷ [];
  unset_tags = [];
}

invoice_facts_example :
    (report : ℕ) × (total : ℕ) × (printed : String) × (library.next 0 5 background 1
      ≡ (ok report, 1))
    × HasValid library report "correspondent"
    × (library.node_by_name report "bill_total" ≡ some total)
    × (library.valid total ≡ true)
    × IsPrinted (trim_space (with_point total "value")) printed
    × FactsAre (trim_space (with_point total "currency")) printed expected
unfolding paperminer.Sketch.Plugins.must_new invoice_options document_facts trim_space
    paperminer.Invoice.all_digits paperminer.Invoice.is_cents
invoice_facts_example =
    invoice_facts library nothing_else with_point "nodes: {}" (plugin_for with_point) background 5
      expected 1 1 (λ report node h v. ("0202", refl, refl, inr ("30", refl, inl refl))) refl refl

invoice_comma_example :
    document_facts library (plugin_for with_comma) background 5 1
    ≡ (err (wrap "building facts" (plain "invalid syntax")), 1)
unfolding paperminer.Sketch.Plugins.must_new invoice_options
invoice_comma_example =
    invoice_comma library nothing_else with_comma "nodes: {}" (plugin_for with_comma) background 5 5
      5 "202" "30" 1 1 refl refl (5, refl, refl) refl refl refl refl
