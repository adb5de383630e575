-- ===== src/Invoice/Laws.antt =====
-- What the example plugin finds in an invoice.
use Prim.Native.Char.{Char}
use Prim.Native.String.{◌++◌ as ◌<>◌}
use mathlib.Core.Option.{some-injective}
use text.Mathlib.TextLemmas.{nil-append, cons-append}
use paperminer.Base.{
  String, true, false, ◌≡◌, refl, sym, subst, Option, some, [], ◌∷◌, ◌++◌, arith, ◌⊎◌, inl, inr, ap,
  ◌∙◌, All,
}
use paperminer.Errors.{wrap, plain}
use paperminer.Io.{Result, ok, err}
use paperminer.Io.Laws.{ok_injective}
use paperminer.Facts.{Facts, is_empty}
use paperminer.Facter.{Context}
use paperminer.Sketch.{SketchLibrary, Options, Plugin, document_facts}
use paperminer.Sketch.Laws.{HasValid, document_facts-eq_some, document_facts-built}
use paperminer.Sketch.Plugins.{value, must_new, must_new-eq_value}
use paperminer.Invoice.{
  Number, amount, is_short, is_cents, without_zeros, is_digit, trim_space, all_digits, span_digits,
  decimals, parse_float, format, currency_title, join_after, amount_title, facts_of, total_title,
  build, invoice_options,
}

-- The facts of an invoice of that currency and amount, as it is printed.
abbrev pub FactsAre : String → String → Facts → Type 0
FactsAre currency printed f =
    (f.title ≡ some (join_after "Invoice" (currency_title currency ++ (printed ∷ []))))
    × (f.correspondent ≡ some "Acme Lawn Care")
    × (f.set_tags ≡ "invoice" ∷ [])
    × (is_empty f ≡ false)

facts_of-FactsAre :
    (currency : String) (r : Result Number) (f : Facts)
    → facts_of (amount_title currency r) ≡ ok (some f)
    → (v : Number) × (r ≡ ok v) × FactsAre currency (format v) f
unfolding facts_of amount_title is_empty
facts_of-FactsAre currency (ok v) f h =
    let same = some-injective _ _ (ok_injective h) in
    (v, refl, subst (FactsAre currency (format v)) same (refl, refl, refl, refl))
facts_of-FactsAre currency (err e) f h = absurd (cc h)

-- The texts that the expression of the sketch matches as an amount.
abbrev pub IsMatched : String → Type 0
IsMatched text =
    (ds : String) × (all_digits ds ≡ true)
    × (is_short ds ≡ true)
    × ((text ≡ ds)
        ⊎ ((cents : String) × (is_cents cents ≡ true)
            × ((text ≡ ds <> (String.◌∷◌ "." cents)) ⊎ (text ≡ ds <> (String.◌∷◌ "," cents)))))

-- The amount as it is printed: the same digits without zeros in front, and two decimals, which are
-- zeros if the text has none.
abbrev pub IsPrinted : String → String → Type 0
IsPrinted text printed =
    (ds : String) × (all_digits ds ≡ true)
    × (((text ≡ ds) × (printed ≡ without_zeros ds <> ".00"))
        ⊎ ((cents : String) × (is_cents cents ≡ true)
            × (text ≡ ds <> (String.◌∷◌ "." cents))
            × (printed ≡ without_zeros ds <> ("." <> cents))))

span_digits-digits : (ds : String) → all_digits ds ≡ true → span_digits ds ≡ (ds, "")
unfolding span_digits all_digits
span_digits-digits String.[] h = refl
span_digits-digits (String.◌∷◌ c ds) h =
    let digit : is_digit c ≡ true = ground arith in
    let more : all_digits ds ≡ true = ground arith in
    rw digit (rw (span_digits-digits ds more) refl)

span_digits-append :
    (ds : String) (c : Char) (cs : String)
    → all_digits ds ≡ true
    → is_digit c ≡ false
    → span_digits (ds <> (String.◌∷◌ c cs)) ≡ (ds, String.◌∷◌ c cs)
unfolding span_digits all_digits
span_digits-append String.[] c cs h stop = rw (nil-append (String.◌∷◌ c cs)) (rw stop refl)
span_digits-append (String.◌∷◌ d ds) c cs h stop =
    let digit : is_digit d ≡ true = ground arith in
    let more : all_digits ds ≡ true = ground arith in
    rw (cons-append d ds (String.◌∷◌ c cs))
      (rw digit (rw (span_digits-append ds c cs more stop) refl))

parse_float-comma :
    (elsewhere : String → Result Number) (ds cs : String)
    → all_digits ds ≡ true
    → parse_float elsewhere (ds <> (String.◌∷◌ "," cs)) ≡ err (plain "invalid syntax")
unfolding parse_float decimals
parse_float-comma elsewhere ds cs h = rw (span_digits-append ds "," cs h refl) refl

parse_float-digits :
    (elsewhere : String → Result Number) (ds : String)
    → all_digits ds ≡ true
    → is_short ds ≡ true
    → parse_float elsewhere ds ≡ ok (amount ds "00")
unfolding parse_float decimals
parse_float-digits elsewhere ds h short = rw (span_digits-digits ds h) (rw short refl)

parse_float-point :
    (elsewhere : String → Result Number) (ds cents : String)
    → all_digits ds ≡ true
    → is_short ds ≡ true
    → is_cents cents ≡ true
    → parse_float elsewhere (ds <> (String.◌∷◌ "." cents)) ≡ ok (amount ds cents)
unfolding parse_float decimals
parse_float-point elsewhere ds cents h short two =
    rw (span_digits-append ds "." cents h refl) (rw (two, short) refl)

-- A text that is matched and that is a number is printed with two decimals.
format-IsPrinted :
    (elsewhere : String → Result Number) (text : String) (v : Number)
    → IsMatched text
    → parse_float elsewhere text ≡ ok v
    → IsPrinted text (format v)
unfolding format
format-IsPrinted elsewhere text v (ds, digits, short, inl is) h =
    let e : amount ds "00" ≡ v = ok_injective (
      sym (parse_float-digits elsewhere ds digits short)
      ∙ ap (parse_float elsewhere) (sym is)
      ∙ h) in
    (ds, digits, inl (is, ap format (sym e)))
format-IsPrinted elsewhere text v (ds, digits, short, inr (cents, two, inl is)) h =
    let e : amount ds cents ≡ v = ok_injective (
      sym (parse_float-point elsewhere ds cents digits short two)
      ∙ ap (parse_float elsewhere) (sym is)
      ∙ h) in
    (ds, digits, inr (cents, two, is, ap format (sym e)))
format-IsPrinted elsewhere text v (ds, digits, short, inr (cents, two, inr is)) h = absurd (
    cc
      (sym (parse_float-comma elsewhere ds cents digits) ∙ ap (parse_float elsewhere) (sym is) ∙ h))

module _ {W Doc Message Sk Report Node : Type 0} (lib : SketchLibrary W Doc Message Sk Report Node)
    (elsewhere : String → Result Number) (named : Node → String → String)
    (sketch_textproto : String) where
  build-FactsAre :
      (report : Report) (f : Facts) (total : Node)
      → lib.node_by_name report "bill_total" ≡ some total
      → build elsewhere lib.node_by_name named report ≡ ok (some f)
      → (v : Number) × (parse_float elsewhere (trim_space (named total "value")) ≡ ok v)
        × FactsAre (trim_space (named total "currency")) (format v) f
  unfolding build total_title
  build-FactsAre report f total found h =
      facts_of-FactsAre (trim_space (named total "currency"))
        (parse_float elsewhere (trim_space (named total "value"))) f (rw found at h)

  -- If the plugin that `MustNew` makes of the options finds facts, the first page has both required
  -- nodes, valid, the amount has no comma, and the facts are those of an invoice: its title has the
  -- currency, if there is one, and the amount with two decimals, and they are not empty. A valid node
  -- for the amount has a text that the sketch's expression matches.
  pub invoice_facts :
      (p : Plugin Message Report Sk) (ctx : Context) (doc : Doc) (f : Facts) (s s' : W)
      → ((report : Report) (node : Node)
          → lib.node_by_name report "bill_total" ≡ some node
          → lib.valid node ≡ true
          → IsMatched (trim_space (named node "value")))
      → must_new lib (invoice_options lib elsewhere named sketch_textproto) ≡ value p
      → document_facts lib p ctx doc s ≡ (ok (some f), s')
      → (report : Report) × (total : Node) × (printed : String) × (lib.next p.s doc ctx s
          ≡ (ok report, s'))
        × HasValid lib report "correspondent"
        × (lib.node_by_name report "bill_total" ≡ some total)
        × (lib.valid total ≡ true)
        × IsPrinted (trim_space (named total "value")) printed
        × FactsAre (trim_space (named total "currency")) printed f
  unfolding invoice_options
  invoice_facts p ctx doc f s s' matched made h =
      let opts = invoice_options lib elsewhere named sketch_textproto in
      let (same_opts, same_build) = must_new-eq_value lib opts p made in
      let (report, page, valid, built) = document_facts-eq_some lib p ctx doc f s s' h in
      let required =
        subst (λ (o : Options Message Report). All (HasValid lib report) o.required) (sym same_opts)
          valid in
      let (sender, ((total, found, good), rest)) = required in
      let built_so =
        subst (λ (b : Report → Result (Option Facts)). b report ≡ ok (some f))
          (sym (some-injective _ _ same_build)) built in
      let (v, parsed, are) = build-FactsAre report f total found built_so in
      let text = trim_space (named total "value") in
      let printed = format-IsPrinted elsewhere text v (matched report total found good) parsed in
      (report, total, format v, page, sender, found, good, printed, are)

module _ {W Doc Message Sk Report Node : Type 0} (lib : SketchLibrary W Doc Message Sk Report Node)
    (elsewhere : String → Result Number) (named : Node → String → String)
    (sketch_textproto : String) where
  -- On a page with both required nodes, valid, whose amount is written with a comma, the plugin fails.
  pub invoice_comma :
      (p : Plugin Message Report Sk) (ctx : Context) (doc : Doc) (report : Report) (total : Node)
      (ds cs : String) (s s' : W)
      → must_new lib (invoice_options lib elsewhere named sketch_textproto) ≡ value p
      → lib.next p.s doc ctx s ≡ (ok report, s')
      → HasValid lib report "correspondent"
      → lib.node_by_name report "bill_total" ≡ some total
      → lib.valid total ≡ true
      → trim_space (named total "value") ≡ ds <> (String.◌∷◌ "," cs)
      → all_digits ds ≡ true
      → document_facts lib p ctx doc s ≡ (err (wrap "building facts" (plain "invalid syntax")), s')
  unfolding invoice_options build total_title amount_title facts_of
  invoice_comma p ctx doc report total ds cs s s' made page sender found good text digits =
      let opts = invoice_options lib elsewhere named sketch_textproto in
      let (same_opts, same_build) = must_new-eq_value lib opts p made in
      let valid =
        subst (λ (o : Options Message Report). All (HasValid lib report) o.required) same_opts
          (sender, ((total, found, good), tt)) in
      let fails : build elsewhere lib.node_by_name named report ≡ err (plain "invalid syntax") =
        rw found (rw text (rw (parse_float-comma elsewhere ds cs digits) refl)) in
      document_facts-built lib p ctx doc report (err (plain "invalid syntax")) s s' page valid (
        subst (λ (b : Report → Result (Option Facts)). b report ≡ err (plain "invalid syntax"))
          (some-injective _ _ same_build) fails)
