-- ===== src/Sketch/Laws.antt =====
-- When the plugin of pkg/sketchfacts/plugin.go has facts.
use paperminer.Base.{
  String, ◌≡◌, refl, ap, ◌∙◌, Bool, true, false, Bool-cases, Option-cases, inl, inr, Option, some,
  List, [], ◌∷◌, All,
}
use paperminer.Errors.{iter_done, is_error, wrap}
use paperminer.Io.{Result, ok, err, map_result}
use paperminer.Io.Laws.{result_of, state_of, ok_injective}
use paperminer.Facts.{Facts}
use paperminer.Facter.{Context}
use paperminer.Sketch.{
  SketchLibrary, Plugin, validate_node, validate, build_facts, page_facts, document_facts,
}

module _ {W Doc Message Sk Report Node : Type 0}
    (lib : SketchLibrary W Doc Message Sk Report Node) where
  -- The report has this node, and it is valid.
  abbrev pub HasValid : Report → String → Type 0
  HasValid report name =
      (node : Node) × (lib.node_by_name report name ≡ some node) × (lib.valid node ≡ true)

  validate-eq_true :
      (report : Report) (names : List String)
      → validate lib report names ≡ ok true
      → All (HasValid report) names
  unfolding validate validate_node
  validate-eq_true report [] h = tt
  validate-eq_true report (name ∷ names) h = elim (Option-cases (lib.node_by_name report name)) [
    | inl missing ↦ absurd (cc (rw missing at h))
    | inr (node, found) ↦ elim (Bool-cases (lib.valid node)) [
      | inl good ↦ ((node, found, good), validate-eq_true report names (rw (found, good) at h))
      | inr bad ↦ absurd (cc (ok_injective (rw (found, bad) at h)))
    ]
  ]

  pub validate-All :
      (report : Report) (names : List String)
      → All (HasValid report) names
      → validate lib report names ≡ ok true
  unfolding validate validate_node
  validate-All report [] h = refl
  validate-All report (name ∷ names) ((node, found, good), rest) =
      rw (found, good) (validate-All report names rest)

  build_facts-eq_some :
      (p : Plugin Message Report Sk) (report : Report) (facts : Facts) (v : Result Bool)
      → build_facts lib p report v ≡ ok (some facts)
      → (v ≡ ok true) × (p.build report ≡ ok (some facts))
  unfolding build_facts
  build_facts-eq_some p report facts (err e) h = absurd (cc h)
  build_facts-eq_some p report facts (ok false) h = absurd (cc (ok_injective h))
  build_facts-eq_some p report facts (ok true) h = (refl, built (p.build report) h)
    where
      built :
          (r : Result (Option Facts))
          → map_result (wrap "building facts") r ≡ ok (some facts)
          → r ≡ ok (some facts)
      built (ok x) e = e
      built (err x) e = absurd (cc e)

  page_facts-eq_some :
      (p : Plugin Message Report Sk) (r : Result Report) (facts : Facts)
      → page_facts lib p r ≡ ok (some facts)
      → (report : Report) × (r ≡ ok report)
        × All (HasValid report) p.opts.required
        × (p.build report ≡ ok (some facts))
  unfolding page_facts
  page_facts-eq_some p (err e) facts h = elim (Bool-cases (is_error e iter_done)) [
    | inl over ↦ absurd (cc (ok_injective (rw over at h)))
    | inr other ↦ absurd (cc (rw other at h))
  ]
  page_facts-eq_some p (ok report) facts h =
      let (valid, built) =
        build_facts-eq_some p report facts (validate lib report p.opts.required) h in
      (report, refl, validate-eq_true report p.opts.required valid, built)

  -- Facts come only from a first page on which every required node is there and valid, and they are
  -- what `Build` makes of its report.
  pub document_facts-eq_some :
      (p : Plugin Message Report Sk) (ctx : Context) (doc : Doc) (facts : Facts) (s s' : W)
      → document_facts lib p ctx doc s ≡ (ok (some facts), s')
      → (report : Report) × (lib.next p.s doc ctx s ≡ (ok report, s'))
        × All (HasValid report) p.opts.required
        × (p.build report ≡ ok (some facts))
  unfolding document_facts
  document_facts-eq_some p ctx doc facts s s' h =
      let (r, t) = lib.next p.s doc ctx s in
      let (report, e, valid, built) = page_facts-eq_some p r facts (result_of h) in
      (report, (ap (λ x. (x, t)) e ∙ ap (λ w. (ok report, w)) (state_of h)), valid, built)

  -- What `Build` returns for a page with all required nodes is returned, an error with its context.
  pub document_facts-built :
      (p : Plugin Message Report Sk) (ctx : Context) (doc : Doc) (report : Report)
      (r : Result (Option Facts)) (s s' : W)
      → lib.next p.s doc ctx s ≡ (ok report, s')
      → All (HasValid report) p.opts.required
      → p.build report ≡ r
      → document_facts lib p ctx doc s ≡ (map_result (wrap "building facts") r, s')
  unfolding document_facts page_facts build_facts
  document_facts-built p ctx doc report r s s' page valid built =
      rw page (rw (validate-All report p.opts.required valid) (rw built refl))
