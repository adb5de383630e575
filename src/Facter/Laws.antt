-- ===== src/Facter/Laws.antt =====
-- What a group makes of its plugins' answers.
use mathlib.Core.List.{append-nil, append_assoc}
use paperminer.Base.{
  ◌≡◌, refl, sym, ap, subst, ◌∙◌, ◌≢◌, map, ◌↔◌, String, false, Bool-cases, inl, inr, Option, none,
  some, List, [], ◌∷◌, ◌++◌, All, if◌then◌else◌,
}
use paperminer.Errors.{Err, wrap, append_into}
use paperminer.Io.{Result, ok, err}
use paperminer.Facts.{Facts, is_empty}
use paperminer.Facter.{
  FactsSlice, PluginWrapper, Group, Context, with_default, collect, ask, extract,
}

-- The facts that an answer contributes: those that are not empty, with a reporter.
abbrev contribution : String × Result (Option Facts) → FactsSlice
contribution (name, err e) = []
contribution (name, ok none) = []
contribution (name, ok (some f)) =
    if is_empty f then [] else record f { reporter = with_default name f.reporter } ∷ []

abbrev pub contributions : List (String × Result (Option Facts)) → FactsSlice
contributions [] = []
contributions (a ∷ answers) = contribution a ++ contributions answers

abbrev pub failures : List (String × Result (Option Facts)) → List Err
failures [] = []
failures ((name, err e) ∷ answers) = e ∷ failures answers
failures ((name, ok f) ∷ answers) = failures answers

abbrev append_all : Option Err → List Err → Option Err
append_all acc [] = acc
append_all acc (e ∷ es) = append_all (append_into acc (wrap "plugin" e)) es

collect_from :
    (answers : List (String × Result (Option Facts))) (result : FactsSlice) (e : Option Err)
    → collect answers (result, e)
      ≡ (result ++ contributions answers, append_all e (failures answers))
unfolding collect
collect_from [] result e = rw append-nil
collect_from ((name, err f) ∷ answers) result e = collect_from answers result _
collect_from ((name, ok none) ∷ answers) result e = collect_from answers result e
collect_from ((name, ok (some f)) ∷ answers) result e = elim (Bool-cases (is_empty f)) [
  | inl empty ↦ rw empty (collect_from answers result e)
  | inr useful ↦ rw useful (collect_from answers _ e ∙ rw append_assoc)
]

-- What the stream is documented to do: each task has run once, in some state, and the results are in
-- the order in which the tasks were submitted.
pub data AreResults {W R : Type 0} : List (W → R × W) → List R → Type 0 where
  nil : AreResults [] []
  cons :
      {task : W → R × W} {tasks : List (W → R × W)} {answer : R} {answers : List R}
      → (t : W) → (task t).0 ≡ answer
      → AreResults tasks answers
      → AreResults (task ∷ tasks) (answer ∷ answers)

-- The answer of each plugin, asked about the document in some state, under the plugin's name.
pub data AreAnswers {W Doc : Type 0} (ctx : Context) (doc : Doc)
    : List (PluginWrapper W Doc) → List (String × Result (Option Facts)) → Type 0 where
  nil : AreAnswers ctx doc [] []
  cons :
      {w : PluginWrapper W Doc} {plugins : List (PluginWrapper W Doc)}
      {answer : Result (Option Facts)} {answers : List (String × Result (Option Facts))}
      → (t : W) → (w.inst.document_facts ctx doc t).0 ≡ answer
      → AreAnswers ctx doc plugins answers
      → AreAnswers ctx doc (w ∷ plugins) ((w.name, answer) ∷ answers)

results-answers :
    {W Doc : Type 0} (ctx : Context) (doc : Doc) (plugins : List (PluginWrapper W Doc))
    (tasks : List (W → (String × Result (Option Facts)) × W))
    (answers : List (String × Result (Option Facts)))
    → tasks ≡ map (ask ctx doc) plugins
    → AreResults tasks answers
    → AreAnswers ctx doc plugins answers
results-answers ctx doc [] [] [] e nil = AreAnswers.nil
results-answers ctx doc [] [] (answer ∷ answers) e r = elim r [ ]
results-answers ctx doc [] (task ∷ tasks) [] e r = elim r [ ]
results-answers ctx doc (w ∷ plugins) [] (answer ∷ answers) e r = elim r [ ]
results-answers ctx doc (w ∷ plugins) (task ∷ tasks) [] e r = elim r [ ]
results-answers ctx doc (w ∷ plugins) [] [] e nil = absurd (cc e)
results-answers ctx doc [] (task ∷ tasks) (answer ∷ answers) e (cons t ran rest) = absurd (cc e)
results-answers {W} ctx doc (w ∷ plugins) (task ∷ tasks) ((name, answer) ∷ answers) e
      (cons t ran rest) =
    let same : (task ≡ ask ctx doc w) × (tasks ≡ map (ask ctx doc) plugins) = (cc e, cc e) in
    let asked : (ask ctx doc w t).0 ≡ (name, answer) =
      ap (λ (k : W → (String × Result (Option Facts)) × W). (k t).0) (sym same.0) ∙ ran in
    let named : w.name ≡ name = ap (λ (p : String × Result (Option Facts)). p.0) asked in
    let said : (w.inst.document_facts ctx doc t).0 ≡ answer =
      ap (λ (p : String × Result (Option Facts)). p.1) asked in
    subst (λ n. AreAnswers ctx doc (w ∷ plugins) ((n, answer) ∷ answers)) named
      (AreAnswers.cons t said (results-answers ctx doc plugins tasks answers same.1 rest))

append_all-ne-none : (e : Err) (es : List Err) → append_all (some e) es ≢ none
append_all-ne-none e [] h = cc
append_all-ne-none e (f ∷ es) h = append_all-ne-none _ es h

-- A facts slice as a plugin group makes it: no facts are empty, and a reporter is named.
abbrev pub IsReported : Facts → Type 0
IsReported f = (is_empty f ≡ false) × (f.reporter ≢ none)

with_default-ne-none : (name : String) (r : Option String) → with_default name r ≢ none
with_default-ne-none name none h = cc
with_default-ne-none name (some r) h = cc

contributions-IsReported :
    (answers : List (String × Result (Option Facts))) → All IsReported (contributions answers)
unfolding is_empty
contributions-IsReported [] = tt
contributions-IsReported ((name, err e) ∷ answers) = contributions-IsReported answers
contributions-IsReported ((name, ok none) ∷ answers) = contributions-IsReported answers
contributions-IsReported ((name, ok (some f)) ∷ answers) =
    let rest = contributions-IsReported answers in
    elim (Bool-cases (is_empty f)) [
      | inl empty ↦ rw empty rest
      | inr useful ↦ rw useful ((useful, with_default-ne-none name f.reporter), rest)
    ]

-- Whatever the order in which the tasks ran, each plugin has answered once: the slice has the facts of
-- each plugin that found some, in the order of the plugins, none of them empty and each with a
-- reporter; and there is no error exactly if no plugin failed. The stream hands results on in the
-- order of submission.
pub extract-contributions :
    {W Doc : Type 0}
    (stream : List (W → (String × Result (Option Facts)) × W)
      → W
      → List (String × Result (Option Facts)) × W)
    (g : Group W Doc) (ctx : Context) (doc : Doc) (s : W)
    → ((tasks : List (W → (String × Result (Option Facts)) × W)) (t : W)
        → AreResults tasks (stream tasks t).0)
    → let (result, result_err) = (extract stream g ctx doc s).0 in
      (answers : List (String × Result (Option Facts))) × AreAnswers ctx doc g.plugins answers
      × (result ≡ contributions answers)
      × All IsReported result
      × ((result_err ≡ none) ↔ (failures answers ≡ []))
unfolding extract
extract-contributions stream g ctx doc s documented =
    let answers = (stream (map (ask ctx doc) g.plugins) s).0 in
    (
      answers,
      results-answers ctx doc g.plugins (map (ask ctx doc) g.plugins) answers refl
          (documented (map (ask ctx doc) g.plugins) s),
      rw (collect_from answers [] none) refl,
      rw (collect_from answers [] none) (contributions-IsReported answers),
      rw (collect_from answers [] none) (no_failures (failures answers)),
    )
  where
    no_failures : (es : List Err) → (append_all none es ≡ none) ↔ (es ≡ [])
    no_failures [] = (λ h. refl, λ h. refl)
    no_failures (e ∷ es) = (λ h. absurd (append_all-ne-none _ es h), λ h. cc)
