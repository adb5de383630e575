-- ===== src/Tests/Patching.antt =====
-- Facts about the one document of the small world, its variants, and the patches that come of them.
use paperminer.Base.{String, List, ◌≡◌, ◌↔◌, refl, ◌⊎◌, Option, none, some, [], ◌∷◌, All}
use paperminer.Errors.{plain}
use paperminer.Io.{Result, Io, ok, err}
use paperminer.Facts.{Facts}
use paperminer.Slices.{std_ops}
use paperminer.Slices.Laws.{std_ops-IsDocumented}
use paperminer.Patch.{PatchBuilder, new_patch_builder, set_facts, build}
use paperminer.Patch.Values.{values_of, apply_patch}
use paperminer.Patch.Build.{IsCoherentBuilder, IsWanted, build-IsWanted}
use paperminer.Patch.Minimal.{IsUnchanged, build-nil_iff}
use paperminer.Patch.Resent.{Has, set_facts_resends_correspondent}
use paperminer.Paperless.{set_correspondent}
use paperminer.Patch.Wanted.{AreApplied, set_facts-eq_ok}
use paperminer.Facter.{background, extract}
use paperminer.Facter.Laws.{
  AreResults, nil, cons, AreAnswers, IsReported, contributions, failures, extract-contributions,
}
use paperminer.Documents.{Variant, archived, original, extract_facts}
use paperminer.Documents.Laws.{IsFound, IsExhausted, extract_facts-cases}
use paperminer.Tests.World.{World, start, bill, bill_facts, facters, in_order, all_resolvers}

-- The builder with the correspondent that the document has, at another address.
abbrev builder : PatchBuilder
builder = record (new_patch_builder bill) {
  correspondent = some (some (record { address = 9; value = 2 }));
}

coherent : IsCoherentBuilder builder
unfolding new_patch_builder
coherent = record {
  correspondent = λ p q h g e. cc (h, g);
  document_type = λ p q h g e. absurd (cc h);
  storage_path = λ p q h g e. absurd (cc h);
}

build-IsWanted_example : IsWanted builder (apply_patch (build std_ops builder) (values_of bill))
unfolding new_patch_builder
build-IsWanted_example = build-IsWanted std_ops builder std_ops-IsDocumented coherent

build-nil_iff_example : (build std_ops builder ≡ []) ↔ IsUnchanged builder
build-nil_iff_example = build-nil_iff std_ops builder std_ops-IsDocumented

abbrev filled : PatchBuilder
filled = record (new_patch_builder bill) {
  title = some "Bill";
  correspondent = some (some (record { address = 1; value = 2 }));
  next_address = 4;
}

set_facts-eq_ok_example :
    AreApplied all_resolvers bill_facts (new_patch_builder bill) filled start start
unfolding set_facts paperminer.Resolver.get_or_create_by_name new_patch_builder
set_facts-eq_ok_example =
    set_facts-eq_ok all_resolvers bill_facts (new_patch_builder bill) filled start start refl

in_order-AreResults :
    (tasks : List (World → (String × Result (Option Facts)) × World)) (w : World)
    → AreResults tasks (in_order tasks w).0
in_order-AreResults [] w = nil
in_order-AreResults (task ∷ tasks) w = cons w refl (in_order-AreResults tasks (task w).1)

set_facts_resends_correspondent_example :
    Has (set_correspondent (some 2)) (build std_ops filled)
    × ((apply_patch (build std_ops filled) (values_of bill)).correspondent ≡ some 2)
unfolding set_facts paperminer.Resolver.get_or_create_by_name new_patch_builder
set_facts_resends_correspondent_example =
    set_facts_resends_correspondent all_resolvers std_ops bill_facts bill "acme"
      (record { id = 2; name = "acme" }) (record { address = 0; value = 2 }) filled start start
      start std_ops-IsDocumented refl refl refl refl refl refl

extract-contributions_example :
    let (result, result_err) = (extract in_order facters background "file" start).0 in
    (answers : List (String × Result (Option Facts))) × AreAnswers background "file" facters.plugins
      answers
    × (result ≡ contributions answers)
    × All IsReported result
    × ((result_err ≡ none) ↔ (failures answers ≡ []))
extract-contributions_example =
    extract-contributions in_order facters background "file" start in_order-AreResults

-- The archived variant fails, the original has facts.
abbrev by_variant : Variant → Io World (Option Facts)
by_variant archived w = (err (plain "no text"), w)
by_variant original w = (ok (some bill_facts), w)
by_variant (Variant.unnamed n) w = (ok none, w)

extract_facts-cases_example :
    let (r, u) = extract_facts by_variant (archived ∷ original ∷ []) start in
    IsFound by_variant (archived ∷ original ∷ []) none r start u
    ⊎ IsExhausted by_variant (archived ∷ original ∷ []) none r start u
extract_facts-cases_example = extract_facts-cases by_variant (archived ∷ original ∷ []) start
