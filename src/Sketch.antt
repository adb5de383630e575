-- ===== src/Sketch.antt =====
-- pkg/sketchfacts/plugin.go: a plugin that evaluates a sketch on a document's first page.
pub mod Laws
pub mod Plugins
use paperminer.Base.{
  String, Bool, true, false, Option, none, some, List, [], ◌∷◌, str_eq, if◌then◌else◌,
}
use paperminer.Errors.{Err, invalid, invalid_report, iter_done, detail, is_error, wrap}
use paperminer.Io.{Io, Result, ok, err, map_result}
use paperminer.Facts.{Facts}
use paperminer.Facter.{Context}

-- github.com/hansmi/dossier: sketches (compiled from a text or a message), the page iterator, whose
-- first page is `next` on a new iterator, and page reports.
pub record SketchLibrary (W Doc Message Sk Report Node : Type 0) : Type 0 where
  pub compile_from_textproto_string : String → Result Sk
  pub compile : Message → Result Sk
  pub next : Sk → Doc → Context → Io W Report
  pub node_by_name : Report → String → Option Node
  pub valid : Node → Bool

pub record Options (Message Report : Type 0) : Type 0 where
  pub name : String
  pub textproto : String
  pub sketch : Option Message
  pub required : List String
  pub build : Option (Report → Result (Option Facts))

-- `build` is not nil in a plugin that `New` has made.
pub record Plugin (Message Report Sk : Type 0) : Type 0 where
  pub opts : Options Message Report
  pub s : Sk
  pub build : Report → Result (Option Facts)

module _ {W Doc Message Sk Report Node : Type 0}
    (lib : SketchLibrary W Doc Message Sk Report Node) where
  abbrev not_one : Result Sk
  not_one = err (detail invalid "exactly one of \"Textproto\" and \"Sketch\" may be set")

  compiled : String → Option Message → Result Sk
  compiled textproto none =
      if str_eq textproto "" then not_one else lib.compile_from_textproto_string textproto
  compiled textproto (some m) = if str_eq textproto "" then lib.compile m else not_one

  with_build :
      Options Message Report
      → Result Sk
      → Option (Report → Result (Option Facts))
      → Result (Plugin Message Report Sk)
  with_build opts (err e) build = err e
  with_build opts (ok s) none = err (detail invalid "build function is required")
  with_build opts (ok s) (some build) = ok (record { opts = opts; s = s; build = build })

  unfoldable pub new : Options Message Report → Result (Plugin Message Report Sk)
  unfolding compiled with_build
  new opts = with_build opts (compiled opts.textproto opts.sketch) opts.build

  -- A required node, and the nodes after it.
  validate_node : Option Node → Result Bool → Result Bool
  validate_node none rest = err (detail invalid_report "node not found")
  validate_node (some node) rest = if lib.valid node then rest else ok false

  unfoldable pub validate : Report → List String → Result Bool
  unfolding validate_node
  validate report [] = ok true
  validate report (name ∷ names) =
      validate_node (lib.node_by_name report name) (validate report names)

  build_facts : Plugin Message Report Sk → Report → Result Bool → Result (Option Facts)
  build_facts p report (err e) = err e
  build_facts p report (ok false) = ok none
  build_facts p report (ok true) = map_result (wrap "building facts") (p.build report)

  page_facts : Plugin Message Report Sk → Result Report → Result (Option Facts)
  unfolding build_facts validate
  page_facts p (err e) = if is_error e iter_done then ok none else err e
  page_facts p (ok report) = build_facts p report (validate report p.opts.required)

  unfoldable pub document_facts : Plugin Message Report Sk → Context → Doc → Io W (Option Facts)
  unfolding page_facts
  document_facts p ctx doc s =
      let (report, s') = lib.next p.s doc ctx s in (page_facts p report, s')
