-- ===== src/Invoice.antt =====
-- example/myminer/invoice/plugin.go: a plugin for the invoices of one sender. The
-- expression of sketch.textproto matches as an amount up to twelve digits, and perhaps a point or a
-- comma and two more: of these `strconv.ParseFloat` takes those without a comma, and `%.2f` prints the
-- number back as it was, since a float64 keeps fifteen digits. What the two do with any other text is
-- a parameter, `elsewhere`.
pub mod Laws
use Prim.Native.Char.{Char, code}
use Prim.Native.String.{◌++◌ as ◌<>◌}
use paperminer.Base.{
  ℕ, suc, String, Bool, true, false, ◌&&◌, Option, none, some, List, [], ◌∷◌, ◌++◌, leb, ◌==◌,
  str_eq, if◌then◌else◌,
}
use paperminer.Errors.{plain}
use paperminer.Io.{Result, ok, err}
use paperminer.Facts.{Facts}
use paperminer.Flags.{is_space}
use paperminer.Sketch.{SketchLibrary, Options, Plugin}

abbrev pub is_digit : Char → Bool
is_digit c = leb b'0' (code c) && leb (code c) b'9'

-- `strings.TrimSpace`.
unfoldable pub trim_start : String → String
trim_start String.[] = ""
trim_start (String.◌∷◌ c s) = if is_space (code c) then trim_start s else String.◌∷◌ c s

unfoldable pub trim_end : String → String
trim_end String.[] = ""
trim_end (String.◌∷◌ c s) =
    let rest = trim_end s in if is_space (code c) && str_eq rest "" then "" else String.◌∷◌ c rest

unfoldable pub trim_space : String → String
unfolding trim_start trim_end
trim_space s = trim_end (trim_start s)

-- A number: one with up to twelve digits and two decimals, by its digits, or another one, by what
-- `%.2f` prints of it.
pub data Number : Type 0 where
  amount : String → String → Number
  other : String → Number

unfoldable pub all_digits : String → Bool
all_digits String.[] = true
all_digits (String.◌∷◌ c s) = is_digit c && all_digits s

-- The digits at the beginning, and the rest.
unfoldable pub span_digits : String → String × String
span_digits String.[] = ("", "")
span_digits (String.◌∷◌ c s) =
    let (digits, rest) = span_digits s in
    if is_digit c then (String.◌∷◌ c digits, rest) else ("", String.◌∷◌ c s)

abbrev pub size : String → ℕ
size String.[] = 0
size (String.◌∷◌ c s) = suc (size s)

-- One to twelve characters.
abbrev pub is_short : String → Bool
is_short s = leb 1 (size s) && leb (size s) 12

unfoldable pub is_cents : String → Bool
unfolding all_digits
is_cents s = all_digits s && size s == 2

-- What follows the digits at the beginning of the text s. A comma is no part of any number.
unfoldable pub decimals : (String → Result Number) → String → String → String → Result Number
unfolding is_cents
decimals elsewhere s units String.[] =
    if is_short units then ok (amount units "00") else elsewhere s
decimals elsewhere s units (String.◌∷◌ c rest) =
    if code c == b','
    then err (plain "invalid syntax")
    else if code c == b'.' && is_cents rest && is_short units
    then ok (amount units rest)
    else elsewhere s

-- `strconv.ParseFloat`.
unfoldable pub parse_float : (String → Result Number) → String → Result Number
unfolding span_digits decimals
parse_float elsewhere s = let (digits, rest) = span_digits s in decimals elsewhere s digits rest

-- A number has no zeros in front, but for one before the point.
unfoldable pub without_zeros : String → String
without_zeros String.[] = "0"
without_zeros (String.◌∷◌ c s) = if code c == b'0' then without_zeros s else String.◌∷◌ c s

-- `fmt.Sprintf("%.2f", value)`.
unfoldable pub format : Number → String
unfolding without_zeros
format (amount units cents) = without_zeros units <> ("." <> cents)
format (other text) = text

unfoldable pub currency_name : String → String
currency_name s = if str_eq s "€" then "Euro" else s

-- What is appended to the title for the currency.
unfoldable pub currency_title : String → List String
unfolding currency_name
currency_title s = if str_eq s "" then [] else currency_name s ∷ []

-- `strings.Join(parts, ", ")` of a list that begins with the text.
unfoldable pub join_after : String → List String → String
join_after s [] = s
join_after s (part ∷ parts) = s <> (", " <> join_after part parts)

amount_title : String → Result Number → Result (List String)
unfolding currency_title format
amount_title currency (err e) = err e
amount_title currency (ok v) = ok (currency_title currency ++ (format v ∷ []))

facts_of : Result (List String) → Result (Option Facts)
unfolding join_after
facts_of (err e) = err e
facts_of (ok parts) = ok (
    some (record {
      reporter = none;
      title = some (join_after "Invoice" parts);
      created = none;
      document_type = none;
      correspondent = some "Acme Lawn Care";
      storage_path = none;
      set_tags = "invoice" ∷ [];
      unset_tags = [];
    }))

module _ {Report Node : Type 0} (elsewhere : String → Result Number)
    (node_by_name : Report → String → Option Node) (named : Node → String → String) where
  -- `named` is the text of a group of the node's match, which is empty for one that took no part.
  total_title : Option Node → Result (List String)
  unfolding amount_title trim_space parse_float
  total_title none = ok []
  total_title (some node) =
      amount_title (trim_space (named node "currency"))
        (parse_float elsewhere (trim_space (named node "value")))

  unfoldable pub build : Report → Result (Option Facts)
  unfolding total_title facts_of
  build report = facts_of (total_title (node_by_name report "bill_total"))

-- The options of the plugin, with the text of sketch.textproto.
unfoldable pub invoice_options :
    {W Doc Message Sk Report Node : Type 0}
    → SketchLibrary W Doc Message Sk Report Node
    → (String → Result Number)
    → (Node → String → String)
    → String
    → Options Message Report
unfolding build
invoice_options lib elsewhere named sketch_textproto = record {
  name = "invoice";
  textproto = sketch_textproto;
  sketch = none;
  required = "correspondent" ∷ "bill_total" ∷ [];
  build = some (build elsewhere lib.node_by_name named);
}
