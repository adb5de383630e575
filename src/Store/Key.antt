-- ===== src/Store/Key.antt =====
-- The key of a record (`(*DocumentTask).Key` of internal/store/document.go) can be read back. This is
-- the reader: it is no code of the program.
pub mod Quote
pub mod Injective
pub mod RoundTrip
use paperminer.Base.{
  ℕ, zero, suc, ◌+◌, ◌-◌, ◌*◌, ◌&&◌, ◌||◌, Option, none, some, List, [], ◌∷◌, ◌==◌, ltb, leb,
  if◌then◌else◌,
}

-- The value of a hexadecimal digit, as `hex_digit` writes it.
abbrev pub read_digit : List ℕ → Option (ℕ × List ℕ)
read_digit [] = none
read_digit (c ∷ rest) = if leb b'a' c then some (c + 10 - b'a', rest) else some (c - b'0', rest)

abbrev pub with_digit : ℕ → Option (ℕ × List ℕ) → Option (ℕ × List ℕ)
with_digit v none = none
with_digit v (some (d, rest)) = some (v * 16 + d, rest)

abbrev pub more_hex : Option (ℕ × List ℕ) → Option (ℕ × List ℕ)
more_hex none = none
more_hex (some (v, rest)) = with_digit v (read_digit rest)

abbrev pub read_hex : ℕ → List ℕ → Option (ℕ × List ℕ)
read_hex zero l = some (0, l)
read_hex (suc k) l = more_hex (read_hex k l)

abbrev pub read_escape : List ℕ → Option (ℕ × List ℕ)
read_escape [] = none
read_escape (c ∷ rest) =
    if c == 0x22 || c == 0x5c
    then some (c, rest)
    else if c == b'x'
    then read_hex 2 rest
    else if c == b'u'
    then read_hex 4 rest
    else if c == b'U'
    then read_hex 8 rest
    else if c == b'a'
    then some (7, rest)
    else if c == b'b'
    then some (8, rest)
    else if c == b'f'
    then some (12, rest)
    else if c == b'n'
    then some (10, rest)
    else if c == b'r'
    then some (13, rest)
    else if c == b't'
    then some (9, rest)
    else if c == b'v'
    then some (11, rest)
    else none

-- One rune of a quoted text, which ends at a quote.
abbrev pub read_rune : List ℕ → Option (ℕ × List ℕ)
read_rune [] = none
read_rune (c ∷ rest) =
    if c == 0x22 then none else if c == b'\\' then read_escape rest else some (c, rest)
