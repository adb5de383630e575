-- ===== src/Flags.antt =====
-- internal/kpflagvalue/strings.go: a flag whose value is a list of texts, written with commas. A text
-- is the list of its code points.
pub mod Laws
pub mod Registration
use paperminer.Base.{
  ℕ, suc, Bool, true, false, ◌&&◌, ◌||◌, List, [], ◌∷◌, ◌++◌, ◌==◌, leb, if◌then◌else◌,
}

-- `unicode.IsSpace`.
abbrev pub is_space : ℕ → Bool
is_space c =
    (leb 9 c && leb c 13)
    || c == 0x20
    || c == 0x85
    || c == 0xa0
    || c == 0x1680
    || (leb 0x2000 c && leb c 0x200a)
    || c == 0x2028
    || c == 0x2029
    || c == 0x202f
    || c == 0x205f
    || c == 0x3000

abbrev pub is_empty : List ℕ → Bool
is_empty [] = true
is_empty (c ∷ cs) = false

-- `strings.TrimSpace`.
unfoldable pub trim_left : List ℕ → List ℕ
trim_left [] = []
trim_left (c ∷ cs) = if is_space c then trim_left cs else c ∷ cs

unfoldable pub trim_right : List ℕ → List ℕ
trim_right [] = []
trim_right (c ∷ cs) =
    let rest = trim_right cs in if is_empty rest && is_space c then [] else c ∷ rest

unfoldable pub trim_space : List ℕ → List ℕ
unfolding trim_left trim_right
trim_space cs = trim_right (trim_left cs)

-- `strings.Split(value, ",")`; `prefixed c` puts `c` before the first part.
prefixed : ℕ → List (List ℕ) → List (List ℕ)
prefixed c [] = []
prefixed c (part ∷ parts) = (c ∷ part) ∷ parts

unfoldable pub split : List ℕ → List (List ℕ)
unfolding prefixed
split [] = [] ∷ []
split (c ∷ cs) = let parts = split cs in if c == b',' then [] ∷ parts else prefixed c parts

-- The loop of `Set`.
unfoldable pub append_parts : List (List ℕ) → List (List ℕ) → List (List ℕ)
unfolding trim_space
append_parts s [] = s
append_parts s (part ∷ parts) =
    let p = trim_space part in append_parts (if is_empty p then s else s ++ (p ∷ [])) parts

unfoldable pub set : List (List ℕ) → List ℕ → List (List ℕ)
unfolding split append_parts
set s value = append_parts s (split value)
