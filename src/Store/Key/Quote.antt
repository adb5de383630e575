-- ===== src/Store/Key/Quote.antt =====
-- A rune that `strconv.QuoteToASCII` escaped is read back, and so a quoted text ends where it ends.
use native.Mathlib.Nat.{div-lt_iff_lt-mul, div-add-mod', pow-suc}
use paperminer.Base.{
  ℕ, zero, suc, ◌/◌, ◌%◌, ◌^◌, ◌<◌, ◌≡◌, refl, ◌∙◌, sym, ap, subst, ==_iff, true, ◌&&◌, ◌||◌,
  Bool-cases, inl, inr, none, some, List, [], ◌∷◌, ◌++◌, ◌==◌, arith, ltb, leb, All,
}
use mathlib.Core.List.{append_assoc}
use mathlib.Core.Path.{ap₂}
use paperminer.Store.{hex_digit, hex, named_escape, escape_by, escape, escapes, quote_to_ascii}
use paperminer.Store.Key.{read_digit, read_hex, read_rune}

read_digit-hex_digit : (d : ℕ) (u : List ℕ) → d < 16 → read_digit (hex_digit d ∷ u) ≡ some (d, u)
unfolding hex_digit
read_digit-hex_digit d u h = elim (Bool-cases (ltb d 10)) [
  | inl low ↦ rw low (ground arith)
  | inr high ↦ rw high (ground arith)
]

the_zero : (n : ℕ) → n < 16 ^ 0 → n ≡ 0
the_zero n h = omega arith

read_hex-hex : (k n : ℕ) (u : List ℕ) → n < 16 ^ k → read_hex k (hex k n ++ u) ≡ some (n, u)
unfolding hex
read_hex-hex zero n u h = rw (the_zero n h) refl
read_hex-hex (suc k) n u h =
    let few : n / 16 < 16 ^ k = (div-lt_iff_lt-mul (omega arith)).1 (rw (sym (pow-suc 16 k)) h) in
    let digits = read_hex-hex k (n / 16) (hex_digit (n % 16) ∷ u) few in
    rw
      (
        append_assoc (hex k (n / 16)) (hex_digit (n % 16) ∷ []) u,
        digits,
        read_digit-hex_digit (n % 16) u (omega arith),
      )
      (ap (λ v. some (v, u)) (div-add-mod' n 16))

-- The runes without a name of their own.
read_rune-numbered :
    (r : ℕ) (u : List ℕ) → r < 0x110000 → read_rune (escape_by none r ++ u) ≡ some (r, u)
unfolding escape_by
read_rune-numbered r u h = elim (Bool-cases (ltb r 0x20 || r == 0x7f)) [
  | inl control ↦ rw control (read_hex-hex 2 r u (ground arith))
  | inr other ↦ elim (Bool-cases (ltb r 0x10000)) [
    | inl small ↦ rw (other, small) (read_hex-hex 4 r u (ground arith))
    | inr large ↦ rw (other, large) (read_hex-hex 8 r u (omega arith))
  ]
]

abbrev IsRead : ℕ → List ℕ → Type 0
IsRead r u = read_rune (escape_by (named_escape r) r ++ u) ≡ some (r, u)

equal_to : (r k : ℕ) (u : List ℕ) → (r == k) ≡ true → IsRead k u → IsRead r u
equal_to r k u e h = subst (λ q. IsRead q u) (sym ((==_iff r k).0 e)) h

read_rune-named :
    (r : ℕ) (u : List ℕ)
    → r < 0x110000
    → read_rune (escape_by (named_escape r) r ++ u) ≡ some (r, u)
unfolding escape_by
read_rune-named r u h = elim (Bool-cases (r == 7)) [
  | inl e0 ↦ equal_to r 7 u e0 refl
  | inr n0 ↦ elim (Bool-cases (r == 8)) [
    | inl e1 ↦ equal_to r 8 u e1 refl
    | inr n1 ↦ elim (Bool-cases (r == 12)) [
      | inl e2 ↦ equal_to r 12 u e2 refl
      | inr n2 ↦ elim (Bool-cases (r == 10)) [
        | inl e3 ↦ equal_to r 10 u e3 refl
        | inr n3 ↦ elim (Bool-cases (r == 13)) [
          | inl e4 ↦ equal_to r 13 u e4 refl
          | inr n4 ↦ elim (Bool-cases (r == 9)) [
            | inl e5 ↦ equal_to r 9 u e5 refl
            | inr n5 ↦ elim (Bool-cases (r == 11)) [
              | inl e6 ↦ equal_to r 11 u e6 refl
              | inr n6 ↦ rw (n0, n1, n2, n3, n4, n5, n6) (read_rune-numbered r u h)
            ]
          ]
        ]
      ]
    ]
  ]
]

pub read_rune-escape : (r : ℕ) (u : List ℕ) → r < 0x110000 → read_rune (escape r ++ u) ≡ some (r, u)
unfolding escape
read_rune-escape r u h = elim (Bool-cases (r == 0x22 || r == 0x5c)) [
  | inl quoted ↦ ground arith
  | inr other ↦ elim (Bool-cases (leb 0x20 r && leb r 0x7e)) [
    | inl plain ↦ rw (other, plain) (ground arith)
    | inr special ↦ rw (other, special) (read_rune-named r u h)
  ]
]

abbrev pub IsText : List ℕ → Type 0
IsText rs = All (λ r. r < 0x110000) rs

pub rest_of :
    (r : ℕ) (rs u : List ℕ)
    → r < 0x110000
    → read_rune (escapes (r ∷ rs) ++ (0x22 ∷ u)) ≡ some (r, escapes rs ++ (0x22 ∷ u))
unfolding escapes
rest_of r rs u h =
    rw (append_assoc (escape r) (escapes rs) (0x22 ∷ u))
      (read_rune-escape r (escapes rs ++ (0x22 ∷ u)) h)

pub ends : (u : List ℕ) → read_rune (escapes [] ++ (0x22 ∷ u)) ≡ none
unfolding escapes
ends u = refl

ends_agree : (u v : List ℕ) → escapes [] ++ (0x22 ∷ u) ≡ escapes [] ++ (0x22 ∷ v) → u ≡ v
unfolding escapes
ends_agree u v e = cc e

-- A text and what follows its closing quote are determined by the escaped form.
escapes-injective :
    (rs rs' u v : List ℕ)
    → IsText rs
    → IsText rs'
    → escapes rs ++ (0x22 ∷ u) ≡ escapes rs' ++ (0x22 ∷ v)
    → (rs ≡ rs') × (u ≡ v)
escapes-injective [] [] u v a b h = (refl, ends_agree u v h)
escapes-injective [] (r ∷ rs) u v a b h = absurd (cc (ends u, ap read_rune h, rest_of r rs v b.0))
escapes-injective (r ∷ rs) [] u v a b h = absurd (cc (ends v, ap read_rune h, rest_of r rs u a.0))
escapes-injective (r ∷ rs) (r' ∷ rs') u v a b h =
    let e = sym (rest_of r rs u a.0) ∙ ap read_rune h ∙ rest_of r' rs' v b.0 in
    let (same, rest) = escapes-injective rs rs' u v a.1 b.1 (cc e) in
    let first : r ≡ r' = cc e in (ap₂ ◌∷◌ first same, rest)

pub quote_to_ascii-injective :
    (rs rs' u v : List ℕ)
    → IsText rs
    → IsText rs'
    → quote_to_ascii rs ++ u ≡ quote_to_ascii rs' ++ v
    → (rs ≡ rs') × (u ≡ v)
unfolding quote_to_ascii
quote_to_ascii-injective rs rs' u v a b h = escapes-injective rs rs' u v a b (
    sym (append_assoc (escapes rs) (0x22 ∷ []) u) ∙ cc h ∙ append_assoc (escapes rs') (0x22 ∷ []) v)
