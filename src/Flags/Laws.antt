-- ===== src/Flags/Laws.antt =====
-- What `Set` of internal/kpflagvalue/strings.go collects.
use paperminer.Base.{
  ℕ, ◌≡◌, ◌≢◌, refl, ap, ◌∙◌, Bool-cases, inl, inr, List, [], ◌∷◌, ◌++◌, ◌==◌, if◌then◌else◌,
}
use paperminer.Flags.{is_empty, trim_space, prefixed, split, append_parts, set}

prefixed-append : (c : ℕ) (l r : List (List ℕ)) → l ≢ [] → prefixed c (l ++ r) ≡ prefixed c l ++ r
unfolding prefixed
prefixed-append c [] r h = absurd (h refl)
prefixed-append c (x ∷ l) r h = refl

prefixed-some : (c : ℕ) (l : List (List ℕ)) → l ≢ [] → prefixed c l ≢ []
unfolding prefixed
prefixed-some c [] n h = n refl
prefixed-some c (x ∷ l) n h = cc h

split-some : (a : List ℕ) → split a ≢ []
unfolding split prefixed
split-some [] h = cc h
split-some (c ∷ a) h = elim (Bool-cases (c == b',')) [
  | inl comma ↦ cc (rw comma at h)
  | inr other ↦ prefixed-some c (split a) (split-some a) (rw other at h)
]

split-append : (a b : List ℕ) → split (a ++ (b',' ∷ b)) ≡ split a ++ split b
unfolding split
split-append [] b = refl
split-append (c ∷ a) b = elim (Bool-cases (c == b',')) [
  | inl comma ↦ rw comma (ap (◌∷◌ []) (split-append a b))
  | inr other ↦
      rw other
        (ap (prefixed c) (split-append a b) ∙ prefixed-append c (split a) (split b) (split-some a))
]

append_parts-append :
    (s l r : List (List ℕ)) → append_parts s (l ++ r) ≡ append_parts (append_parts s l) r
unfolding append_parts
append_parts-append s [] r = refl
append_parts-append s (p ∷ l) r =
    append_parts-append (if is_empty (trim_space p) then s else s ++ (trim_space p ∷ [])) l r

-- A flag that is given twice is the same as one flag with both values, joined by a comma.
pub set_twice : (s : List (List ℕ)) (a b : List ℕ) → set s (a ++ (b',' ∷ b)) ≡ set (set s a) b
unfolding set
set_twice s a b = ap (append_parts s) (split-append a b) ∙ append_parts-append s (split a) (split b)
