-- ===== src/Flags/Registration/Distinct.antt =====
-- The names and the defaults of the program's flags.
use Prim.Native.Char.{code}
use text.Mathlib.TextLemmas.{append_cancel_left}
use paperminer.Base.{
  ℕ, String, ◌≡◌, ◌≢◌, refl, ap, sym, subst, arith, Bool, true, false, not, ◌&&◌, Bool-cases, inl,
  inr, List, [], ◌∷◌, ◌++◌, All, str_eq, eq_iff, ◌==◌, ==_iff,
}
use paperminer.Flags.Registration.{
  Flag, listen_flag, permission_flags, default_todo, default_failed, cataloger_flags, all_flags,
  is_free, are_distinct,
}

-- The first character of a name, or 0.
abbrev pub initial_of : String → ℕ
initial_of String.[] = 0
initial_of (String.◌∷◌ c s) = code c

apart : (s t : String) → initial_of s ≢ initial_of t → str_eq s t ≡ false
apart s t h = elim (Bool-cases (str_eq s t)) [
  | inl same ↦ absurd (h (ap initial_of ((eq_iff s t).0 same)))
  | inr other ↦ other
]

is_free_by_initial :
    (s : String) (fs : List Flag)
    → All (λ (g : Flag). initial_of s ≢ initial_of g.name) fs
    → is_free s fs ≡ true
is_free_by_initial s [] h = refl
is_free_by_initial s (f ∷ fs) h = rw (apart s f.name h.0, is_free_by_initial s fs h.1) refl

is_free-append :
    (s : String) (xs ys : List Flag)
    → is_free s xs ≡ true
    → is_free s ys ≡ true
    → is_free s (xs ++ ys) ≡ true
is_free-append s [] ys hx hy = hy
is_free-append s (x ∷ xs) ys hx hy = ground (arith, is_free-append s xs ys)

are_distinct-append :
    (xs ys : List Flag)
    → are_distinct xs ≡ true
    → are_distinct ys ≡ true
    → All (λ (f : Flag). is_free f.name ys ≡ true) xs
    → are_distinct (xs ++ ys) ≡ true
are_distinct-append [] ys hx hy h = hy
are_distinct-append (x ∷ xs) ys hx hy h =
    ground (arith, is_free-append x.name xs ys, are_distinct-append xs ys)

abbrev none_begins : ℕ → List Flag → Bool
none_begins c [] = true
none_begins c (f ∷ fs) = not (c == initial_of f.name) && none_begins c fs

none_begins-All :
    (c : ℕ) (fs : List Flag)
    → none_begins c fs ≡ true
    → All (λ (g : Flag). c ≢ initial_of g.name) fs
none_begins-All c [] h = tt
none_begins-All c (f ∷ fs) h = (
  λ e. absurd (ground (arith, ==_iff c (initial_of f.name))),
  none_begins-All c fs (ground arith),
)

own : String → List Flag
own program_name = permission_flags ++ cataloger_flags program_name

own-are_distinct : (program_name : String) → are_distinct (own program_name) ≡ true
unfolding own permission_flags cataloger_flags
own-are_distinct program_name = refl

-- None begins with a p.
own-initials :
    (program_name : String) → All (λ (g : Flag). b'p' ≢ initial_of g.name) (own program_name)
unfolding own permission_flags cataloger_flags
own-initials program_name = none_begins-All 112 (own program_name) refl

client_is_free :
    (program_name : String) (client : List Flag)
    → All (λ (f : Flag). initial_of f.name ≡ b'p') client
    → All (λ (f : Flag). is_free f.name (own program_name) ≡ true) client
client_is_free program_name [] h = tt
client_is_free program_name (f ∷ fs) h = (
  is_free_by_initial f.name (own program_name) (
      subst (λ c. All (λ (g : Flag). c ≢ initial_of g.name) (own program_name)) (sym h.0)
        (own-initials program_name)),
  client_is_free program_name fs h.1,
)

listen_is_free :
    (client : List Flag)
    → All (λ (f : Flag). initial_of f.name ≡ b'p') client
    → is_free "listen_address" client ≡ true
listen_is_free [] h = refl
listen_is_free (f ∷ fs) h =
    rw (apart "listen_address" f.name (λ e. absurd (omega (arith, e, h.0))), listen_is_free fs h.1)
      refl

-- If the client's flags all begin with a p, as in `paperless_url`, and are distinct, then no two
-- flags of the program have the same name, and the default names of the two tags differ, whatever
-- the name of the program.
pub all_flags-are_distinct :
    (client : List Flag) (program_name : String)
    → All (λ (f : Flag). initial_of f.name ≡ b'p') client
    → are_distinct client ≡ true
    → (are_distinct (all_flags client program_name) ≡ true)
      × (default_todo program_name ≢ default_failed program_name)
unfolding all_flags listen_flag own
all_flags-are_distinct client program_name begin distinct = (
  are_distinct-append (listen_flag ∷ client) (own program_name)
      (rw (listen_is_free client begin) distinct) (own-are_distinct program_name)
      (refl, client_is_free program_name client begin),
  λ e. absurd (cc (append_cancel_left program_name ":todo" ":failed" e)),
)
