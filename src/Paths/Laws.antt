-- ===== src/Paths/Laws.antt =====
-- Where `Base` and `Ext` cut a path.
use Prim.Native.Char.{Char}
use Prim.Native.String.{[], ◌∷◌, ◌++◌}
use text.Mathlib.TextLemmas.{nil-append, cons-append, append-ne-nil_of_right_ne-nil, cons-ne-nil}
use paperminer.Base.{String, Bool, false, ◌||◌, ◌≡◌, ◌≢◌, refl, arith, str_eq, eq_iff}
use paperminer.Paths.{is_slash, is_dot, has, without_slashes, last_element, base, or_separator, ext}

pub has-append : (p : Char → Bool) (s t : String) → has p (s ++ t) ≡ (has p s || has p t)
unfolding has
has-append p [] t = rw (nil-append t) refl
has-append p (c ∷ s) t = rw (cons-append c s t) (ground (arith, has-append p s t))

pub not_empty : (s : String) → s ≢ "" → str_eq s "" ≡ false
not_empty s ne = ground (arith, eq_iff s "")

without_slashes-free : (s : String) → has is_slash s ≡ false → without_slashes s ≡ s
unfolding without_slashes has
without_slashes-free [] h = refl
without_slashes-free (c ∷ s) h = ground (arith, without_slashes-free s)

without_slashes-append :
    (s f : String) → f ≢ "" → without_slashes f ≡ f → without_slashes (s ++ f) ≡ s ++ f
unfolding without_slashes
without_slashes-append [] f ne h = rw (nil-append f) h
without_slashes-append (c ∷ s) f ne h = rw (cons-append c s f) (
    rw (without_slashes-append s f ne h)
      (rw (not_empty (s ++ f) (append-ne-nil_of_right_ne-nil s ne)) (ground arith)))

without_slashes-file :
    (f : String) → f ≢ "" → has is_slash f ≡ false → without_slashes ("/" ∷ f) ≡ "/" ∷ f
unfolding without_slashes
without_slashes-file f ne h = rw (without_slashes-free f h) (rw (not_empty f ne) refl)

last_element-free : (f : String) → has is_slash f ≡ false → last_element f ≡ f
unfolding last_element has
last_element-free [] h = refl
last_element-free (c ∷ s) h = ground (arith)

last_element-append : (s f : String) → has is_slash f ≡ false → last_element (s ++ ("/" ∷ f)) ≡ f
unfolding last_element has
last_element-append [] f h = rw (nil-append ("/" ∷ f)) (rw h refl)
last_element-append (c ∷ s) f h =
    rw (cons-append c s ("/" ∷ f))
      (rw (has-append is_slash s ("/" ∷ f)) (rw (last_element-append s f h) (ground arith)))

-- The base of a path that ends in a file's name is that name.
pub base-file : (dir f : String) → f ≢ "" → has is_slash f ≡ false → base (dir ++ ("/" ∷ f)) ≡ f
unfolding base or_separator
base-file dir f ne h =
    let kept =
      without_slashes-append dir ("/" ∷ f) (cons-ne-nil "/" f) (without_slashes-file f ne h) in
    rw (not_empty (dir ++ ("/" ∷ f)) (append-ne-nil_of_right_ne-nil dir (cons-ne-nil "/" f)))
      (rw kept (rw (last_element-append dir f h) (rw (not_empty f ne) refl)))

-- A bare name is its own base.
pub base-name : (f : String) → f ≢ "" → has is_slash f ≡ false → base f ≡ f
unfolding base or_separator
base-name f ne h =
    rw (not_empty f ne)
      (rw (without_slashes-free f h) (rw (last_element-free f h) (rw (not_empty f ne) refl)))

-- The extension is the last dot of a name and what follows it.
ext-none : (s : String) → has is_dot s ≡ false → ext s ≡ ""
unfolding ext has
ext-none [] h = refl
ext-none (c ∷ s) h = ground (arith, ext-none s)

pub ext-dot :
    (s x : String)
    → has is_slash s ≡ false
    → has is_slash x ≡ false
    → has is_dot x ≡ false
    → ext (s ++ ("." ∷ x)) ≡ "." ∷ x
unfolding ext has
ext-dot [] x hs hx hd = rw (nil-append ("." ∷ x)) (rw hx (rw (ext-none x hd) refl))
ext-dot (c ∷ s) x hs hx hd = rw (cons-append c s ("." ∷ x)) (
    rw (has-append is_slash s ("." ∷ x)) (
      rw (ext-dot s x (ground (arith)) hx hd)
        (ground (arith, not_empty ("." ∷ x) (cons-ne-nil "." x)))))
