-- ===== src/Documents/Laws.antt =====
-- Which variant's facts are used, and that temporary files do not stay behind.
use paperminer.Base.{
  ◌≡◌, refl, ap, ◌⊎◌, true, false, Bool-cases, inl, inr, Option, none, List, [], ◌∷◌, ◌++◌,
}
use paperminer.Errors.{Err, wrap, append_into}
use paperminer.Io.{Io, Result, ok, err}
use paperminer.Facts.{Facts}
use paperminer.Documents.{Variant, is_useful, of_error, after_variant, extract_loop, extract_facts}

module _ {W : Type 0} (extract : Variant → Io W (Option Facts)) where
  -- Variants that were tried without success: each failed, or had no facts; the errors add up.
  pub data Tried : List Variant → Option Err → Option Err → W → W → Type 0 where
    nil : {e e' : Option Err} {s u : W} → e ≡ e' → s ≡ u → Tried [] e e' s u
    failed :
        {v : Variant} {vs : List Variant} {e e' : Option Err} {f : Err} {s t u : W}
        → extract v s ≡ (err f, t)
        → Tried vs (append_into e (wrap "variant" f)) e' t u
        → Tried (v ∷ vs) e e' s u
    fruitless :
        {v : Variant} {vs : List Variant} {e e' : Option Err} {facts : Option Facts} {s t u : W}
        → extract v s ≡ (ok facts, t)
        → is_useful facts ≡ false
        → Tried vs e e' t u
        → Tried (v ∷ vs) e e' s u

  -- The facts of `v` were the first useful ones.
  pub record IsFound (variants : List Variant) (e : Option Err) (r : Result (Option Facts))
      (s u : W) : Type 0 where
    pub before : List Variant
    pub v : Variant
    pub after : List Variant
    pub split : variants ≡ before ++ (v ∷ after)
    pub facts : Option Facts
    pub errors : Option Err
    pub t : W
    pub tried : Tried before e errors s t
    pub answer : extract v t ≡ (ok facts, u)
    pub useful : is_useful facts ≡ true
    pub result : r ≡ ok facts

  -- No variant had useful facts: the result is the errors, if any.
  pub record IsExhausted (variants : List Variant) (e : Option Err) (r : Result (Option Facts))
      (s u : W) : Type 0 where
    pub errors : Option Err
    pub tried : Tried variants e errors s u
    pub result : r ≡ of_error errors

  abbrev Outcome : List Variant → Option Err → Result (Option Facts) → W → W → Type 0
  Outcome vs e r s u = IsFound vs e r s u ⊎ IsExhausted vs e r s u

  then_failed :
      (v : Variant) (vs : List Variant) (e : Option Err) (f : Err) (r : Result (Option Facts))
      (s t u : W)
      → extract v s ≡ (err f, t)
      → Outcome vs (append_into e (wrap "variant" f)) r t u
      → Outcome (v ∷ vs) e r s u
  then_failed v vs e f r s t u h (inl o) = inl (record {
    before = v ∷ o.before;
    v = o.v;
    after = o.after;
    split = ap (◌∷◌ v) o.split;
    facts = o.facts;
    errors = o.errors;
    t = o.t;
    tried = failed h o.tried;
    answer = o.answer;
    useful = o.useful;
    result = o.result;
  })
  then_failed v vs e f r s t u h (inr o) =
      inr (record { errors = o.errors; tried = failed h o.tried; result = o.result })

  then_fruitless :
      (v : Variant) (vs : List Variant) (e : Option Err) (facts : Option Facts)
      (r : Result (Option Facts)) (s t u : W)
      → extract v s ≡ (ok facts, t)
      → is_useful facts ≡ false
      → Outcome vs e r t u
      → Outcome (v ∷ vs) e r s u
  then_fruitless v vs e facts r s t u h n (inl o) = inl (record {
    before = v ∷ o.before;
    v = o.v;
    after = o.after;
    split = ap (◌∷◌ v) o.split;
    facts = o.facts;
    errors = o.errors;
    t = o.t;
    tried = fruitless h n o.tried;
    answer = o.answer;
    useful = o.useful;
    result = o.result;
  })
  then_fruitless v vs e facts r s t u h n (inr o) =
      inr (record { errors = o.errors; tried = fruitless h n o.tried; result = o.result })

  extract_loop-cases :
      (vs : List Variant) (e : Option Err) (s : W)
      → let (r, u) = extract_loop extract vs e s in Outcome vs e r s u
  unfolding extract_loop
  extract_loop-cases [] e s = inr (record { errors = e; tried = nil refl refl; result = refl })
  extract_loop-cases (v ∷ vs) e s = inspect (extract v s) refl (extract_loop-cases vs)
    where
      inspect :
          (a : Result (Option Facts) × W)
          → extract v s ≡ a
          → ((e : Option Err) (t : W)
              → let (r, u) = extract_loop extract vs e t in Outcome vs e r t u)
          → let (r, u) = after_variant (extract_loop extract vs) e a.0 a.1 in
            Outcome (v ∷ vs) e r s u
      inspect (err f, t) h ih = then_failed v vs e f _ s t _ h (ih _ t)
      inspect (ok facts, t) h ih = elim (Bool-cases (is_useful facts)) [
        | inl useful ↦ rw useful (
            inl (record {
              before = [];
              v = v;
              after = vs;
              split = refl;
              facts = facts;
              errors = e;
              t = s;
              tried = nil refl refl;
              answer = h;
              useful = useful;
              result = refl;
            }))
        | inr not_useful ↦ rw not_useful (then_fruitless v vs e facts _ s t _ h not_useful (ih e t))
      ]

  -- `ExtractFacts` returns the first facts that are not empty, in the order of the variants, and
  -- asks no variant after that. Errors of earlier variants are forgotten then. If there are no such
  -- facts, the errors of all variants are returned, and nil if there were none.
  pub extract_facts-cases :
      (variants : List Variant) (s : W)
      → let (r, u) = extract_facts extract variants s in
        IsFound variants none r s u ⊎ IsExhausted variants none r s u
  unfolding extract_facts
  extract_facts-cases variants s = extract_loop-cases variants none s
