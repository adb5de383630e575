-- ===== src/Walk/Once.antt =====
-- Every document is submitted once, and none that was listed is left out.
use paperminer.Base.{
  ℕ, zero, suc, ◌<◌, ◌≤◌, ◌≡◌, refl, ◌∙◌, sym, ap, subst, true, false, Bool-cases, Option-cases,
  inl, inr, Option, none, some, List, [], ◌∷◌, ◌++◌, ◌||◌, ◌==◌, ==_iff, arith, contains,
  contains-append, NoDup,
}
use native.Mathlib.Decide.{dec_lt}
use paperminer.Errors.{Err}
use paperminer.Paperless.{Document}
use paperminer.Walk.{
  WalkState, visit, visit_all, WalkResult, finished, failed, after_listing, walk_loop,
  walk_documents,
}

abbrev pub ids : List Document → List ℕ
ids [] = []
ids (d ∷ docs) = d.id ∷ ids docs

ids-append : (l r : List Document) → ids (l ++ r) ≡ ids l ++ ids r
ids-append [] r = refl
ids-append (d ∷ l) r = ap (◌∷◌ d.id) (ids-append l r)

pub NoDup-append : (l : List ℕ) (x : ℕ) → NoDup l → contains l x ≡ false → NoDup (l ++ (x ∷ []))
NoDup-append [] x h n = (refl, tt)
NoDup-append (y ∷ l) x h n =
    (ground (arith, contains-append l (x ∷ []) y), NoDup-append l x h.1 (ground arith))

-- The keys of `seen` are the IDs of the submitted documents, in their order, and no two are equal.
pub record IsWalk (s : WalkState) : Type 0 where
  pub same : s.seen ≡ ids s.submitted
  pub unique : NoDup s.seen

pub visit-IsWalk : (doc : Document) (s : WalkState) → IsWalk s → IsWalk (visit doc s)
unfolding visit
visit-IsWalk doc s w = elim (Bool-cases (contains s.seen doc.id)) [
  | inl seen ↦ rw seen w
  | inr new ↦ rw new (record {
    same = ap (λ l. l ++ (doc.id ∷ [])) w.same ∙ sym (ids-append s.submitted (doc ∷ []));
    unique = NoDup-append s.seen doc.id w.unique new;
  })
]

pub visit_all-IsWalk : (docs : List Document) (s : WalkState) → IsWalk s → IsWalk (visit_all docs s)
unfolding visit_all
visit_all-IsWalk [] s w = w
visit_all-IsWalk (d ∷ docs) s w = visit_all-IsWalk docs (visit d s) (visit-IsWalk d s w)

contains-visit :
    (doc : Document) (s : WalkState) (a : ℕ)
    → contains (visit doc s).seen a ≡ (contains s.seen a || doc.id == a)
unfolding visit
contains-visit doc s a = ground (arith, contains-append s.seen (doc.id ∷ []) a)

-- What was seen and what is listed is seen afterwards.
pub contains-visit_all :
    (docs : List Document) (s : WalkState) (a : ℕ)
    → contains (visit_all docs s).seen a ≡ (contains s.seen a || contains (ids docs) a)
unfolding visit_all
contains-visit_all [] s a = ground arith
contains-visit_all (d ∷ docs) s a =
    ground (arith, contains-visit_all docs (visit d s) a, contains-visit d s a)

-- The documents that a walk has submitted, however it ended.
abbrev pub submitted_by : WalkResult → List Document
submitted_by (finished docs) = docs
submitted_by (failed e docs) = docs

abbrev pub error_of : WalkResult → Option Err
error_of (finished docs) = none
error_of (failed e docs) = some e

-- A result: listing `last` is the first that fails, if the walk failed, and all that was listed up
-- to it is submitted, each document just once.
pub record IsOnce (listing : ℕ → List Document × Option Err) (result : WalkResult) : Type 0 where
  pub last : ℕ
  pub before : (k : ℕ) → k < last → (listing k).1 ≡ none
  pub ending : (listing last).1 ≡ error_of result
  pub unique : NoDup (ids (submitted_by result))
  pub complete :
      (k a : ℕ)
      → k ≤ last
      → contains (ids (listing k).0) a ≡ true
      → contains (ids (submitted_by result)) a ≡ true
  pub sound :
      (a : ℕ)
      → contains (ids (submitted_by result)) a ≡ true
      → (k : ℕ) × (k ≤ last) × (contains (ids (listing k).0) a ≡ true)
  pub settled :
      error_of result ≡ none
      → (a : ℕ) → contains (ids (listing last).0) a ≡ true
      → (k : ℕ) × (k < last) × (contains (ids (listing k).0) a ≡ true)

visit-found : (doc : Document) (s : WalkState) → s.found ≡ true → (visit doc s).found ≡ true
unfolding visit
visit-found doc s h = ground arith

visit_all-found :
    (docs : List Document) (s : WalkState) → s.found ≡ true → (visit_all docs s).found ≡ true
unfolding visit_all
visit_all-found [] s h = h
visit_all-found (d ∷ docs) s h = visit_all-found docs (visit d s) (visit-found d s h)

visit-seen : (doc : Document) (s : WalkState) → contains s.seen doc.id ≡ true → visit doc s ≡ s
unfolding visit
visit-seen doc s h = rw h refl

visit-new :
    (doc : Document) (s : WalkState) → contains s.seen doc.id ≡ false → (visit doc s).found ≡ true
unfolding visit
visit-new doc s h = rw h refl

-- Where nothing was found, all that was listed had been seen.
visit_all_nothing :
    (docs : List Document) (s : WalkState) (a : ℕ)
    → (visit_all docs s).found ≡ false
    → contains (ids docs) a ≡ true
    → contains s.seen a ≡ true
unfolding visit_all
visit_all_nothing [] s a h listed = absurd (cc listed)
visit_all_nothing (d ∷ docs) s a h listed = elim (Bool-cases (contains s.seen d.id)) [
  | inl seen ↦
      let still = subst (λ q. (visit_all docs q).found ≡ false) (visit-seen d s seen) h in
      let rest = visit_all_nothing docs s a still in
      elim (Bool-cases (d.id == a)) [
        | inl same ↦ ground (arith, ==_iff d.id a)
        | inr other ↦ rest (rw other at listed)
      ]
  | inr new ↦ absurd (cc (visit_all-found docs (visit d s) (visit-new d s new), h))
]

module _ (listing : ℕ → List Document × Option Err) where
  -- All that the listings before `r` had is seen.
  abbrev SeenBefore : ℕ → WalkState → Type 0
  SeenBefore r s =
      (k a : ℕ) → k < r → contains (ids (listing k).0) a ≡ true → contains s.seen a ≡ true

  SeenBefore-step :
      (r : ℕ) (s : WalkState)
      → SeenBefore r s
      → SeenBefore (suc r) (visit_all (listing r).0 (record s { found = false }))
  SeenBefore-step r s h k a lt listed =
      let all = contains-visit_all (listing r).0 (record s { found = false }) a in
      elim (dec_lt k r) [
        | yes before ↦ ground (arith, all, h k a before listed)
        | no now ↦ let e : k ≡ r = omega arith in ground (arith, all, rw e at listed)
      ]

  -- What is seen was in one of those listings.
  abbrev SeenOnly : ℕ → WalkState → Type 0
  SeenOnly r s =
      (a : ℕ)
      → contains s.seen a ≡ true
      → (k : ℕ) × (k < r) × (contains (ids (listing k).0) a ≡ true)

  SeenOnly-step :
      (r : ℕ) (s : WalkState)
      → SeenOnly r s
      → SeenOnly (suc r) (visit_all (listing r).0 (record s { found = false }))
  SeenOnly-step r s h a e = elim (Bool-cases (contains s.seen a)) [
    | inl old ↦ let (k, lt, listed) = h a old in (k, omega arith, listed)
    | inr new ↦ (
      r,
      omega arith,
      ground (arith, contains-visit_all (listing r).0 (record s { found = false }) a),
    )
  ]

  -- The result of a listing that ends the walk.
  stops :
      (r : ℕ) (s : WalkState) (result : WalkResult)
      → IsWalk s
      → SeenBefore (suc r) s
      → SeenOnly (suc r) s
      → (error_of result ≡ none
          → (a : ℕ) → contains (ids (listing r).0) a ≡ true
          → (k : ℕ) × (k < r) × (contains (ids (listing k).0) a ≡ true))
      → ((k : ℕ) → k < r → (listing k).1 ≡ none)
      → (listing r).1 ≡ error_of result
      → submitted_by result ≡ s.submitted
      → IsOnce listing result
  stops r s result w seen only settled fine e same = record {
    settled = settled;
    sound = λ a e.
        let (k, lt, there) =
          only a (subst (λ l. contains l a ≡ true) (sym w.same) (rw (sym same) e)) in
        (k, omega arith, there);
    last = r;
    before = fine;
    ending = e;
    unique = rw same (subst NoDup w.same w.unique);
    complete = λ k a le listed.
        rw same (subst (λ l. contains l a ≡ true) w.same (seen k a (omega arith) listed));
  }

  walk_loop-IsOnce :
      (fuel r : ℕ) (s : WalkState) (result : WalkResult)
      → IsWalk s
      → SeenBefore r s
      → SeenOnly r s
      → ((k : ℕ) → k < r → (listing k).1 ≡ none)
      → walk_loop listing fuel r s ≡ some result
      → IsOnce listing result
  unfolding walk_loop after_listing
  walk_loop-IsOnce zero r s result w seen only fine h = absurd (cc h)
  walk_loop-IsOnce (suc fuel) r s result w seen only fine h =
      let s' = visit_all (listing r).0 (record s { found = false }) in
      let w' : IsWalk s' =
        visit_all-IsWalk (listing r).0 (record s { found = false })
          (record { same = w.same; unique = w.unique }) in
      let seen' = SeenBefore-step r s seen in
      let only' = SeenOnly-step r s only in
      elim (Option-cases (listing r).1) [
        | inl none_now ↦ elim (Bool-cases s'.found) [
          | inl more ↦
              walk_loop-IsOnce fuel (suc r) s' result w' seen' only'
                (λ k lt. elim (dec_lt k r) [
                  | yes b ↦ fine k b
                  | no n ↦ (let e : k ≡ r = omega arith in rw e none_now)
                ])
                (rw (none_now, more) at h)
          | inr done ↦
              (let e : finished s'.submitted ≡ result = cc (rw (none_now, done) at h) in
                stops r s' result w' seen' only'
                  (λ none_at_end a listed.
                    only a
                      (visit_all_nothing (listing r).0 (record s { found = false }) a done listed))
                  fine (none_now ∙ ap error_of e) (sym (ap submitted_by e)))
        ]
        | inr (e, failing) ↦
            (let eq : failed e s'.submitted ≡ result = cc (rw failing at h) in
              stops r s' result w' seen' only' (λ good. absurd (cc (good, eq))) fine
                (failing ∙ ap error_of eq) (sym (ap submitted_by eq)))
      ]

  -- However many listings a walk takes: it ends with the first listing that fails, or with one that
  -- does not and has only documents of earlier listings; the documents that were listed until then
  -- are submitted, no ID twice, and no others.
  pub walk_documents-IsOnce :
      (fuel : ℕ) (result : WalkResult)
      → walk_documents listing fuel ≡ some result
      → IsOnce listing result
  unfolding walk_documents
  walk_documents-IsOnce fuel result h =
      walk_loop-IsOnce fuel 0 (record { seen = []; found = false; submitted = [] }) result
        (record { same = refl; unique = tt }) (λ k a lt listed. absurd (omega arith))
        (λ a e. absurd (cc e)) (λ k lt. absurd (omega arith)) h
