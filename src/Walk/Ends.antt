-- ===== src/Walk/Ends.antt =====
-- The walk ends when the documents that ever get listed are finitely many, whatever a listing has.
use paperminer.Base.{
  ℕ, zero, suc, ◌+◌, ◌<◌, ◌≤◌, ◌≡◌, refl, true, false, not, ◌&&◌, Bool-cases, Option-cases, inl,
  inr, Option, some, List, [], ◌∷◌, ◌==◌, arith, contains, NoDup, length, length-append,
  if◌then◌else◌,
}
use paperminer.Errors.{Err}
use paperminer.Paperless.{Document}
use paperminer.Walk.{
  WalkState, visit, visit_all, WalkResult, finished, failed, after_listing, walk_loop,
  walk_documents,
}
use paperminer.Walk.Once.{ids, IsWalk, visit_all-IsWalk, contains-visit_all}

-- The list without the first `a`.
abbrev remove : ℕ → List ℕ → List ℕ
remove a [] = []
remove a (x ∷ xs) = if x == a then xs else (x ∷ remove a xs)

length-remove : (a : ℕ) (xs : List ℕ) → length xs ≤ suc (length (remove a xs))
length-remove a [] = omega arith
length-remove a (x ∷ xs) = ground (arith, length-remove a xs)

contains-remove :
    (a b : ℕ) (xs : List ℕ) → NoDup xs → contains (remove a xs) b ≡ (contains xs b && not (b == a))
contains-remove a b [] h = refl
contains-remove a b (x ∷ xs) h = elim (Bool-cases (x == a)) [
  | inl same ↦ ground (arith, contains-remove a b xs h.1)
  | inr other ↦ ground (arith, contains-remove a b xs h.1)
]

remove-NoDup : (a : ℕ) (xs : List ℕ) → NoDup xs → NoDup (remove a xs)
remove-NoDup a [] h = tt
remove-NoDup a (x ∷ xs) h = elim (Bool-cases (x == a)) [
  | inl same ↦ rw same h.1
  | inr other ↦ rw other (ground (arith, contains-remove a x xs h.1), remove-NoDup a xs h.1)
]

-- Every number in the list is below `n`.
abbrev pub IsBelow : ℕ → List ℕ → Type 0
IsBelow n xs = (a : ℕ) → contains xs a ≡ true → a < n

-- There are only `n` numbers below `n`.
pub pigeonhole : (n : ℕ) (xs : List ℕ) → NoDup xs → IsBelow n xs → length xs ≤ n
pigeonhole zero [] h below = omega arith
pigeonhole zero (x ∷ xs) h below = absurd (ground (arith, below x))
pigeonhole (suc n) xs h below =
    let fewer =
      pigeonhole n (remove n xs) (remove-NoDup n xs h)
        (λ a e. ground (arith, below a, contains-remove n a xs h)) in
    omega (arith, length-remove n xs, fewer)

-- What `found` promises: more than `m` keys are seen.
abbrev HasGrown : ℕ → WalkState → Type 0
HasGrown m s = m + (if s.found then 1 else 0) ≤ length s.seen

visit-HasGrown : (m : ℕ) (doc : Document) (s : WalkState) → HasGrown m s → HasGrown m (visit doc s)
unfolding visit
visit-HasGrown m doc s h = elim (Bool-cases (contains s.seen doc.id)) [
  | inl seen ↦ rw seen h
  | inr new ↦ ground (arith, length-append s.seen (doc.id ∷ []))
]

visit_all-HasGrown :
    (m : ℕ) (docs : List Document) (s : WalkState) → HasGrown m s → HasGrown m (visit_all docs s)
unfolding visit_all
visit_all-HasGrown m [] s h = h
visit_all-HasGrown m (d ∷ docs) s h = visit_all-HasGrown m docs (visit d s) (visit-HasGrown m d s h)

module _ (listing : ℕ → List Document × Option Err) (n : ℕ)
    (below : (r : ℕ) → IsBelow n (ids (listing r).0)) where
  seen-IsBelow :
      (r : ℕ) (s : WalkState)
      → IsBelow n s.seen
      → IsBelow n (visit_all (listing r).0 (record s { found = false })).seen
  seen-IsBelow r s h a e =
      ground
        (arith, contains-visit_all (listing r).0 (record s { found = false }) a, h a, below r a)

  walk_loop_ends :
      (fuel r : ℕ) (s : WalkState)
      → IsWalk s
      → IsBelow n s.seen
      → n < fuel + length s.seen
      → (result : WalkResult) × (walk_loop listing fuel r s ≡ some result)
  unfolding walk_loop after_listing
  walk_loop_ends zero r s w h enough = absurd (omega (arith, pigeonhole n s.seen w.unique h))
  walk_loop_ends (suc fuel) r s w h enough =
      let s' = visit_all (listing r).0 (record s { found = false }) in
      let w' : IsWalk s' =
        visit_all-IsWalk (listing r).0 (record s { found = false })
          (record { same = w.same; unique = w.unique }) in
      let grown =
        visit_all-HasGrown (length s.seen) (listing r).0 (record s { found = false })
          (omega arith) in
      elim (Option-cases (listing r).1) [
        | inl fine ↦ elim (Bool-cases s'.found) [
          | inl more ↦
              let (result, e) =
                walk_loop_ends fuel (suc r) s' w' (seen-IsBelow r s h) (ground arith) in
              (result, rw (fine, more) e)
          | inr done ↦ (finished s'.submitted, rw (fine, done) refl)
        ]
        | inr (e, failing) ↦ (failed e s'.submitted, rw failing refl)
      ]

  -- If all IDs that are ever listed are below `n`, the walk returns after at most `n + 1` listings.
  pub walk_documents_ends : (result : WalkResult) × (walk_documents listing (suc n) ≡ some result)
  unfolding walk_documents
  walk_documents_ends =
      walk_loop_ends (suc n) 0 (record { seen = []; found = false; submitted = [] })
        (record { same = refl; unique = tt }) (λ a e. absurd (cc e)) (omega arith)
