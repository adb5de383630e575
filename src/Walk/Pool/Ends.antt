-- ===== src/Walk/Pool/Ends.antt =====
-- The walk of internal/cataloger/walk.go comes to its end beside its goroutines.
use paperminer.Base.{
  ℕ, zero, suc, ◌+◌, ◌-◌, ◌*◌, ◌≤◌, ◌<◌, ◌≡◌, refl, arith, ◌⊎◌, inl, inr, Bool, true, false,
  Bool-cases, Option, none, some, List, [], ◌∷◌, ◌++◌, contains, contains-append, NoDup, length,
  length-append, if◌then◌else◌,
}
use paperminer.Errors.{Err}
use paperminer.Paperless.{Document}
use paperminer.Walk.Once.{NoDup-append}
use paperminer.Walk.Ends.{IsBelow, pigeonhole}
use paperminer.Walk.Pool.{
  gives, WalkEnvironment, Phase, at_loop, listing, submitting, waiting, back, Walking, Leaves,
  first_leaves, other_leaves, begin, call_back, after_list, WalkStep, lists, visits, goes,
  list_ends, processes, returns,
}
use paperminer.Walk.Pool.Served.{CanGo, walk_never_blocks}

-- k steps of the walk and its goroutines.
pub data WalkRun {W C : Type 0} (env : WalkEnvironment W C) (s : Walking W C)
    : ℕ → Walking W C → Type 0 where
  not_begun : WalkRun env s zero s
  goes_on :
      {k : ℕ} {t u : Walking W C} → WalkRun env s k t → WalkStep env t u → WalkRun env s (suc k) u

-- The listings are finite: `rank` says how many documents may still follow at a cursor, of which
-- each has an ID below n.
pub record IsFinite {W C : Type 0} (env : WalkEnvironment W C) (n : ℕ) (rank : C → ℕ) : Type 0 where
  pub shrinks :
      (c c' : C) (doc : Document) (w : W) → env.list_next c w ≡ gives doc c' → rank c' < rank c
  pub below : (c c' : C) (doc : Document) (w : W) → env.list_next c w ≡ gives doc c' → doc.id < n

-- The steps that are left in a phase, with u IDs not seen, which cost k steps each, and l steps for
-- a listing.
abbrev phase_left : {C : Type 0} → (C → ℕ) → ℕ → ℕ → Bool → Phase C → ℕ
phase_left rank more l found at_loop = more + l + 1
phase_left rank more l found (listing c) = rank c + more + (if found then l else 0) + 2
phase_left rank more l found (submitting doc c) = rank c + more + (if found then l else 0) + 4
phase_left rank more l found (waiting e) = 1
phase_left rank more l found (back e) = 0

Leaves-length : {d : Document} {l l' : List Document} → Leaves d l l' → length l ≡ suc (length l')
Leaves-length first_leaves = refl
Leaves-length (other_leaves rest) = omega (arith, Leaves-length rest)

IsBelow-snoc : (n : ℕ) (xs : List ℕ) (x : ℕ) → IsBelow n xs → x < n → IsBelow n (xs ++ (x ∷ []))
IsBelow-snoc n xs x h less a e = ground (arith, contains-append xs (x ∷ []) a, h a)

-- An ID more that is seen takes its share of what is left.
share :
    (n k : ℕ) (xs : List ℕ) (x : ℕ)
    → length (xs ++ (x ∷ [])) ≤ n
    → (n - length xs) * k ≡ k + (n - length (xs ++ (x ∷ []))) * k
share n k xs x room =
    let e : n - length xs ≡ suc (n - length (xs ++ (x ∷ []))) =
      omega (arith, length-append xs (x ∷ [])) in
    rw e (omega arith)

module _ {W C : Type 0} (env : WalkEnvironment W C) (n : ℕ) (rank : C → ℕ)
    (finite : IsFinite env n rank) where
  -- A listing, with the step that begins it and the step that ends it.
  abbrev listing_left : ℕ
  listing_left = rank env.first + 2

  unfoldable pub walk_left : Walking W C → ℕ
  walk_left s =
      phase_left rank ((n - length s.seen) * (listing_left + 2)) listing_left s.found s.phase
      + length s.running

  abbrev IsSeen : Walking W C → Type 0
  IsSeen s = NoDup s.seen × IsBelow n s.seen

  call_back-walk_left :
      (doc : Document) (c c' : C) (s : Walking W C)
      → s.phase ≡ listing c
      → rank c' < rank c
      → doc.id < n
      → IsSeen s
      → IsSeen (call_back doc c' s) × (walk_left (call_back doc c' s) < walk_left s)
  unfolding call_back walk_left
  call_back-walk_left doc c c' s at less id (unique, below) =
      elim (Bool-cases (contains s.seen doc.id)) [
        | inl before ↦ rw before ((unique, below), rw at (omega arith))
        | inr new ↦
            let unique' = NoDup-append s.seen doc.id unique new in
            let below' = IsBelow-snoc n s.seen doc.id below id in
            let room = pigeonhole n (s.seen ++ (doc.id ∷ [])) unique' below' in
            rw new (
              (unique', below'),
              rw at (ground (arith, share n (listing_left + 2) s.seen doc.id room)),
            )
      ]

  after_list-walk_left :
      (s : Walking W C) (c : C) (e : Option Err) (found : Bool)
      → s.phase ≡ listing c
      → s.found ≡ found
      → walk_left (record s { phase = after_list e found }) < walk_left s
  unfolding walk_left after_list
  after_list-walk_left s c (some x) found at is = rw at (omega arith)
  after_list-walk_left s c none true at is = rw (at, is) (omega arith)
  after_list-walk_left s c none false at is = rw at (omega arith)

  WalkStep-walk_left :
      {s t : Walking W C} → WalkStep env s t → IsSeen s → IsSeen t × (walk_left t < walk_left s)
  unfolding walk_left
  WalkStep-walk_left (lists at) seen = (seen, rw at (omega arith))
  WalkStep-walk_left {s} (visits {c} {c'} {doc} at next) seen =
      call_back-walk_left doc c c' s at (finite.shrinks c c' doc s.state next)
        (finite.below c c' doc s.state next) seen
  WalkStep-walk_left {s} (goes {doc} at admitted) seen =
      (seen, rw at (omega (arith, length-append s.running (doc ∷ []))))
  WalkStep-walk_left {s} (list_ends {c} {e} at next) seen =
      (seen, after_list-walk_left s c e s.found at refl)
  WalkStep-walk_left (processes doc leaves) seen = (seen, omega (arith, Leaves-length leaves))
  WalkStep-walk_left (returns at empty) seen = (seen, rw at (omega arith))

  WalkRun-walk_left :
      {s : Walking W C} {k : ℕ} {t : Walking W C}
      → WalkRun env s k t
      → IsSeen s
      → IsSeen t × (k + walk_left t ≤ walk_left s)
  WalkRun-walk_left not_begun seen = (seen, omega arith)
  WalkRun-walk_left (goes_on run st) seen =
      let (before, few) = WalkRun-walk_left run seen in
      let (after, less) = WalkStep-walk_left st before in (after, omega arith)

  -- If a listing has at most `rank first` documents, and all IDs are below n, then the walk and its
  -- goroutines make, in whatever order, at most so many steps, and until the walk has returned they
  -- can make one, in a pool that starts a goroutine when none runs.
  pub pool_walk_ends :
      (w : W) (k : ℕ) (s : Walking W C)
      → env.admits 0 ≡ true
      → WalkRun env (begin w) k s
      → (k ≤ n * (rank env.first + 4) + (rank env.first + 3))
        × (((e : Option Err) × (s.phase ≡ back e)) ⊎ CanGo env s)
  unfolding walk_left begin
  pool_walk_ends w k s some_admitted run =
      let (seen, few) = WalkRun-walk_left run (tt, λ a e. absurd (cc e)) in
      (ground arith, walk_never_blocks env s some_admitted)
