-- ===== src/Walk/Pool/Served.antt =====
-- Each document is processed once, and the walk of internal/cataloger/walk.go waits for all of them.
use paperminer.Base.{
  ℕ, ◌+◌, ◌≤◌, ◌≡◌, ◌≢◌, refl, ap, sym, subst, arith, ◌⊎◌, inl, inr, Bool, true, false, Bool-cases,
  ==_iff, Option, none, some, List, [], ◌∷◌, ◌++◌, ◌==◌, contains, if◌then◌else◌,
}
use paperminer.Errors.{Err}
use paperminer.Paperless.{Document}
use paperminer.Walk.Once.{ids}
use paperminer.Walk.Pool.{
  Next, gives, ends, WalkEnvironment, Phase, at_loop, listing, submitting, waiting, back, Walking,
  Leaves, first_leaves, other_leaves, begin, call_back, after_list, WalkStep, lists, visits, goes,
  list_ends, processes, returns, WalkReach, begins, continues,
}

abbrev one : ℕ → ℕ → ℕ
one x a = if x == a then 1 else 0

-- How often a number is in a list.
abbrev pub times : List ℕ → ℕ → ℕ
times [] a = 0
times (x ∷ xs) a = times xs a + one x a

-- One more at the end.
times-snoc : (l : List ℕ) (last a : ℕ) → times (l ++ (last ∷ [])) a ≡ one last a + times l a
times-snoc [] last a = omega arith
times-snoc (x ∷ l) last a = ground (arith, times-snoc l last a)

times-absent : (a : ℕ) (xs : List ℕ) → contains xs a ≡ false → times xs a ≡ 0
times-absent a [] h = refl
times-absent a (x ∷ xs) h = ground (arith, times-absent a xs)

times-present : (a : ℕ) (xs : List ℕ) → contains xs a ≡ true → 1 ≤ times xs a
times-present a [] h = absurd (cc h)
times-present a (x ∷ xs) h = ground (arith, times-present a xs)

times-ids-append :
    (a : ℕ) (l : List Document) (d : Document)
    → times (ids (l ++ (d ∷ []))) a ≡ times (ids l) a + one d.id a
times-ids-append a [] d = omega arith
times-ids-append a (x ∷ l) d = ground (arith, times-ids-append a l d)

times-Leaves :
    {d : Document} {l l' : List Document} (a : ℕ)
    → Leaves d l l'
    → times (ids l) a ≡ times (ids l') a + one d.id a
times-Leaves a first_leaves = omega arith
times-Leaves a (other_leaves rest) = omega (arith, times-Leaves a rest)

-- The document that is about to be submitted.
abbrev at_hand : {C : Type 0} → Phase C → ℕ → ℕ
at_hand at_loop a = 0
at_hand (listing c) a = 0
at_hand (submitting doc c) a = one doc.id a
at_hand (waiting e) a = 0
at_hand (back e) a = 0

-- Every ID that was seen is that of one document, which is about to be submitted, is being
-- processed, or has been. Once the walk has returned none is being processed.
record IsServing {W C : Type 0} (s : Walking W C) : Type 0 where
  balanced :
      (a : ℕ)
      → times s.seen a ≡ times (ids s.processed) a + times (ids s.running) a + at_hand s.phase a
  unique : (a : ℕ) → times s.seen a ≤ 1
  quiet : (e : Option Err) → s.phase ≡ back e → s.running ≡ []

begin-IsServing : {W C : Type 0} (w : W) → IsServing {W = W} {C = C} (begin w)
unfolding begin
begin-IsServing w = record { balanced = λ a. refl; unique = λ a. omega arith; quiet = λ e h. refl }

no_more :
    (a : ℕ) (x : ℕ) (xs : List ℕ)
    → contains xs x ≡ false
    → times xs a ≤ 1
    → times (xs ++ (x ∷ [])) a ≤ 1
no_more a x xs new few = elim (Bool-cases (x == a)) [
  | inl same ↦
      let e = (==_iff x a).0 same in
      let none_yet : times xs a ≡ 0 = subst (λ y. times xs y ≡ 0) e (times-absent x xs new) in
      ground (arith, times-snoc xs x a)
  | inr other ↦ ground (arith, times-snoc xs x a)
]

Leaves-not_nil : {d : Document} {l l' : List Document} → Leaves d l l' → l ≢ []
Leaves-not_nil first_leaves = λ e. cc
Leaves-not_nil (other_leaves rest) = λ e. cc

module _ {W C : Type 0} where
  -- The phase changes to one in which no document is at hand.
  moves-IsServing :
      (s : Walking W C) (p : Phase C) (found : Bool)
      → ((a : ℕ) → at_hand s.phase a ≡ 0)
      → ((a : ℕ) → at_hand p a ≡ 0)
      → ((e : Option Err) → p ≢ back e)
      → IsServing s
      → IsServing (record s { phase = p; found = found })
  moves-IsServing s p found before after not i = record {
    balanced = λ a. omega (arith, i.balanced a, before a, after a);
    unique = i.unique;
    quiet = λ e h. absurd (not e h);
  }

  after_list-IsServing :
      (s : Walking W C) (c : C) (e : Option Err) (found : Bool)
      → s.phase ≡ listing c
      → IsServing s
      → IsServing (record s { phase = after_list e found })
  unfolding after_list
  after_list-IsServing s c (some x) found at i =
      moves-IsServing s (waiting (some x)) s.found (λ a. ap (λ p. at_hand p a) at) (λ a. refl)
        (λ e h. cc) i
  after_list-IsServing s c none true at i =
      moves-IsServing s at_loop s.found (λ a. ap (λ p. at_hand p a) at) (λ a. refl) (λ e h. cc) i
  after_list-IsServing s c none false at i =
      moves-IsServing s (waiting none) s.found (λ a. ap (λ p. at_hand p a) at) (λ a. refl)
        (λ e h. cc) i

  call_back-IsServing :
      (doc : Document) (c c' : C) (s : Walking W C)
      → s.phase ≡ listing c
      → IsServing s
      → IsServing (call_back doc c' s)
  unfolding call_back
  call_back-IsServing doc c c' s at i =
      let idle : (a : ℕ) → at_hand s.phase a ≡ 0 = λ a. ap (λ p. at_hand p a) at in
      elim (Bool-cases (contains s.seen doc.id)) [
        | inl before ↦ rw before (record {
          balanced = λ a. omega (arith, i.balanced a, idle a);
          unique = i.unique;
          quiet = λ e h. absurd (cc h);
        })
        | inr new ↦ rw new (record {
          balanced = λ a. omega (arith, i.balanced a, idle a, times-snoc s.seen doc.id a);
          unique = λ a. no_more a doc.id s.seen new (i.unique a);
          quiet = λ e h. absurd (cc h);
        })
      ]

module _ {W C : Type 0} (env : WalkEnvironment W C) where
  WalkStep-IsServing : {s t : Walking W C} → WalkStep env s t → IsServing s → IsServing t
  unfolding after_list
  WalkStep-IsServing {s} (lists at) i =
      moves-IsServing s (listing env.first) false (λ a. ap (λ p. at_hand p a) at) (λ a. refl)
        (λ e h. cc) i
  WalkStep-IsServing {s} (visits {c} {c'} {doc} at next) i = call_back-IsServing doc c c' s at i
  WalkStep-IsServing {s} (goes {doc} at admitted) i = record {
    balanced = λ a.
        omega (arith, i.balanced a, ap (λ p. at_hand p a) at, times-ids-append a s.running doc);
    unique = i.unique;
    quiet = λ e h. absurd (cc h);
  }
  WalkStep-IsServing {s} (list_ends {c} {e} at next) i = after_list-IsServing s c e s.found at i
  WalkStep-IsServing {s} (processes doc leaves) i = record {
    balanced =
        λ a. omega (arith, i.balanced a, times-Leaves a leaves, times-ids-append a s.processed doc);
    unique = i.unique;
    quiet = λ e h. absurd (Leaves-not_nil leaves (i.quiet e h));
  }
  WalkStep-IsServing {s} (returns at empty) i = record {
    balanced = λ a. omega (arith, i.balanced a, ap (λ p. at_hand p a) at);
    unique = i.unique;
    quiet = λ e h. empty;
  }

  WalkReach-IsServing : (w : W) (s : Walking W C) → WalkReach env w s → IsServing s
  WalkReach-IsServing w s begins = begin-IsServing w
  WalkReach-IsServing w s (continues {s = r} reach st) =
      WalkStep-IsServing st (WalkReach-IsServing w r reach)

  -- Whatever the order of steps: no two goroutines are ever started for one ID, and when the walk has
  -- returned, with or without an error, none is left running, and each ID that was seen is that of
  -- exactly one document that was processed.
  pub walk_serves_once :
      (w : W) (s : Walking W C)
      → WalkReach env w s
      → ((a : ℕ) → times (ids s.processed) a + times (ids s.running) a ≤ 1)
        × ((e : Option Err)
            → s.phase ≡ back e
            → (s.running ≡ [])
              × ((a : ℕ) → contains s.seen a ≡ true → times (ids s.processed) a ≡ 1))
  walk_serves_once w s reach =
      let i = WalkReach-IsServing w s reach in
      (
        λ a. omega (arith, i.balanced a, i.unique a),
        λ e at. (
          i.quiet e at,
          λ a there.
              let none_runs : times (ids s.running) a ≡ 0 = rw (i.quiet e at) refl in
              let idle : at_hand s.phase a ≡ 0 = ap (λ p. at_hand p a) at in
              omega
                (arith, i.balanced a, i.unique a, none_runs, idle, times-present a s.seen there),
        ),
      )

  abbrev pub CanGo : Walking W C → Type 0
  CanGo s = (t : Walking W C) × WalkStep env s t

  -- Some goroutine that runs can end.
  running_can_end :
      (s : Walking W C) (d : Document) (l : List Document) → s.running ≡ d ∷ l → CanGo s
  running_can_end s d l e = (_, processes d (subst (λ r. Leaves d r l) (sym e) first_leaves))

  next-CanGo :
      (s : Walking W C) (c : C) (n : Next C)
      → s.phase ≡ listing c
      → env.list_next c s.state ≡ n
      → CanGo s
  next-CanGo s c (gives doc c') at e = (_, visits at e)
  next-CanGo s c (ends x) at e = (_, list_ends at e)

  -- With a pool that starts a goroutine when none runs, the walk never blocks: until it has returned
  -- it, or a goroutine that it waits for, can go on.
  pub walk_never_blocks :
      (s : Walking W C) → env.admits 0 ≡ true → ((e : Option Err) × (s.phase ≡ back e)) ⊎ CanGo s
  walk_never_blocks s some_admitted = by_phase s.phase s.running refl refl
    where
      by_phase :
          (p : Phase C) (l : List Document)
          → s.phase ≡ p
          → s.running ≡ l
          → ((e : Option Err) × (s.phase ≡ back e)) ⊎ CanGo s
      by_phase (back e) l at run = inl (e, at)
      by_phase at_loop l at run = inr (_, lists at)
      by_phase (listing c) l at run = inr (next-CanGo s c (env.list_next c s.state) at refl)
      by_phase (submitting doc c) [] at run = inr (_, goes at (rw run some_admitted))
      by_phase (submitting doc c) (d ∷ l) at run = inr (running_can_end s d l run)
      by_phase (waiting e) [] at run = inr (_, returns at run)
      by_phase (waiting e) (d ∷ l) at run = inr (running_can_end s d l run)
