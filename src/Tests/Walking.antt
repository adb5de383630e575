-- ===== src/Tests/Walking.antt =====
-- A walk over one document, with the goroutine that handles it.
use paperminer.Base.{
  ℕ, zero, suc, ◌+◌, ◌*◌, ◌≤◌, ◌<◌, ◌⊎◌, subst, arith, ◌≡◌, refl, true, false, Option, none, List,
  [], ◌∷◌, contains, ltb,
}
use paperminer.Errors.{Err}
use paperminer.Paperless.{Document}
use paperminer.Walk.Once.{ids}
use paperminer.Walk.Pool.{
  Next, gives, ends, WalkEnvironment, listing, back, Walking, first_leaves, begin, call_back,
  after_list, lists, visits, goes, list_ends, processes, returns, WalkReach, begins, continues,
}
use paperminer.Walk.Pool.Served.{times, CanGo, walk_serves_once}
use paperminer.Walk.Pool.Ends.{WalkRun, not_begun, goes_on, IsFinite, pool_walk_ends}
use paperminer.Slices.Laws.{std_ops-IsDocumented}
use paperminer.Facter.{background}
use paperminer.Workflow.{handle}
use paperminer.Workflow.Walks.{Listing, walk_environment, WasHandled, walk_handles}
use paperminer.Tests.World.{World, start, bill, settings, environment}
use paperminer.Tests.Cataloger.{apart}

-- The cursor is what is left of the listing, and the state counts the documents.
abbrev next_of : List Document → ℕ → Next (List Document)
next_of [] n = ends none
next_of (d ∷ l) n = gives d l

abbrev walk : WalkEnvironment ℕ (List Document)
walk = record {
  first = bill ∷ [];
  list_next = next_of;
  process = λ d n. suc n;
  admits = λ n. ltb n 2;
}

abbrev done_walk : Walking ℕ (List Document)
done_walk = record {
  phase = back none;
  seen = 7 ∷ [];
  found = false;
  running = [];
  processed = bill ∷ [];
  state = 1;
}

-- The goroutine ends during the second listing.
done_walk-WalkReach : WalkReach walk 0 done_walk
unfolding begin call_back after_list
done_walk-WalkReach =
    let w1 = continues begins (lists refl) in
    let w2 = continues w1 (visits refl refl) in
    let w3 = continues w2 (goes refl refl) in
    let w4 = continues w3 (list_ends refl refl) in
    let w5 = continues w4 (lists refl) in
    let w6 = continues w5 (processes bill first_leaves) in
    let w7 = continues w6 (visits refl refl) in
    let w8 = continues w7 (list_ends refl refl) in continues w8 (returns refl refl)

walk_serves_once_example :
    ((a : ℕ) → times (ids (bill ∷ [])) a + times (ids []) a ≤ 1)
    × ((e : Option Err)
        → done_walk.phase ≡ back e
        → (done_walk.running ≡ [])
          × ((a : ℕ) → contains (7 ∷ []) a ≡ true → times (ids (bill ∷ [])) a ≡ 1))
walk_serves_once_example = walk_serves_once walk 0 done_walk done_walk-WalkReach

abbrev pages : List Document → World → Next (List Document)
pages [] w = ends none
pages (d ∷ l) w = gives d l

abbrev one_bill : Listing World (List Document)
one_bill = record { first_page = bill ∷ []; page = pages; pool_admits = λ n. ltb n 2 }

-- The walk over the bill has returned.
abbrev handled : Walking World (List Document)
handled = record {
  phase = back none;
  seen = 7 ∷ [];
  found = false;
  running = [];
  processed = bill ∷ [];
  state = (handle environment settings background bill start).1;
}

handled-WalkReach :
    WalkReach (walk_environment environment settings background one_bill) start handled
unfolding begin call_back after_list walk_environment
handled-WalkReach =
    let w1 = continues begins (lists refl) in
    let w2 = continues w1 (visits refl refl) in
    let w3 = continues w2 (goes refl refl) in
    let w4 = continues w3 (processes bill first_leaves) in
    let w5 = continues w4 (list_ends refl refl) in
    let w6 = continues w5 (lists refl) in
    let w7 = continues w6 (visits refl refl) in
    let w8 = continues w7 (list_ends refl refl) in continues w8 (returns refl refl)

walk_handles_example :
    (doc : Document) × (doc.id ≡ 7)
    × WasHandled environment settings background one_bill start handled doc
walk_handles_example =
    walk_handles environment settings background one_bill std_ops-IsDocumented apart start handled
      none 7 handled-WalkReach refl refl

-- A listing that has the bill as often as its cursor says.
abbrev countdown : ℕ → ℕ → Next ℕ
countdown zero n = ends none
countdown (suc c) n = gives bill c

abbrev repeated : WalkEnvironment ℕ ℕ
repeated = record {
  first = 2;
  list_next = countdown;
  process = λ d n. suc n;
  admits = λ n. ltb n 2;
}

repeated-next :
    (c c' : ℕ) (doc : Document) (n : ℕ) → countdown c n ≡ gives doc c' → (c' < c) × (doc.id < 8)
repeated-next zero c' doc n h = absurd (cc h)
repeated-next (suc c) c' doc n h =
    let same : c ≡ c' = cc h in
    let is_bill : bill ≡ doc = cc h in
    (omega arith, subst (λ (d : Document). d.id < 8) is_bill (omega arith))

repeated-IsFinite : IsFinite repeated 8 (λ c. c)
repeated-IsFinite = record {
  shrinks = λ c c' doc n h. (repeated-next c c' doc n h).0;
  below = λ c c' doc n h. (repeated-next c c' doc n h).1;
}

-- The second time, the bill was seen before.
abbrev seen_twice : Walking ℕ ℕ
seen_twice = record {
  phase = listing 0;
  seen = 7 ∷ [];
  found = true;
  running = bill ∷ [];
  processed = [];
  state = 0;
}

seen_twice-WalkRun : WalkRun repeated (begin 0) 4 seen_twice
unfolding begin call_back
seen_twice-WalkRun =
    let w1 = goes_on not_begun (lists refl) in
    let w2 = goes_on w1 (visits refl refl) in
    let w3 = goes_on w2 (goes refl refl) in goes_on w3 (visits refl refl)

pool_walk_ends_example :
    (4 ≤ 8 * (2 + 4) + (2 + 3))
    × (((e : Option Err) × (seen_twice.phase ≡ back e)) ⊎ CanGo repeated seen_twice)
pool_walk_ends_example =
    pool_walk_ends repeated 8 (λ c. c) repeated-IsFinite 0 4 seen_twice refl seen_twice-WalkRun
