-- ===== src/Workflow/Walks.antt =====
-- A walk of internal/cataloger/walk.go with the handler of internal/cataloger/workflow.go: what has
-- come of every document when `processDocuments` returns. One document is handled in one step here,
-- in between the steps of the walk and of the other goroutines.
use paperminer.Base.{
  ℕ, Bool, ◌≤◌, ◌≡◌, refl, sym, subst, arith, ◌⊎◌, inl, inr, true, Bool-cases, ==_iff, ◌==◌, Option,
  List, [], ◌∷◌, ◌++◌, All, contains,
}
use paperminer.Errors.{Err}
use paperminer.Io.{Result, ok, err}
use paperminer.Paperless.{Document}
use paperminer.Slices.{IsDocumented}
use paperminer.Facter.{Context}
use paperminer.Walk.Once.{ids}
use paperminer.Walk.Pool.{
  Next, WalkEnvironment, Leaves, back, Walking, begin, call_back, WalkStep, lists, visits, goes,
  list_ends, processes, returns, WalkReach, begins, continues,
}
use paperminer.Walk.Pool.Served.{times, walk_serves_once}
use paperminer.Workflow.{Environment, Workflow, handle}
use paperminer.Workflow.Outcome.{IsHandled, AreApart, handle-IsHandled}

-- `ListAllDocuments` of the client, and the pool.
pub record Listing (W C : Type 0) : Type 0 where
  pub first_page : C
  pub page : C → W → Next C
  pub pool_admits : ℕ → Bool

All-snoc :
    {A : Type 0} (P : A → Type 0) (l : List A) (x : A) → All P l → P x → All P (l ++ (x ∷ []))
All-snoc P [] x h p = (p, tt)
All-snoc P (y ∷ l) x h p = (h.0, All-snoc P l x h.1 p)

All-weaken :
    {A : Type 0} (P Q : A → Type 0) (l : List A) → ((x : A) → P x → Q x) → All P l → All Q l
All-weaken P Q [] f h = tt
All-weaken P Q (x ∷ l) f h = (f x h.0, All-weaken P Q l f h.1)

-- The document of an ID that is there.
found_by_id :
    (P : Document → Type 0) (l : List Document) (a : ℕ)
    → All P l
    → 1 ≤ times (ids l) a
    → (doc : Document) × (doc.id ≡ a) × P doc
found_by_id P [] a h there = absurd (omega arith)
found_by_id P (d ∷ l) a h there = elim (Bool-cases (d.id == a)) [
  | inl same ↦ (d, (==_iff d.id a).0 same, h.0)
  | inr other ↦ found_by_id P l a h.1 (ground arith)
]

-- Steps of a walk from one state to another.
pub data Leads {W C : Type 0} (env : WalkEnvironment W C) (s : Walking W C)
    : Walking W C → Type 0 where
  here : Leads env s s
  then_step : {t u : Walking W C} → Leads env s t → WalkStep env t u → Leads env s u

call_back-processed :
    {W C : Type 0} (doc : Document) (c : C) (s : Walking W C)
    → (call_back doc c s).processed ≡ s.processed
unfolding call_back
call_back-processed doc c s = elim (Bool-cases (contains s.seen doc.id)) [
  | inl old ↦ rw old refl
  | inr new ↦ rw new refl
]

module _ {W File Doc C : Type 0} (env : Environment W File Doc) (w : Workflow W Doc) (ctx : Context)
    (l : Listing W C) where
  -- The error of a handler is logged.
  unfoldable pub walk_environment : WalkEnvironment W C
  walk_environment = record {
    first = l.first_page;
    list_next = l.page;
    process = λ doc s. (handle env w ctx doc s).1;
    admits = l.pool_admits;
  }

  -- What came of handling one document, from one state to the next: an error that is logged, or one
  -- of the outcomes of `IsHandled`.
  abbrev pub ComesTo : Document → W → W → Type 0
  ComesTo doc s s' =
      ((e : Err) × (handle env w ctx doc s ≡ (err e, s'))) ⊎ IsHandled env w ctx doc s s'

  -- The document was handled in a step of the walk, some time before `last`.
  pub record WasHandled (start : W) (last : Walking W C) (doc : Document) : Type 0 where
    pub earlier : Walking W C
    pub later : Walking W C
    pub reached : WalkReach walk_environment start earlier
    pub was_running : Leaves doc earlier.running later.running
    pub is_processed : later.processed ≡ earlier.processed ++ (doc ∷ [])
    pub comes_to : ComesTo doc earlier.state later.state
    pub leads : Leads walk_environment later last

  ComesTo-handle :
      (doc : Document) (s : W)
      → IsDocumented env.ops
      → AreApart env w ctx
      → ComesTo doc s (handle env w ctx doc s).1
  ComesTo-handle doc s d apart = inspect (handle env w ctx doc s) refl
    where
      inspect : (r : Result (Unit {0}) × W) → handle env w ctx doc s ≡ r → ComesTo doc s r.1
      inspect (ok u, s') e = inr (handle-IsHandled env w ctx doc s s' d apart e)
      inspect (err x, s') e = inl (x, e)

  WasHandled-then :
      (start : W) (r s : Walking W C) (doc : Document)
      → WalkStep walk_environment r s
      → WasHandled start r doc
      → WasHandled start s doc
  WasHandled-then start r s doc st h = record {
    earlier = h.earlier;
    later = h.later;
    reached = h.reached;
    was_running = h.was_running;
    is_processed = h.is_processed;
    comes_to = h.comes_to;
    leads = then_step h.leads st;
  }

module _ {W File Doc C : Type 0} (env : Environment W File Doc) (w : Workflow W Doc) (ctx : Context)
    (l : Listing W C) (d : IsDocumented env.ops) (apart : AreApart env w ctx) where
  WalkStep-handled :
      (start : W) (r s : Walking W C)
      → WalkReach (walk_environment env w ctx l) start r
      → WalkStep (walk_environment env w ctx l) r s
      → All (WasHandled env w ctx l start s) r.processed
      → All (WasHandled env w ctx l start s) s.processed
  unfolding walk_environment
  WalkStep-handled start r s reach (lists at) h = h
  WalkStep-handled start r s reach (visits {c'} {doc} at next) h =
      subst (All (WasHandled env w ctx l start (call_back doc c' r)))
        (sym (call_back-processed doc c' r)) h
  WalkStep-handled start r s reach (goes at admitted) h = h
  WalkStep-handled start r s reach (list_ends at next) h = h
  WalkStep-handled start r s reach (processes {docs} doc leaves) h =
      All-snoc (WasHandled env w ctx l start s) r.processed doc h (record {
        earlier = r;
        later = s;
        reached = reach;
        was_running = leaves;
        is_processed = refl;
        comes_to = ComesTo-handle env w ctx l doc r.state d apart;
        leads = here;
      })
  WalkStep-handled start r s reach (returns at empty) h = h

  WalkReach-handled :
      (start : W) (s : Walking W C)
      → WalkReach (walk_environment env w ctx l) start s
      → All (WasHandled env w ctx l start s) s.processed
  unfolding begin
  WalkReach-handled start s begins = tt
  WalkReach-handled start s (continues {s = r} reach st) = WalkStep-handled start r s reach st (
      All-weaken (WasHandled env w ctx l start r) (WasHandled env w ctx l start s) r.processed
        (λ doc. WasHandled-then env w ctx l start r s doc st) (WalkReach-handled start r reach))

  -- When a walk has returned, with or without an error, in whatever order things happened: for every
  -- ID that it has seen, a document with that ID was handled in one of the steps of the walk; it was
  -- skipped, or sent a patch that takes the todo tag away, or its error was recorded for a retry, or
  -- an error was logged. The operations are as documented, and the tags apart.
  pub walk_handles :
      (start : W) (s : Walking W C) (e : Option Err) (a : ℕ)
      → WalkReach (walk_environment env w ctx l) start s
      → s.phase ≡ back e
      → contains s.seen a ≡ true
      → (doc : Document) × (doc.id ≡ a) × WasHandled env w ctx l start s doc
  walk_handles start s e a reach at seen =
      let (_, done) = walk_serves_once (walk_environment env w ctx l) start s reach in
      found_by_id (WasHandled env w ctx l start s) s.processed a (WalkReach-handled start s reach)
        (omega (arith, (done e at).1 a seen))
