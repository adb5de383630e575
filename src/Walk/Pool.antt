-- ===== src/Walk/Pool.antt =====
-- The walk of internal/cataloger/walk.go beside the goroutines it starts, as a step relation: the
-- documents that are handled change what the pages of a listing have. The pool is that of
-- github.com/sourcegraph/conc: `Go` waits while too many goroutines run, and `Wait` for all of them.
pub mod Served
pub mod Ends
use paperminer.Base.{
  ℕ, ◌≡◌, Bool, true, false, Option, none, some, List, [], ◌∷◌, ◌++◌, contains, length,
  if◌then◌else◌,
}
use paperminer.Errors.{Err}
use paperminer.Paperless.{Document}

-- What the client's iteration over a listing gives next, read from a cursor: a document for the
-- callback, or the end.
pub data Next (C : Type 0) : Type 0 where
  gives : Document → C → Next C
  ends : Option Err → Next C

-- What the walk gets from outside. `admits n` says whether the pool starts a goroutine beside n.
pub record WalkEnvironment (W C : Type 0) : Type 0 where
  pub first : C
  pub list_next : C → W → Next C
  pub process : Document → W → W
  pub admits : ℕ → Bool

-- Where the walk is: at the head of its loop, in a listing, at `tasks.Go` in the callback, at the
-- deferred `tasks.Wait`, or returned.
pub data Phase (C : Type 0) : Type 0 where
  at_loop : Phase C
  listing : C → Phase C
  submitting : Document → C → Phase C
  waiting : Option Err → Phase C
  back : Option Err → Phase C

-- `running` are the documents whose goroutines have not ended, `processed` those whose have.
pub record Walking (W C : Type 0) : Type 0 where
  pub phase : Phase C
  pub seen : List ℕ
  pub found : Bool
  pub running : List Document
  pub processed : List Document
  pub state : W

pub data Leaves (doc : Document) : List Document → List Document → Type 0 where
  first_leaves : {docs : List Document} → Leaves doc (doc ∷ docs) docs
  other_leaves :
      {d : Document} {docs docs' : List Document}
      → Leaves doc docs docs'
      → Leaves doc (d ∷ docs) (d ∷ docs')

-- The end of a listing.
unfoldable pub after_list : {C : Type 0} → Option Err → Bool → Phase C
after_list (some e) found = waiting (some e)
after_list none found = if found then at_loop else waiting none

module _ {W C : Type 0} where
  unfoldable pub begin : W → Walking W C
  begin s = record {
    phase = at_loop;
    seen = [];
    found = false;
    running = [];
    processed = [];
    state = s;
  }

  -- The callback, up to `tasks.Go`.
  unfoldable pub call_back : Document → C → Walking W C → Walking W C
  call_back doc c s =
      if contains s.seen doc.id
      then record s { phase = listing c }
      else record s { phase = submitting doc c; seen = s.seen ++ (doc.id ∷ []); found = true }

module _ {W C : Type 0} (env : WalkEnvironment W C) where
  pub data WalkStep (s : Walking W C) : Walking W C → Type 0 where
    lists : s.phase ≡ at_loop → WalkStep s (record s { phase = listing env.first; found = false })
    visits :
        {c c' : C} {doc : Document}
        → s.phase ≡ listing c
        → env.list_next c s.state ≡ gives doc c'
        → WalkStep s (call_back doc c' s)
    goes :
        {c : C} {doc : Document}
        → s.phase ≡ submitting doc c
        → env.admits (length s.running) ≡ true
        → WalkStep s (record s { phase = listing c; running = s.running ++ (doc ∷ []) })
    list_ends :
        {c : C} {e : Option Err}
        → s.phase ≡ listing c
        → env.list_next c s.state ≡ ends e
        → WalkStep s (record s { phase = after_list e s.found })
    processes :
        {docs : List Document} (doc : Document)
        → Leaves doc s.running docs
        → WalkStep s (record s {
          running = docs;
          processed = s.processed ++ (doc ∷ []);
          state = env.process doc s.state;
        })
    returns :
        {e : Option Err}
        → s.phase ≡ waiting e
        → s.running ≡ []
        → WalkStep s (record s { phase = back e })

  pub data WalkReach (w : W) : Walking W C → Type 0 where
    begins : WalkReach w (begin w)
    continues : {s t : Walking W C} → WalkReach w s → WalkStep s t → WalkReach w t
