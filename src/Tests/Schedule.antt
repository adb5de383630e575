-- ===== src/Tests/Schedule.antt =====
-- Walks, polls, and what runs at them; the start of the program, its flags and a sketch.
use paperminer.Base.{
  ltb_ℤ, ℕ, ◌*◌, ◌^◌, ◌≡◌, refl, not, pos, ◌<ℤ◌, String, true, Option, none, some, List, [], ◌∷◌,
  arith, length, ◌==◌,
}
use paperminer.Errors.{Err, sentinel, canceled, early_exit}
use paperminer.Io.{Io, ok, err}
use paperminer.Paperless.{Document}
use paperminer.Walk.{WalkResult, finished, walk_documents}
use paperminer.Walk.Once.{IsOnce, walk_documents-IsOnce}
use paperminer.Walk.Ends.{walk_documents_ends}
use paperminer.Poller.{Options, Round, notified, idle, interrupted, fired, next_delay}
use paperminer.Poller.Delay.{next_delay_below_min}
use paperminer.Store.{DocumentTask}
use paperminer.Flags.{set}
use paperminer.Flags.Laws.{set_twice}
use paperminer.Store.Prune.{Transactions, prune, keep, query, IsDatabase, prune-eq_ok}
use paperminer.Sketch.{SketchLibrary, Plugin}
use paperminer.Core.{Startup}
use paperminer.Task.{fresh_record}
use paperminer.Tests.World.{World, bill, bill_metadata, bill_facts}

-- Every listing has the same document.
abbrev same_listing : ℕ → List Document × Option Err
same_listing r = (bill ∷ [], none)

walk_documents-IsOnce_example : IsOnce same_listing (finished (bill ∷ []))
unfolding walk_documents paperminer.Walk.walk_loop
walk_documents-IsOnce_example = walk_documents-IsOnce same_listing 3 (finished (bill ∷ [])) refl

walk_documents_ends_example : (result : WalkResult) × (walk_documents same_listing 9 ≡ some result)
walk_documents_ends_example = walk_documents_ends same_listing 8 (λ r a e. ground (arith, e))

-- The cataloger's settings, with a poll that does nothing.
abbrev options : Options World
options = record {
  poll = some (λ w. w);
  next_delay = some (λ w. pos 60000000000);
  min_delay = pos (10 * 10 ^ 9);
  max_delay = pos (3600 * 10 ^ 9);
  jitter = record { num = pos 1; den = 10 };
}

next_delay_below_min_example : next_delay options (pos 5) 0 <ℤ pos (10 * 10 ^ 9)
next_delay_below_min_example =
    next_delay_below_min options (pos 5) (10 * 10 ^ 9) 1 refl (omega arith) refl (omega arith)
      (omega arith)

abbrev rounds : List Round
rounds =
    record { ready = notified; random = 3; wakeup = fired }
    ∷ record { ready = idle; random = 3; wakeup = interrupted (sentinel canceled) }
    ∷ []

abbrev no_poll : Options World
no_poll = record options { poll = none }

-- A database that is the list of its records.
abbrev database : Transactions (List DocumentTask)
database = record {
  update = λ m s. m s;
  tx_count = λ q s. (ok (length (keep q s)), s);
  tx_delete_matching = λ q s. (ok tt, keep (λ r. not (q r)) s);
}

database-IsDatabase : IsDatabase database (λ s. s)
database-IsDatabase = record {
  commits = λ m s s' h. h;
  counts = λ q s s' n h. (cc h, cc h);
  deletes = λ q s s' h. cc h;
}

abbrev two_records : List DocumentTask
two_records =
    record (fresh_record bill bill_metadata) { record_updated = pos 5 }
    ∷ record (fresh_record bill bill_metadata) { record_updated = pos 50 }
    ∷ []

set_twice_example : set [] (b'a' ∷ b',' ∷ b' ' ∷ []) ≡ set (set [] (b'a' ∷ [])) (b' ' ∷ [])
set_twice_example = set_twice [] (b'a' ∷ []) (b' ' ∷ [])

prune-eq_ok_example :
    (prune database (pos 20) two_records).1
    ≡ keep (λ r. not (ltb_ℤ r.record_updated (pos 20))) two_records
unfolding prune query
prune-eq_ok_example =
    prune-eq_ok database (λ s. s) (pos 20) two_records (prune database (pos 20) two_records).1
      database-IsDatabase refl

-- Pages are numbers, and so are nodes; the required node is valid on page 1 alone.
abbrev library : SketchLibrary World ℕ ℕ ℕ ℕ ℕ
library = record {
  compile_from_textproto_string = λ text. ok 0;
  compile = λ m. ok m;
  next = λ s doc ctx w. (ok doc, w);
  node_by_name = λ report name. some report;
  valid = λ node. node == 1;
}

abbrev plugin : Plugin ℕ ℕ ℕ
plugin = record {
  opts = record {
    name = "invoice";
    textproto = "";
    sketch = some 0;
    required = "number" ∷ [];
    build = some (λ report. ok (some bill_facts));
  };
  s = 0;
  build = λ report. ok (some bill_facts);
}

-- A start of the program in which every call succeeds.
abbrev pub startup_in : (W : Type 0) → Startup W String String
startup_in W = record {
  build = λ w. (ok "client", w);
  api = λ c. record {
    get_current_user = λ w. (ok (record { id = 1; name = "admin" }), w);
    user_client = record { list = λ name w. (ok [], w) };
    group_client = record { list = λ name w. (ok [], w) };
    tag_client = record {
      list = λ name w. (ok [], w);
      create = λ l w. (ok (record { id = 1; name = "t" }), w);
    };
    correspondent_client = record {
      list = λ name w. (ok [], w);
      create = λ l w. (ok (record { id = 1; name = "t" }), w);
    };
    document_type_client = record {
      list = λ name w. (ok [], w);
      create = λ l w. (ok (record { id = 1; name = "t" }), w);
    };
    storage_path_client = record { list = λ name w. (ok [], w) };
  };
  flight = λ kind key m. m;
  object_permissions = record {
    owner = "";
    view = record { users = []; groups = [] };
    change = record { users = []; groups = [] };
  };
  disk = record {
    user_cache_dir = λ w. (ok "cache", w);
    missing = λ dir w. (true, w);
    mkdir_all = λ dir w. (ok tt, w);
    mkdir_temp = λ dir pattern w. (ok "cache/tmp", w);
    remove_all = λ dir w. (ok tt, w);
    join = λ dir name. dir;
    bolt = record { open_file = λ path timeout w. (ok "store", w); reindex = λ s w. (ok tt, w) };
  };
  store_dir = "";
  serve = λ env w. (ok tt, w);
}

abbrev pub startup : Startup World String String
startup = startup_in World

abbrev pub fine : Io World (Unit {0})
fine w = (ok tt, w)

abbrev exits : Io World (Unit {0})
exits w = (err (sentinel early_exit), w)
