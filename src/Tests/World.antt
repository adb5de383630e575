-- ===== src/Tests/World.antt =====
-- A small world to run the program in: a server with one document, a database for one record, and a
-- clock that stands still.
use paperminer.Base.{
  ℤ, pos, String, Bool, true, false, not, ◌&&◌, Option, none, some, List, [], ◌∷◌, ◌++◌, ◌==◌,
  str_eq, eqb_ℤ, if◌then◌else◌,
}
use paperminer.Errors.{sentinel, store_not_found}
use paperminer.Io.{Result, ok, err}
use paperminer.Paperless.{Document, DocumentMetadata, DocumentFields, Object}
use paperminer.Facts.{Facts}
use paperminer.Slices.{std_ops}
use paperminer.Resolver.{Resolver}
use paperminer.Resolver.Providers.{ObjectResolvers}
use paperminer.Facter.{DocumentFacter, Group}
use paperminer.Documents.{Fs, Dossier}
use paperminer.Updater.{UpdaterClient, UpdaterOptions, Updater}
use paperminer.Store.{DocumentTask}
use paperminer.Task.{DocSnapshot, TaskOptions}
use paperminer.Workflow.{Environment, Workflow}

pub record World : Type 0 where
  pub stored : Option DocumentTask
  pub sent : List DocumentFields
  pub clock : ℤ

abbrev pub start : World
start = record { stored = none; sent = []; clock = pos 1000 }

abbrev pub bill : Document
bill = record {
  id = 7;
  added = pos 10;
  created = pos 5;
  modified = pos 20;
  title = "scan";
  content = "";
  correspondent = some (record { address = 0; value = 2 });
  document_type = none;
  storage_path = none;
  tags = 1 ∷ 5 ∷ [];
}

abbrev pub bill_metadata : DocumentMetadata
bill_metadata = record {
  original_checksum = "abc";
  original_size = pos 100;
  has_archive_version = false;
  archive_checksum = "";
  archive_size = pos 0;
}

abbrev pub bill_facts : Facts
bill_facts = record {
  reporter = none;
  title = some "Bill";
  created = none;
  document_type = none;
  correspondent = some "acme";
  storage_path = none;
  set_tags = [];
  unset_tags = [];
}

-- The names of the server's tags: "todo" is tag 1, any other name tag 2.
abbrev pub by_name : String → World → Result (List Object) × World
by_name name w = (ok (record { id = if str_eq name "todo" then 1 else 2; name = name } ∷ []), w)

abbrev pub two_objects : Resolver World Object
two_objects = record {
  kind = "tag";
  do_once = λ key m. m;
  p = record { kind = "tag"; create = λ name w. (ok tt, w); list_by_name = by_name };
}

abbrev pub all_resolvers : ObjectResolvers World
all_resolvers = record {
  user = two_objects;
  group = two_objects;
  tag = two_objects;
  correspondent = two_objects;
  document_type = two_objects;
  storage_path = two_objects;
}

abbrev pub client : UpdaterClient World String
client = record {
  variants = record {
    download_document_original = λ ctx file id w. (ok tt, w);
    download_document_archived = λ ctx file id w. (ok tt, w);
  };
  patch_document = λ id fields w. (ok tt, record w { sent = w.sent ++ (fields ∷ []) });
}

abbrev pub same_bool : Bool → Bool → Bool
same_bool true b = b
same_bool false b = not b

abbrev pub same_snapshot : DocSnapshot → DocSnapshot → Bool
same_snapshot a b =
    a.id == b.id
    && eqb_ℤ a.added b.added
    && eqb_ℤ a.created b.created
    && eqb_ℤ a.modified b.modified
    && str_eq a.title b.title
    && str_eq a.content b.content
    && str_eq a.original_checksum b.original_checksum
    && same_bool a.has_archive_version b.has_archive_version
    && str_eq a.archive_checksum b.archive_checksum

abbrev pub found : Option DocumentTask → Result DocumentTask
found none = err (sentinel store_not_found)
found (some r) = ok r

abbrev pub tasks : TaskOptions World
tasks = record {
  store = record {
    get = λ key w. (found w.stored, w);
    upsert = λ key rec w. (ok tt, record w { stored = some rec });
  };
  client = record {
    get_document = λ id w. (ok bill, w);
    get_document_metadata = λ id w. (ok bill_metadata, w);
  };
  now = λ w. w.clock;
  json_diff = λ a b. ok (not (same_snapshot a b));
}

abbrev pub fs : Fs World String
fs = record {
  mkdir_temp = λ dir pattern w. (ok "tmp", w);
  remove_all = λ dir w. (ok tt, w);
  create_temp = λ dir w. (ok "tmp/file", w);
  close = λ file w. (ok tt, w);
  file_name = λ file. file;
}

abbrev pub dossier : Dossier World String
dossier = record { new_document = λ path. path; validate = λ ctx doc w. (ok tt, w) }

-- One task after the other.
abbrev pub in_order :
    List (World → (String × Result (Option Facts)) × World)
    → World
    → List (String × Result (Option Facts)) × World
in_order [] w = ([], w)
in_order (task ∷ tasks) w =
    let (answer, w1) = task w in let (answers, w2) = in_order tasks w1 in (answer ∷ answers, w2)

abbrev pub bill_plugin : DocumentFacter World String
bill_plugin = record { info_name = "bill"; document_facts = λ ctx doc w. (ok (some bill_facts), w) }

abbrev pub facters : Group World String
facters = record { plugins = record { name = "bill"; inst = bill_plugin } ∷ [] }

abbrev pub settings : Workflow World String
settings = record {
  list_facters = false;
  poll_interval = pos 60000000000;
  tag_name_todo = "todo";
  tag_name_failed = "failed";
  file_size_max = pos 1000;
  retries_max = pos 3;
  fact_extract_timeout = pos 300;
  facters = facters;
}

abbrev pub environment : Environment World String String
environment = record {
  resolvers = all_resolvers;
  client = client;
  tasks = tasks;
  listing = λ tag r. (bill ∷ [], none);
  registry = λ w. (ok [], w);
  fs = fs;
  dossier = dossier;
  stream = in_order;
  println = λ line w. (ok tt, w);
  ops = std_ops;
  todo_first = true;
}

abbrev pub options : UpdaterOptions World String
options = record {
  resolvers = all_resolvers;
  client = client;
  document = bill;
  metadata = bill_metadata;
  todo_tag_name = "todo";
  failed_tag_name = "failed";
  file_size_max = pos 1000;
  extract_timeout = pos 300;
  extract_file_facts = λ ctx path w. (ok (bill_facts ∷ []), w);
  check_modified = λ w. (ok tt, w);
}

abbrev pub updater : Updater World String
updater = record {
  options = options;
  todo_tag = record { id = 1; name = "todo" };
  failed_tag = record { id = 2; name = "failed" };
}
