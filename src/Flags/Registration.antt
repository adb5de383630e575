-- ===== src/Flags/Registration.antt =====
-- The command line flags of internal/core/program.go, internal/objectresolver/all.go and
-- internal/cataloger/workflow.go. The flags of the Paperless client (kpflag) are a parameter.
pub mod Distinct
use Prim.Native.String.{◌++◌ as ◌<>◌}
use paperminer.Base.{String, Bool, true, not, ◌&&◌, Option, none, some, List, [], ◌∷◌, ◌++◌, str_eq}

pub record Flag : Type 0 where
  pub name : String
  pub default : Option String

-- `registerFlags` of the program, but for those of the client.
unfoldable pub listen_flag : Flag
listen_flag = record { name = "listen_address"; default = some "[::1]:0" }

permission_flag : String → String → Flag
permission_flag perm kind = record {
  name = "object_default_" <> perm <> "_" <> kind;
  default = none;
}

-- `RegisterFlags` of the permissions of objects.
unfoldable pub permission_flags : List Flag
unfolding permission_flag
permission_flags =
    record { name = "object_default_owner_name"; default = none }
    ∷ permission_flag "view" "users"
    ∷ permission_flag "view" "groups"
    ∷ permission_flag "change" "users"
    ∷ permission_flag "change" "groups"
    ∷ []

add_flag : String → Option String → Flag
add_flag name default = record { name = "cataloger_" <> name; default = default }

abbrev pub default_todo : String → String
default_todo program_name = program_name <> ":todo"

abbrev pub default_failed : String → String
default_failed program_name = program_name <> ":failed"

-- `registerFlags` of the cataloger.
unfoldable pub cataloger_flags : String → List Flag
unfolding add_flag
cataloger_flags program_name =
    add_flag "list_facters" none
    ∷ add_flag "poll_interval" (some "1m")
    ∷ add_flag "tag_todo" (some (default_todo program_name))
    ∷ add_flag "tag_failed" (some (default_failed program_name))
    ∷ add_flag "retries_max" (some "3")
    ∷ add_flag "fact_extract_timeout" (some "5m")
    ∷ add_flag "file_size_max_bytes" (some "10485760")
    ∷ []

-- All of them, in the order in which they are registered.
unfoldable pub all_flags : List Flag → String → List Flag
unfolding listen_flag permission_flags cataloger_flags
all_flags client program_name =
    (listen_flag ∷ client) ++ (permission_flags ++ cataloger_flags program_name)

-- Whether no flag has the name, and whether no two have the same, which kingpin would refuse.
abbrev pub is_free : String → List Flag → Bool
is_free s [] = true
is_free s (f ∷ fs) = not (str_eq s f.name) && is_free s fs

abbrev pub are_distinct : List Flag → Bool
are_distinct [] = true
are_distinct (f ∷ fs) = is_free f.name fs && are_distinct fs
