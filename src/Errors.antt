-- ===== src/Errors.antt =====
-- Errors as values: the sentinel errors of internal/objectresolver/error.go, internal/cataloger and
-- internal/workflow, those of the libraries that the program compares with, and the two ways to
-- look into an error, `errors.Is` and `errors.As`.
use Prim.Native.String.{◌++◌ as ◌<>◌}
use paperminer.Base.{ℕ, String, Bool, false, ◌||◌, Option, none, some, ◌==◌}

pub data Sentinel : Type 0 where
  ambiguous create_unsupported not_found : Sentinel
  document_too_large concurrent_modification : Sentinel
  early_exit : Sentinel
  invalid invalid_report : Sentinel
  store_not_found canceled deadline_exceeded server_closed iter_done : Sentinel

abbrev pub sentinel_text : Sentinel → String
sentinel_text ambiguous = "ambiguous object list result"
sentinel_text create_unsupported = "object creation not supported"
sentinel_text not_found = "object not found"
sentinel_text document_too_large = "document too large"
sentinel_text concurrent_modification = "detected concurrent modification"
sentinel_text early_exit = "successful exit from validation"
sentinel_text invalid = "invalid argument"
sentinel_text invalid_report = "invalid report"
sentinel_text store_not_found = "No data found for this key"
sentinel_text canceled = "context canceled"
sentinel_text deadline_exceeded = "context deadline exceeded"
sentinel_text server_closed = "http: Server closed"
sentinel_text iter_done = "done"

-- Sentinels are compared as pointers: each is equal to itself alone.
abbrev pub sentinel_id : Sentinel → ℕ
sentinel_id ambiguous = 0
sentinel_id create_unsupported = 1
sentinel_id not_found = 2
sentinel_id document_too_large = 3
sentinel_id concurrent_modification = 4
sentinel_id early_exit = 5
sentinel_id invalid = 6
sentinel_id invalid_report = 7
sentinel_id store_not_found = 8
sentinel_id canceled = 9
sentinel_id deadline_exceeded = 10
sentinel_id server_closed = 11
sentinel_id iter_done = 12

-- `request` is a `*plclient.RequestError` with its HTTP status code, `plain` an error that wraps
-- nothing. `wrap t e` is `fmt.Errorf("t: %w", e)`, `detail s t` is `fmt.Errorf("%w: t", s)`, and
-- `combined` is what multierr makes of two errors. Numbers and quoted texts that the source formats
-- into a message are left out of it.
pub data Err : Type 0 where
  sentinel : Sentinel → Err
  request : ℕ → Err
  plain : String → Err
  wrap : String → Err → Err
  detail : Sentinel → String → Err
  combined : Err → Err → Err

-- `errors.Is(err, target)`.
abbrev pub is_error : Err → Sentinel → Bool
is_error (sentinel s) t = sentinel_id s == sentinel_id t
is_error (request code) t = false
is_error (plain text) t = false
is_error (wrap text e) t = is_error e t
is_error (detail s text) t = sentinel_id s == sentinel_id t
is_error (combined e f) t = is_error e t || is_error f t

abbrev first_of_two : Option ℕ → Option ℕ → Option ℕ
first_of_two none b = b
first_of_two (some a) b = some a

-- `errors.As(err, &clientReqErr)`: the status code of the first request error.
abbrev pub as_request : Err → Option ℕ
as_request (sentinel s) = none
as_request (request code) = some code
as_request (plain text) = none
as_request (wrap text e) = as_request e
as_request (detail s text) = none
as_request (combined e f) = first_of_two (as_request e) (as_request f)

-- `err.Error()`.
abbrev pub error_text : Err → String
error_text (sentinel s) = sentinel_text s
error_text (request code) = "request failed"
error_text (plain text) = text
error_text (wrap text e) = text <> ": " <> error_text e
error_text (detail s text) = sentinel_text s <> ": " <> text
error_text (combined e f) = error_text e <> "; " <> error_text f

-- `multierr.AppendInto(&err, e)` on an error that may be nil.
abbrev pub append_into : Option Err → Err → Option Err
append_into none e = some e
append_into (some f) e = some (combined f e)
