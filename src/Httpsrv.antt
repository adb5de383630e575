-- ===== src/Httpsrv.antt =====
-- internal/httpsrv/server.go: `ListenAndServe` and the goroutine it starts, as a step relation. The
-- steps of net and net/http are the environment's: whether listening succeeds, and with which error
-- `Serve` ends.
pub mod Shutdown
use paperminer.Base.{
  ℕ, String, Bool, true, false, ◌&&◌, ◌≡◌, Option, none, some, str_eq, if◌then◌else◌, ◌==◌, ◌*◌,
  ◌^◌,
}
use paperminer.Errors.{Err, server_closed, is_error}

-- `ready_ch` says whether `ReadyCh` is set; the handler and the logger are left out.
pub record ListenAndServeOptions : Type 0 where
  pub network : String
  pub address : String
  pub ready_ch : Bool
  pub shutdown_timeout : ℕ

unfoldable pub with_defaults : ListenAndServeOptions → ListenAndServeOptions
with_defaults opts = record opts {
  network = if str_eq opts.network "" then "tcp" else opts.network;
  shutdown_timeout = if opts.shutdown_timeout == 0 then 10 * 10 ^ 9 else opts.shutdown_timeout;
}

-- Where `ListenAndServe` is: before `net.Listen`, at the send on `ReadyCh`, in `Serve`, at the
-- receive from `shutdownDone`, or returned with an error or nil.
pub data Main : Type 0 where
  entering announcing serving awaiting : Main
  returned : Option Err → Main

-- Where its goroutine is: not started yet, at the receive from `ctx.Done()`, in `Shutdown`, or done,
-- with `shutdownDone` closed.
pub data Helper : Type 0 where
  unborn waiting stopping finished : Helper

-- `shut` says whether `Shutdown` was called, after which `Serve` returns `http.ErrServerClosed`.
pub record Http : Type 0 where
  pub main : Main
  pub helper : Helper
  pub shut : Bool

unfoldable pub initial : Http
initial = record { main = entering; helper = unborn; shut = false }

-- What a step shows to the caller: nothing, a value on `ReadyCh`, or the end of the call.
pub data Label : Type 0 where
  silent announces : Label
  returns : Option Err → Label

unfoldable pub label_of : Main → Label
label_of entering = silent
label_of announcing = silent
label_of serving = silent
label_of awaiting = silent
label_of (returned r) = returns r

unfoldable pub after_listen : ListenAndServeOptions → Main
unfolding with_defaults
after_listen opts = if (with_defaults opts).ready_ch then announcing else serving

-- The error of `Serve`, which is never nil, with `ctx.Err() != nil` at that time.
unfoldable pub after_serve : Bool → Err → Main
after_serve done e = if is_error e server_closed && done then awaiting else returned (some e)

-- One step, with a context that is `done` or not. `Serve` returns `http.ErrServerClosed` only after
-- `Shutdown` was called, and a call of `Shutdown` ends, at its timeout if not before.
pub data HttpStep (opts : ListenAndServeOptions) (done : Bool) (h : Http)
    : Label → Http → Type 0 where
  listen_fails :
      (e : Err)
      → h.main ≡ entering
      → HttpStep opts done h (returns (some e)) (record h { main = returned (some e) })
  listens :
      h.main ≡ entering
      → HttpStep opts done h silent (record h { main = after_listen opts; helper = waiting })
  announce : h.main ≡ announcing → HttpStep opts done h announces (record h { main = serving })
  shuts_down :
      h.helper ≡ waiting
      → done ≡ true
      → HttpStep opts done h silent (record h { helper = stopping; shut = true })
  helper_ends : h.helper ≡ stopping → HttpStep opts done h silent (record h { helper = finished })
  serve_ends :
      (e : Err)
      → h.main ≡ serving
      → (is_error e server_closed ≡ true → h.shut ≡ true)
      → HttpStep opts done h
          (label_of (after_serve done e))
          (record h { main = after_serve done e })
  finishes :
      h.main ≡ awaiting
      → h.helper ≡ finished
      → HttpStep opts done h (returns none) (record h { main = returned none })
