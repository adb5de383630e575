-- ===== src/Httpsrv/Shutdown.antt =====
-- The states that `ListenAndServe` of internal/httpsrv/server.go gets into, and how it ends.
use paperminer.Base.{
  ℕ, ◌+◌, ◌<◌, ◌≡◌, ◌≢◌, refl, arith, Bool, true, false, Option, none, some, inl, inr, ◌⊎◌,
}
use paperminer.Errors.{Err, sentinel, server_closed}
use paperminer.Httpsrv.{
  ListenAndServeOptions, Main, entering, announcing, serving, awaiting, returned, Helper, unborn,
  waiting, stopping, finished, Http, initial, Label, announces, label_of, after_listen, after_serve,
  HttpStep, listen_fails, listens, announce, shuts_down, helper_ends, serve_ends, finishes,
}

abbrev pub HelperAt : Helper → Bool → Bool → Type 0
HelperAt unborn shut done = shut ≡ false
HelperAt waiting shut done = shut ≡ false
HelperAt stopping shut done = (shut ≡ true) × (done ≡ true)
HelperAt finished shut done = (shut ≡ true) × (done ≡ true)

abbrev pub MainAt : Main → Helper → Bool → Type 0
MainAt entering helper done = helper ≡ unborn
MainAt announcing helper done = helper ≢ unborn
MainAt serving helper done = helper ≢ unborn
MainAt awaiting helper done = (helper ≢ unborn) × (done ≡ true)
MainAt (returned none) helper done = (helper ≡ finished) × (done ≡ true)
MainAt (returned (some e)) helper done = Unit

-- The goroutine has called `Shutdown` only if the context is done, and the call has returned nil
-- only after that.
abbrev pub IsHttp : Bool → Http → Type 0
IsHttp done h = HelperAt h.helper h.shut done × MainAt h.main h.helper done

pub initial-IsHttp : (done : Bool) → IsHttp done initial
unfolding initial
initial-IsHttp done = (refl, refl)

pub canceled_later : (h : Http) (done : Bool) → IsHttp done h → IsHttp true h
canceled_later h done i = ground arith

-- A step of `ListenAndServe` keeps that.
pub HttpStep-IsHttp :
    {opts : ListenAndServeOptions} {done : Bool} {h h' : Http} {l : Label}
    → HttpStep opts done h l h'
    → IsHttp done h
    → IsHttp done h'
unfolding after_listen after_serve
HttpStep-IsHttp (listen_fails e at) i = ground arith
HttpStep-IsHttp (listens at) i = ground arith
HttpStep-IsHttp (announce at) i = ground arith
HttpStep-IsHttp (shuts_down at d) i = ground arith
HttpStep-IsHttp (helper_ends at) i = ground arith
HttpStep-IsHttp (serve_ends e at shut) i = ground arith
HttpStep-IsHttp (finishes at ends) i = ground arith

-- What is left to do.
abbrev main_left : Main → ℕ
main_left entering = 4
main_left announcing = 3
main_left serving = 2
main_left awaiting = 1
main_left (returned r) = 0

abbrev helper_left : Helper → ℕ
helper_left unborn = 3
helper_left waiting = 2
helper_left stopping = 1
helper_left finished = 0

abbrev pub http_left : Http → ℕ
http_left h = main_left h.main + helper_left h.helper

pub HttpStep-http_left :
    {opts : ListenAndServeOptions} {done : Bool} {h h' : Http} {l : Label}
    → HttpStep opts done h l h'
    → IsHttp done h
    → http_left h' < http_left h
unfolding after_listen after_serve
HttpStep-http_left (listen_fails e at) i = ground arith
HttpStep-http_left (listens at) i = ground arith
HttpStep-http_left (announce at) i = ground arith
HttpStep-http_left (shuts_down at d) i = ground arith
HttpStep-http_left (helper_ends at) i = ground arith
HttpStep-http_left (serve_ends e at shut) i = ground arith
HttpStep-http_left (finishes at ends) i = ground arith

-- The call can go on by itself, or has returned, or waits for a receiver.
abbrev CanMove : ListenAndServeOptions → Http → Type 0
CanMove opts h = (l : Label) × (h' : Http) × HttpStep opts true h l h' × (l ≢ announces)

abbrev pub HasReturned : Http → Type 0
HasReturned h = (r : Option Err) × (h.main ≡ returned r)

label_of-announces : (m : Main) → label_of m ≢ announces
unfolding label_of
label_of-announces entering = λ e. cc
label_of-announces announcing = λ e. cc
label_of-announces serving = λ e. cc
label_of-announces awaiting = λ e. cc
label_of-announces (returned r) = λ e. cc

-- Once the context is done, the call never waits for anything but a receiver on `ReadyCh`.
pub canceled_progress :
    (opts : ListenAndServeOptions) (m : Main) (t : Helper) (shut : Bool)
    → let h : Http = record { main = m; helper = t; shut = shut } in
      IsHttp true h → CanMove opts h ⊎ (HasReturned h ⊎ (m ≡ announcing))
canceled_progress opts entering t shut i = inl (_, _, listens refl, λ e. cc)
canceled_progress opts announcing t shut i = inr (inr refl)
canceled_progress opts (returned r) t shut i = inr (inl (r, refl))
canceled_progress opts serving unborn shut i = absurd (i.1 refl)
canceled_progress opts serving waiting shut i = inl (_, _, shuts_down refl refl, λ e. cc)
canceled_progress opts serving stopping shut i = inl (_, _, helper_ends refl, λ e. cc)
canceled_progress opts serving finished shut i =
    inl (_, _, serve_ends (sentinel server_closed) refl (λ e. i.0.0), label_of-announces _)
canceled_progress opts awaiting unborn shut i = absurd (i.1.0 refl)
canceled_progress opts awaiting waiting shut i = inl (_, _, shuts_down refl refl, λ e. cc)
canceled_progress opts awaiting stopping shut i = inl (_, _, helper_ends refl, λ e. cc)
canceled_progress opts awaiting finished shut i = inl (_, _, finishes refl refl, λ e. cc)
