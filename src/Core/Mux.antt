-- ===== src/Core/Mux.antt =====
-- The routes of internal/core/program.go, and what a notification by HTTP comes to. Which route
-- serves a request is decided by github.com/go-chi/chi.
use paperminer.Base.{
  ℕ, String, ◌<◌, ◌≡◌, refl, ◌⊎◌, Bool, true, false, ℤ, Option, none, some, List, [], ◌∷◌, All,
}
use paperminer.Poller.{Options}
use paperminer.Poller.Channel.{Looping, notify_post_consume, Run}
use paperminer.Poller.Notified.{HasReturned, CanGoOn, notified_polls}

-- A handler answers with the status code.
pub record Route (W : Type 0) : Type 0 where
  pub method : String
  pub pattern : String
  pub handler : W → ℕ × W

-- A workflow that receives notifications, as the poller runs it.
pub record Receiver (W : Type 0) : Type 0 where
  pub call : W → W
  pub next : W → ℤ
  pub options : Options W
  pub loop : Looping W

notified : (pending : Bool) → notify_post_consume pending ≡ true
unfolding notify_post_consume
notified true = refl
notified false = refl

module _ {W : Type 0} where
  unfoldable pub receive : Receiver W → Receiver W
  receive r = record r { loop = record r.loop { pending = notify_post_consume r.loop.pending } }

  -- A workflow that is no `NotificationReceiver` is `none`.
  unfoldable pub notify_all : List (Option (Receiver W)) → List (Option (Receiver W))
  unfolding receive
  notify_all [] = []
  notify_all (none ∷ wfs) = none ∷ notify_all wfs
  notify_all (some r ∷ wfs) = some (receive r) ∷ notify_all wfs

  unfoldable pub post_consume : List (Option (Receiver W)) → ℕ × List (Option (Receiver W))
  post_consume wfs = (204, notify_all wfs)

  -- `setupMux`, with the handler of promhttp.
  unfoldable pub setup_mux :
      (List (Option (Receiver W)) → ℕ × List (Option (Receiver W)))
      → List (Route (List (Option (Receiver W))))
  setup_mux metrics =
      record { method = "GET"; pattern = "/metrics"; handler = metrics }
      ∷ record { method = "POST"; pattern = "/notify/post-consume"; handler = post_consume }
      ∷ []

  -- The loop will heed a message: see Poller.Notified.
  abbrev pub WillPoll : Option (Receiver W) → Type 0
  WillPoll none = Unit
  WillPoll (some r) =
      (k : ℕ) (t : Looping W)
      → Run r.call r.next r.options r.loop k t
      → (r.loop.begun < t.begun) ⊎ (HasReturned t ⊎ ((k < 2) × CanGoOn r.call r.next r.options t))

  notify_all-WillPoll : (wfs : List (Option (Receiver W))) → All WillPoll (notify_all wfs)
  unfolding notify_all receive
  notify_all-WillPoll [] = tt
  notify_all-WillPoll (none ∷ wfs) = (tt, notify_all-WillPoll wfs)
  notify_all-WillPoll (some r ∷ wfs) = (
    λ k t run. notified_polls r.call r.next r.options k _ t (notified r.loop.pending) run,
    notify_all-WillPoll wfs,
  )

  -- A POST to the notification route is answered with no content, and each workflow that receives
  -- notifications then polls again or returns within two steps of its own loop, whatever else
  -- happens, and can make these steps without its timer.
  pub post_consume_polls :
      (wfs : List (Option (Receiver W)))
      → let (status, wfs') = post_consume wfs in (status ≡ 204) × All WillPoll wfs'
  unfolding post_consume
  post_consume_polls wfs = (refl, notify_all-WillPoll wfs)
