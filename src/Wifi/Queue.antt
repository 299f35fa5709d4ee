-- ===== src/Wifi/Queue.antt =====
-- What the handlers see of the queue of WiFiClass (libraries/EpoxyMockWiFi/WiFi.cpp).
use epoxy_duino.Base.{
  ℕ, suc, ◌+◌, ◌%◌, ◌^◌, ◌≤◌, ◌<◌, ◌≡◌, refl, Bool, true, false, if◌then◌else◌, List, [], ◌∷◌, ◌++◌,
  length, take, drop, Bool-cases, inl, inr,
}
use native.Mathlib.Omega.{arith}
use epoxy_duino.Wifi.State.{Wifi, PendingWiFiEvent}
use epoxy_duino.Wifi.Events.{
  HandlerCall, emit_event, is_due, service_pending_events, service_async_scan, yield_service,
}

-- The service at a sequence of instants, with the calls that it makes.
unfoldable pub services : List ℕ → Wifi → List HandlerCall × Wifi
unfolding yield_service
services [] w = ([], w)
services (now ∷ times) w =
    let (calls, w') = yield_service now w in
    let (later, w'') = services times w' in (calls ++ later, w'')

-- What the handlers of `w` are called with for a sequence of events.
unfoldable pub announced : Wifi → List PendingWiFiEvent → List HandlerCall
unfolding emit_event
announced w [] = []
announced w (e ∷ es) = emit_event e.event e.info w ++ announced w es

unfoldable pub all_due : ℕ → List PendingWiFiEvent → Bool
all_due now [] = true
all_due now (e ∷ es) = if is_due now e.due_at then all_due now es else false

-- The events are due at each of the instants.
unfoldable pub AllDue : List ℕ → List PendingWiFiEvent → Type 0
AllDue [] es = Unit
AllDue (now ∷ times) es = (all_due now es ≡ true) × AllDue times es

abbrev pub with_pending : List PendingWiFiEvent → Wifi → Wifi
with_pending events w = record w { pending_events = events }

-- An event that is queued with a delay is due once the clock, below 2^32, has gone as far.
pub is_due-later :
    (now delay t : ℕ) → now + delay ≤ t → t < 2 ^ 32 → is_due t ((now + delay) % 2 ^ 32) ≡ true
is_due-later now delay t h fits = ground arith

-- and not before.
pub is_due-early :
    (now delay t : ℕ)
    → t < now + delay
    → now + delay < 2 ^ 32
    → is_due t ((now + delay) % 2 ^ 32) ≡ false
is_due-early now delay t h fits = ground arith

AllDue-tail :
    (times : List ℕ) (e : PendingWiFiEvent) (es : List PendingWiFiEvent)
    → AllDue times (e ∷ es)
    → AllDue times es
unfolding AllDue all_due
AllDue-tail [] e es h = tt
AllDue-tail (now ∷ times) e es (h, hs) = (ground (arith, h), AllDue-tail times e es hs)

-- Without a scan the service only looks at the queue.
yield_service-idle :
    (now : ℕ) (w : Wifi)
    → w.scan_in_progress ≡ false
    → yield_service now w ≡ service_pending_events now w
unfolding yield_service service_async_scan
yield_service-idle now w h = rw h refl

service_empty :
    (now : ℕ) (w : Wifi)
    → w.scan_in_progress ≡ false
    → yield_service now (with_pending [] w) ≡ ([], with_pending [] w)
unfolding service_pending_events
service_empty now w h = rw (yield_service-idle now (with_pending [] w) h) refl

service_due :
    (now : ℕ) (e : PendingWiFiEvent) (es : List PendingWiFiEvent) (w : Wifi)
    → w.scan_in_progress ≡ false
    → is_due now e.due_at ≡ true
    → yield_service now (with_pending (e ∷ es) w) ≡ (emit_event e.event e.info w, with_pending es w)
unfolding service_pending_events emit_event
service_due now e es w h due = rw (yield_service-idle now (with_pending (e ∷ es) w) h, due) refl

service_waits :
    (now : ℕ) (e : PendingWiFiEvent) (es : List PendingWiFiEvent) (w : Wifi)
    → w.scan_in_progress ≡ false
    → is_due now e.due_at ≡ false
    → yield_service now (with_pending (e ∷ es) w) ≡ ([], with_pending (e ∷ es) w)
unfolding service_pending_events
service_waits now e es w h early =
    rw (yield_service-idle now (with_pending (e ∷ es) w) h, early) refl

deliver_all :
    (times : List ℕ) (es : List PendingWiFiEvent) (w : Wifi)
    → w.scan_in_progress ≡ false
    → AllDue times es
    → length es ≤ length times
    → services times (with_pending es w) ≡ (announced w es, with_pending [] w)
unfolding services announced AllDue all_due
deliver_all [] [] w h due enough = refl
deliver_all [] (e ∷ es) w h due enough = absurd (omega arith)
deliver_all (now ∷ times) [] w h (d, due) enough =
    rw (service_empty now w h, deliver_all times [] w h due (omega arith)) refl
deliver_all (now ∷ times) (e ∷ es) w h (d, due) enough =
    rw
      (
        service_due now e es w h (ground (arith, d)),
        deliver_all times es w h (AllDue-tail times e es due) (omega arith),
      )
      refl

-- While no scan runs, and when the pending events are due at each of the instants and there are as
-- many instants as events, the service at those instants calls the handlers for every pending
-- event, in the order in which they were queued, and leaves the queue empty.
pub services-delivers :
    (times : List ℕ) (w : Wifi)
    → w.scan_in_progress ≡ false
    → AllDue times w.pending_events
    → length w.pending_events ≤ length times
    → services times w ≡ (announced w w.pending_events, record w { pending_events = [] })
services-delivers times w h due enough = deliver_all times w.pending_events w h due enough

deliver_some :
    (times : List ℕ) (es : List PendingWiFiEvent) (w : Wifi)
    → w.scan_in_progress ≡ false
    → (k : ℕ) × (services times (with_pending es w)
        ≡ (announced w (take k es), with_pending (drop k es) w))
unfolding services announced
deliver_some [] es w h = (0, refl)
deliver_some (now ∷ times) [] w h =
    let (k, rest) = deliver_some times [] w h in (k, rw (service_empty now w h, rest) refl)
deliver_some (now ∷ times) (e ∷ es) w h = elim (Bool-cases (is_due now e.due_at)) [
  | inl due ↦
      let (k, rest) = deliver_some times es w h in
      (suc k, rw (service_due now e es w h due, rest) refl)
  | inr early ↦
      let (k, rest) = deliver_some times (e ∷ es) w h in
      (k, rw (service_waits now e es w h early, rest) refl)
]

-- While no scan runs, the service at any instants calls the handlers for the first of the pending
-- events, in the order in which they were queued, and leaves the others: none is lost, repeated or
-- overtaken.
services-prefix :
    (times : List ℕ) (w : Wifi)
    → w.scan_in_progress ≡ false
    → (k : ℕ) × (services times w ≡ (
      announced w (take k w.pending_events),
      record w { pending_events = drop k w.pending_events },
    ))
services-prefix times w h = deliver_some times w.pending_events w h
