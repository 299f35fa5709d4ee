-- ===== src/Wifi/Runs.antt =====
-- The starts and the stops of WiFiClass (libraries/EpoxyMockWiFi/WiFi.cpp) over whole runs.
use epoxy_duino.Base.{
  ℕ, ◌≡◌, refl, sym, ap, ◌∙◌, Bool, true, false, if◌then◌else◌, List, [], ◌∷◌, ◌++◌, append_assoc,
  append-nil, Option, none, some,
}
use native.Mathlib.Omega.{arith}
use epoxy_duino.Wifi.State.{
  Wifi, EventInfo, PendingWiFiEvent, event_sta_start, event_sta_stop, event_ap_start, event_ap_stop,
}
use epoxy_duino.Wifi.Events.{
  HandlerCall, emit_event, callback_calls, plain_calls, info_calls, is_due, service_pending_events,
  service_async_scan, yield_service,
}
use epoxy_duino.Wifi.Calls.{call, Step, calls, serves, step, steps}
use epoxy_duino.Wifi.Replay.{
  replay, replay-append, events_of, events_of-append, seen, seen-append, Extends, Same-Extends,
}
use epoxy_duino.Wifi.Flags.{Handled, call-Op, service_async_scan-Op}
use epoxy_duino.Wifi.Queue.{with_pending}

-- `made` are the calls of the handlers on the way from `w` to `w'`: what the plain handler has seen
-- and what is still to be seen are the events that were pending and the new ones.
record Traced (w : Wifi) (made : List HandlerCall) (w' : Wifi) : Type 0 where
  pub added : List ℕ
  pub traced : seen made ++ events_of w'.pending_events ≡ events_of w.pending_events ++ added
  pub for_sta : replay event_sta_start event_sta_stop added w.sta_started ≡ some w'.sta_started
  pub for_ap : replay event_ap_start event_ap_stop added w.ap_started ≡ some w'.ap_started
  pub same_handler : w'.event_handler ≡ w.event_handler

Traced-trans :
    (w w₁ w₂ : Wifi) (made later : List HandlerCall)
    → Traced w made w₁
    → Traced w₁ later w₂
    → Traced w (made ++ later) w₂
Traced-trans w w₁ w₂ made later first second = record {
  added = first.added ++ second.added;
  traced =
      rw
        (
          seen-append made later,
          append_assoc (seen made) (seen later) (events_of w₂.pending_events),
          second.traced,
          ← append_assoc (seen made) (events_of w₁.pending_events) second.added,
          first.traced,
        )
        (append_assoc (events_of w.pending_events) first.added second.added);
  for_sta =
      rw
        (
          replay-append event_sta_start event_sta_stop first.added second.added w.sta_started,
          first.for_sta,
        )
        second.for_sta;
  for_ap =
      rw
        (
          replay-append event_ap_start event_ap_stop first.added second.added w.ap_started,
          first.for_ap,
        )
        second.for_ap;
  same_handler = second.same_handler ∙ first.same_handler;
}

Extends-Traced : (w w' : Wifi) → Extends w w' → Traced w [] w'
unfolding seen
Extends-Traced w w' e = record {
  added = events_of e.new;
  traced = rw e.queued (events_of-append w.pending_events e.new);
  for_sta = e.of_sta;
  for_ap = e.of_ap;
  same_handler = e.kept;
}

seen-callback_calls : (event : ℕ) (cbs : List (ℕ × Option ℕ)) → seen (callback_calls event cbs) ≡ []
unfolding seen callback_calls
seen-callback_calls event [] = refl
seen-callback_calls event ((wanted, none) ∷ cbs) = seen-callback_calls event cbs
seen-callback_calls event ((wanted, some f) ∷ cbs) = ground (arith, seen-callback_calls event cbs)

seen-info_calls :
    (event : ℕ) (info : EventInfo) (o : Option ℕ) → seen (info_calls event info o) ≡ []
unfolding seen
seen-info_calls event info none = refl
seen-info_calls event info (some f) = refl

seen-emit_event :
    (f event : ℕ) (info : EventInfo) (w : Wifi)
    → Handled f 0 w
    → seen (emit_event event info w) ≡ event ∷ []
unfolding emit_event seen
seen-emit_event f event info w h =
    rw
      (
        ap (plain_calls event) h,
        seen-append (info_calls event info w.event_handler_info)
            (callback_calls event w.event_callbacks),
        seen-info_calls event info w.event_handler_info,
        seen-callback_calls event w.event_callbacks,
      )
      refl

Traced-same : (w : Wifi) → Traced w [] w
Traced-same w = Extends-Traced w w (Same-Extends w w (refl, refl, refl, refl))

either :
    (w : Wifi) (b : Bool) (r r' : List HandlerCall × Wifi)
    → Traced w r.0 r.1
    → Traced w r'.0 r'.1
    → Traced w (if b then r else r').0 (if b then r else r').1
either w true r r' first second = first
either w false r r' first second = second

serve_queue :
    (f now : ℕ) (es : List PendingWiFiEvent) (w : Wifi)
    → Handled f now w
    → Traced
        (with_pending es w)
        (service_pending_events now (with_pending es w)).0
        (service_pending_events now (with_pending es w)).1
unfolding service_pending_events replay events_of
serve_queue f now [] w h = Traced-same (with_pending [] w)
serve_queue f now (p ∷ es) w h =
    either (with_pending (p ∷ es) w) (is_due now p.due_at) _ _ delivered
      (Traced-same (with_pending (p ∷ es) w))
  where
    delivered :
        Traced
          (with_pending (p ∷ es) w)
          (emit_event p.event p.info (with_pending (p ∷ es) w))
          (with_pending es w)
    delivered = record {
      added = [];
      traced =
          rw (seen-emit_event f p.event p.info (with_pending (p ∷ es) w) h)
            (sym (append-nil (p.event ∷ events_of es)));
      for_sta = refl;
      for_ap = refl;
      same_handler = refl;
    }

step-Traced :
    (f now : ℕ) (s : Step) (w : Wifi) → Handled f now w → Traced w (step now s w).0 (step now s w).1
unfolding step yield_service
step-Traced f now (calls c) w h = Extends-Traced w (call now c w) (call-Op f now c w h)
step-Traced f now serves w h =
    let polled = service_async_scan-Op f now w h in
    let w' = service_async_scan now w in
    Traced-trans w w' (service_pending_events now w').1 [] (service_pending_events now w').0
      (Extends-Traced w w' polled) (serve_queue f now w'.pending_events w' (polled.kept ∙ h))

steps-Traced :
    (f : ℕ) (ss : List (ℕ × Step)) (w : Wifi)
    → w.event_handler ≡ some f
    → Traced w (steps ss w).0 (steps ss w).1
unfolding steps
steps-Traced f [] w h = Traced-same w
steps-Traced f ((now, s) ∷ ss) w h =
    let first = step-Traced f now s w h in
    let w' = (step now s w).1 in
    Traced-trans w w' (steps ss w').1 (step now s w).0 (steps ss w').0 first
      (steps-Traced f ss w' (first.same_handler ∙ h))

-- What the plain handler has seen and is to see yet are the starts and stops of what its flag says.
abbrev pub Announced : ℕ → ℕ → List ℕ → Bool → Type 0
Announced start stop events on = replay start stop events false ≡ some on

-- Over any calls but the registering of handlers, and any passes of the service, in any order, of an
-- object with a plain handler and no event pending, whose station and access point are stopped: the
-- events that the handler has been called with, followed by those that are pending, start the station
-- only when it is stopped and stop it only when it runs, and _staStarted is what they come to; and the
-- same holds of the access point and _apStarted.
pub steps-Announced :
    (f : ℕ) (ss : List (ℕ × Step)) (w : Wifi)
    → w.event_handler ≡ some f
    → w.pending_events ≡ []
    → w.sta_started ≡ false
    → w.ap_started ≡ false
    → let events = seen (steps ss w).0 ++ events_of (steps ss w).1.pending_events in
      Announced event_sta_start event_sta_stop events (steps ss w).1.sta_started
      × Announced event_ap_start event_ap_stop events (steps ss w).1.ap_started
unfolding events_of
steps-Announced f ss w h empty no_sta no_ap =
    let t = steps-Traced f ss w h in
    let all = t.traced ∙ ap (λ es. events_of es ++ t.added) empty in
    (
      ap (λ es. replay event_sta_start event_sta_stop es false) all
          ∙ ap (replay event_sta_start event_sta_stop t.added) (sym no_sta)
          ∙ t.for_sta,
      ap (λ es. replay event_ap_start event_ap_stop es false) all
          ∙ ap (replay event_ap_start event_ap_stop t.added) (sym no_ap)
          ∙ t.for_ap,
    )
