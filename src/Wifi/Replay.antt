-- ===== src/Wifi/Replay.antt =====
-- The starts and the stops among the events of WiFiClass (libraries/EpoxyMockWiFi/WiFi.cpp), replayed
-- against the flags _staStarted and _apStarted.
use epoxy_duino.Base.{
  ℕ, ◌≡◌, refl, sym, ap, ◌∙◌, Bool, true, false, if◌then◌else◌, ◌==◌, List, [], ◌∷◌, ◌++◌,
  append_assoc, append-nil, Option, none, some,
}
use native.Mathlib.Omega.{arith}
use epoxy_duino.Wifi.State.{
  Wifi, PendingWiFiEvent, event_sta_start, event_sta_stop, event_ap_start, event_ap_stop,
}
use epoxy_duino.Wifi.Events.{HandlerCall, plain, with_info, callback}

-- Whether something runs after the events, which must start it only when it is stopped and stop it
-- only when it runs; `none` where one of them does otherwise.
unfoldable pub replay : ℕ → ℕ → List ℕ → Bool → Option Bool
replay start stop [] on = some on
replay start stop (e ∷ es) on =
    let started = replay start stop es true in
    let stopped = replay start stop es false in
    let same = replay start stop es on in
    if e == start
    then if on then none else started
    else if e == stop
    then if on then stopped else none
    else same

abbrev pub then_replay : ℕ → ℕ → List ℕ → Option Bool → Option Bool
then_replay start stop es none = none
then_replay start stop es (some on) = replay start stop es on

pub replay-append :
    (start stop : ℕ) (xs ys : List ℕ) (on : Bool)
    → replay start stop (xs ++ ys) on ≡ then_replay start stop ys (replay start stop xs on)
unfolding replay
replay-append start stop [] ys on = refl
replay-append start stop (e ∷ es) ys true =
    ground (arith, replay-append start stop es ys true, replay-append start stop es ys false)
replay-append start stop (e ∷ es) ys false =
    ground (arith, replay-append start stop es ys true, replay-append start stop es ys false)

unfoldable pub events_of : List PendingWiFiEvent → List ℕ
events_of [] = []
events_of (e ∷ es) = e.event ∷ events_of es

pub events_of-append :
    (xs ys : List PendingWiFiEvent) → events_of (xs ++ ys) ≡ events_of xs ++ events_of ys
unfolding events_of
events_of-append [] ys = refl
events_of-append (x ∷ xs) ys = ap (◌∷◌ x.event) (events_of-append xs ys)

-- The calls of the plain handler.
unfoldable pub seen : List HandlerCall → List ℕ
seen [] = []
seen (plain f event ∷ made) = event ∷ seen made
seen (with_info f event info ∷ made) = seen made
seen (callback f event ∷ made) = seen made

pub seen-append : (xs ys : List HandlerCall) → seen (xs ++ ys) ≡ seen xs ++ seen ys
unfolding seen
seen-append [] ys = refl
seen-append (plain f event ∷ made) ys = ap (◌∷◌ event) (seen-append made ys)
seen-append (with_info f event info ∷ made) ys = seen-append made ys
seen-append (callback f event ∷ made) ys = seen-append made ys

-- `w'` keeps the plain handler of `w`, and the events that it has queued behind those of `w` account
-- for the change of its flags.
pub record Extends (w w' : Wifi) : Type 0 where
  pub new : List PendingWiFiEvent
  pub queued : w'.pending_events ≡ w.pending_events ++ new
  pub of_sta :
      replay event_sta_start event_sta_stop (events_of new) w.sta_started ≡ some w'.sta_started
  pub of_ap : replay event_ap_start event_ap_stop (events_of new) w.ap_started ≡ some w'.ap_started
  pub kept : w'.event_handler ≡ w.event_handler

pub Extends-trans : (w w₁ w₂ : Wifi) → Extends w w₁ → Extends w₁ w₂ → Extends w w₂
Extends-trans w w₁ w₂ first second = record {
  new = first.new ++ second.new;
  queued = rw (second.queued, first.queued) (append_assoc w.pending_events first.new second.new);
  of_sta =
      rw
        (
          events_of-append first.new second.new,
          replay-append event_sta_start event_sta_stop (events_of first.new) (events_of second.new)
              w.sta_started,
          first.of_sta,
        )
        second.of_sta;
  of_ap =
      rw
        (
          events_of-append first.new second.new,
          replay-append event_ap_start event_ap_stop (events_of first.new) (events_of second.new)
              w.ap_started,
          first.of_ap,
        )
        second.of_ap;
  kept = second.kept ∙ first.kept;
}

-- Where the queue, the flags and the handler stay.
abbrev pub Same : Wifi → Wifi → Type 0
Same w w' =
    (w'.pending_events ≡ w.pending_events)
    × (w'.sta_started ≡ w.sta_started)
    × (w'.ap_started ≡ w.ap_started)
    × (w'.event_handler ≡ w.event_handler)

pub Same-Extends : (w w' : Wifi) → Same w w' → Extends w w'
unfolding replay events_of
Same-Extends w w' (queue, of_sta, of_ap, handler) = record {
  new = [];
  queued = queue ∙ sym (append-nil w.pending_events);
  of_sta = ap some (sym of_sta);
  of_ap = ap some (sym of_ap);
  kept = handler;
}
