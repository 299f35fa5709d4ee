-- ===== src/Wifi/Events.antt =====
-- The events of WiFiClass (libraries/EpoxyMockWiFi/WiFi.cpp): their queue, their handlers, and the
-- service that pump() runs. What a handler does comes after the call that is answered here.
use epoxy_duino.Base.{
  ℕ, ◌+◌, ◌-◌, ◌%◌, ◌^◌, Bool, true, false, ◌||◌, not, if◌then◌else◌, ltb, ◌==◌, List, [], ◌∷◌,
  ◌++◌, Option, none, some,
}
use epoxy_duino.Wifi.State.{Wifi, EventInfo, scan_done, event_scan_done, event_max}

-- A call of the handler, of the handler with the info, or of a callback.
pub data HandlerCall : Type 0 where
  plain : ℕ → ℕ → HandlerCall
  with_info : ℕ → ℕ → EventInfo → HandlerCall
  callback : ℕ → ℕ → HandlerCall

unfoldable pub callback_calls : ℕ → List (ℕ × Option ℕ) → List HandlerCall
callback_calls event [] = []
callback_calls event ((wanted, none) ∷ cbs) = callback_calls event cbs
callback_calls event ((wanted, some f) ∷ cbs) =
    let rest = callback_calls event cbs in
    if wanted == event_max || wanted == event then callback f event ∷ rest else rest

abbrev pub plain_calls : ℕ → Option ℕ → List HandlerCall
plain_calls event none = []
plain_calls event (some f) = plain f event ∷ []

abbrev pub info_calls : ℕ → EventInfo → Option ℕ → List HandlerCall
info_calls event info none = []
info_calls event info (some f) = with_info f event info ∷ []

unfoldable pub emit_event : ℕ → EventInfo → Wifi → List HandlerCall
unfolding callback_calls
emit_event event info w =
    plain_calls event w.event_handler
    ++ (info_calls event info w.event_handler_info ++ callback_calls event w.event_callbacks)

abbrev pub is_set {ℓ} : {A : Type ℓ} → Option A → Bool
is_set none = false
is_set (some a) = true

abbrev pub has_any {ℓ} : {A : Type ℓ} → List A → Bool
has_any [] = false
has_any (a ∷ l) = true

abbrev pub has_handler : Wifi → Bool
has_handler w = is_set w.event_handler || is_set w.event_handler_info || has_any w.event_callbacks

-- An event for which nobody has registered is dropped. `due_at` is a uint32_t.
unfoldable pub queue_event : ℕ → ℕ → EventInfo → ℕ → Wifi → Wifi
queue_event now event info delay_ms w =
    if has_handler w
    then record w {
      pending_events =
          w.pending_events
          ++ record { event = event; info = info; due_at = (now + delay_ms) % 2 ^ 32 } ∷ [];
    }
    else w

-- !((long)(millis() - at) < 0), where millis() and long have 64 bits
abbrev pub is_due : ℕ → ℕ → Bool
is_due now at = ltb ((now + 2 ^ 64 - at) % 2 ^ 64) (2 ^ 63)

unfoldable pub service_pending_events : ℕ → Wifi → List HandlerCall × Wifi
unfolding emit_event
service_pending_events now w = elim w.pending_events [
  | [] ↦ ([], w)
  | pending ∷ later ↦
      if is_due now pending.due_at
      then (emit_event pending.event pending.info w, record w { pending_events = later })
      else ([], w)
]

-- static_cast<uint32_t> of an int8_t
abbrev pub extend_int8 : ℕ → ℕ
extend_int8 n = if ltb n 128 then n else 2 ^ 32 - 256 + n

unfoldable pub service_async_scan : ℕ → Wifi → Wifi
unfolding queue_event
service_async_scan now w =
    if not w.scan_in_progress
    then w
    else if not (is_due now w.scan_ready_at)
    then w
    else queue_event now event_scan_done (scan_done (extend_int8 w.scan_result_count)) 0
        (record w { scan_in_progress = false; scan_has_result = true })

-- _yieldServiceCallback()
unfoldable pub yield_service : ℕ → Wifi → List HandlerCall × Wifi
unfolding service_async_scan service_pending_events
yield_service now w = service_pending_events now (service_async_scan now w)

unfoldable pub on_event : Option ℕ → Wifi → Wifi
on_event handler w = record w { event_handler = handler }

unfoldable pub on_event_callback : Option ℕ → ℕ → Wifi → Wifi
on_event_callback f event w = record w { event_callbacks = w.event_callbacks ++ (event, f) ∷ [] }

unfoldable pub on_event_info : Option ℕ → Wifi → Wifi
on_event_info handler w = record w { event_handler_info = handler }
