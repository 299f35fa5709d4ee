-- ===== src/Wifi/Flags.antt =====
-- The starts and the stops that WiFiClass announces (libraries/EpoxyMockWiFi/WiFi.cpp).
use epoxy_duino.Base.{
  ℕ, ◌+◌, ◌%◌, ◌^◌, ◌≡◌, refl, sym, ap, ◌∙◌, Bool, true, false, if◌then◌else◌, not, ◌==◌, [], ◌∷◌,
  ◌++◌, Option, some, Bool-cases, Option-cases, inl, inr,
}
use mathlib.Core.Path.{subst}
use native.Mathlib.Omega.{arith}
use epoxy_duino.Base.Text.{Bytes, codes, same_text}
use epoxy_duino.Address.{IpAddress}
use epoxy_duino.Wifi.State.{
  Wifi, Mode, off, disconnected, sta, ap_sta, EventInfo, no_info, scan_done, event_scan_done,
  event_sta_start, event_sta_stop, event_sta_connected, event_sta_disconnected, event_sta_got_ip,
  event_ap_start, event_ap_stop, mock_reset, init_default_scan_results, ip, no_ip,
}
use epoxy_duino.Wifi.Events.{queue_event, is_set, extend_int8, is_due, service_async_scan}
use epoxy_duino.Wifi.Station.{
  begin, begin_channel, config, config_dns, disconnect, set_auto_reconnect, set_persistent,
  set_hostname, start_sta, stop_sta, attempt, report_attempt, given, is_auth_ssid, unless_static,
  is_connected, same_ip, connected_info, disconnected_info, got_ip_info,
}
use epoxy_duino.Wifi.Access.{
  soft_ap, soft_ap_config, soft_ap_disconnect, set_mode, set_mode_persistent, enable_sta, enable_ap,
  start_ap, stop_ap, with_ap, without_ap, is_off, has_sta, has_ap,
}
use epoxy_duino.Wifi.Scan.{
  entry_at, scan_networks, scan_complete, scan_delete, scanned_bssid, get_network_info,
  mock_set_scan_results, mock_add_scan_result,
}
use epoxy_duino.Wifi.Calls.{
  Call, begins, begins_on, configures, configures_dns, disconnects, sets_auto_reconnect,
  sets_persistent, sets_hostname, starts_ap, configures_ap, disconnects_ap, sets_mode,
  sets_mode_persistent, enables_sta, enables_ap, scans, completes_scan, deletes_scan, reads_bssid,
  reads_network, resets, sets_results, adds_result, call,
}
use epoxy_duino.Wifi.Replay.{replay, events_of, Extends, Extends-trans, Same, Same-Extends}

-- One call on an object with a plain handler.
module _ (f now : ℕ) where
  abbrev pub Handled : Wifi → Type 0
  Handled w = w.event_handler ≡ some f

  -- An operation that only extends what the handler `f` is to see.
  abbrev pub Op : (Wifi → Wifi) → Type 0
  Op op = (w : Wifi) → Handled w → Extends w (op w)

  then_Op : (op op' : Wifi → Wifi) → Op op → Op op' → Op (λ w. op' (op w))
  then_Op op op' first second w h =
      let e = first w h in Extends-trans w (op w) (op' (op w)) e (second (op w) (e.kept ∙ h))

  Same-Op : (op : Wifi → Wifi) → ((w : Wifi) → Same w (op w)) → Op op
  Same-Op op is_same w h = Same-Extends w (op w) (is_same w)

  split_Op :
      (b : Wifi → Bool) (op op' : Wifi → Wifi)
      → ((w : Wifi) → b w ≡ true → Handled w → Extends w (op w))
      → ((w : Wifi) → b w ≡ false → Handled w → Extends w (op' w))
      → Op (λ w. if b w then op w else op' w)
  split_Op b op op' yes_op no_op w h = elim (Bool-cases (b w)) [
    | inl e ↦ rw e (yes_op w e h)
    | inr e ↦ rw e (no_op w e h)
  ]

  if_Op :
      (b : Wifi → Bool) (op op' : Wifi → Wifi)
      → Op op
      → Op op'
      → Op (λ w. if b w then op w else op' w)
  if_Op b op op' yes_op no_op = split_Op b op op' (λ w e. yes_op w) (λ w e. no_op w)

  id_Op : Op (λ w. w)
  id_Op = Same-Op (λ w. w) (λ w. (refl, refl, refl, refl))

  -- An event behind a change of the flags.
  queue_event-Handled :
      (event delay : ℕ) (info : EventInfo) (w : Wifi)
      → Handled w
      → queue_event now event info delay w ≡ record w {
        pending_events =
            w.pending_events
            ++ record { event = event; info = info; due_at = (now + delay) % 2 ^ 32 } ∷ [];
      }
  unfolding queue_event
  queue_event-Handled event delay info w h = rw (ap is_set h) refl

  queue_event-Extends :
      (event delay : ℕ) (info : EventInfo) (w w' : Wifi)
      → Handled w
      → w'.pending_events ≡ w.pending_events
      → w'.event_handler ≡ w.event_handler
      → replay event_sta_start event_sta_stop (event ∷ []) w.sta_started ≡ some w'.sta_started
      → replay event_ap_start event_ap_stop (event ∷ []) w.ap_started ≡ some w'.ap_started
      → Extends w (queue_event now event info delay w')
  unfolding events_of
  queue_event-Extends event delay info w w' h queue handler by_sta by_ap =
      subst (Extends w) (sym (queue_event-Handled event delay info w' (handler ∙ h))) (record {
        new = record { event = event; info = info; due_at = (now + delay) % 2 ^ 32 } ∷ [];
        queued = rw queue refl;
        of_sta = by_sta;
        of_ap = by_ap;
        kept = handler;
      })

  neutral_Op :
      (event delay : ℕ) (info : Wifi → EventInfo)
      → ((on : Bool) → replay event_sta_start event_sta_stop (event ∷ []) on ≡ some on)
      → ((on : Bool) → replay event_ap_start event_ap_stop (event ∷ []) on ≡ some on)
      → Op (λ w. queue_event now event (info w) delay w)
  neutral_Op event delay info by_sta by_ap w h =
      queue_event-Extends event delay (info w) w w h refl refl (by_sta w.sta_started)
        (by_ap w.ap_started)

  start_sta-Op : Op (start_sta now)
  unfolding start_sta replay
  start_sta-Op =
      split_Op (λ w. w.sta_started) (λ w. w)
        (λ w. queue_event now event_sta_start no_info 0 (record w { sta_started = true }))
        (λ w e. id_Op w)
        (λ w e h.
          queue_event-Extends event_sta_start 0 no_info w (record w { sta_started = true }) h refl
            refl (ground (arith, e)) refl)

  stop_sta-Op : Op (stop_sta now)
  unfolding stop_sta replay
  stop_sta-Op =
      split_Op (λ w. w.sta_started)
        (λ w. queue_event now event_sta_stop no_info 0 (record w { sta_started = false })) (λ w. w)
        (λ w e h.
          queue_event-Extends event_sta_stop 0 no_info w (record w { sta_started = false }) h refl
            refl (ground (arith, e)) refl)
        (λ w e. id_Op w)

  start_ap-Op : Op (start_ap now)
  unfolding start_ap replay
  start_ap-Op =
      split_Op (λ w. w.ap_started) (λ w. w)
        (λ w. queue_event now event_ap_start no_info 0 (record w { ap_started = true }))
        (λ w e. id_Op w)
        (λ w e h.
          queue_event-Extends event_ap_start 0 no_info w (record w { ap_started = true }) h refl
            refl refl (ground (arith, e)))

  stop_ap-Op : Op (stop_ap now)
  unfolding stop_ap replay
  stop_ap-Op =
      split_Op (λ w. w.ap_started)
        (λ w. queue_event now event_ap_stop no_info 0 (record w { ap_started = false })) (λ w. w)
        (λ w e h.
          queue_event-Extends event_ap_stop 0 no_info w (record w { ap_started = false }) h refl
            refl refl (ground (arith, e)))
        (λ w e. id_Op w)

  -- What holds of both branches of a test.
  both : (P : Wifi → Type 0) (b : Bool) (w w' : Wifi) → P w → P w' → P (if b then w else w')
  both P true w w' first second = first
  both P false w w' first second = second

  both_states :
      (P : Wifi → Type 0) (b : Bool) (r r' : ℕ × Wifi) → P r.1 → P r'.1 → P (if b then r else r').1
  both_states P true r r' first second = first
  both_states P false r r' first second = second

  attempt-Same : (address : IpAddress) (w : Wifi) → Same w (attempt address w)
  unfolding attempt
  attempt-Same address w =
      let unchanged : Same w w = (refl, refl, refl, refl) in
      let is : Bytes → Bool = λ name. same_text w.ssid name in
      both (Same w) (is (codes "EPX_OK")) _ _ unchanged (
        both (Same w) (is (codes "EPX_BADPASS")) _ _ unchanged (
          both (Same w) (is (codes "EPX_TIMEOUT")) _ _ unchanged (
            both (Same w) (is (codes "EPX_NOIP")) _ _ unchanged (
              both (Same w) (is (codes "EPX_FLAPPY")) _ _
                (both (Same w) ((w.flappy_counter + 1) % 2 == 1) _ _ unchanged unchanged)
                (both (Same w) (is (codes "EPX_HIDDEN")) _ _ unchanged
                  (both (Same w) (is_auth_ssid w.ssid) _ _ unchanged unchanged))))))

  report_attempt-Op : Op (report_attempt now)
  unfolding report_attempt replay
  report_attempt-Op =
      if_Op is_connected
        (λ w.
          let w' = queue_event now event_sta_connected (connected_info w) 2 w in
          if same_ip w'.local_ip no_ip
          then w'
          else queue_event now event_sta_got_ip (got_ip_info w') 4 w')
        (λ w. queue_event now event_sta_disconnected (disconnected_info w) 2 w)
        (then_Op (λ w. queue_event now event_sta_connected (connected_info w) 2 w)
          (λ w.
            if same_ip w.local_ip no_ip
            then w
            else queue_event now event_sta_got_ip (got_ip_info w) 4 w)
          (neutral_Op event_sta_connected 2 connected_info (λ on. refl) (λ on. refl))
          (if_Op (λ w. same_ip w.local_ip no_ip) (λ w. w)
            (λ w. queue_event now event_sta_got_ip (got_ip_info w) 4 w) id_Op
            (neutral_Op event_sta_got_ip 4 got_ip_info (λ on. refl) (λ on. refl))))
        (neutral_Op event_sta_disconnected 2 disconnected_info (λ on. refl) (λ on. refl))

  begin-Op : (host : IpAddress) (name : Bytes) (pass : Option Bytes) → Op (begin now host name pass)
  unfolding begin
  begin-Op host name pass =
      let address = λ (w : Wifi). unless_static w w.local_ip host in
      let opened : Wifi → Wifi = λ w. record w {
        ssid = name;
        psk = given pass w.psk;
        mode = if w.ap_enabled then ap_sta else sta;
      } in
      then_Op opened
        (λ w. report_attempt now (attempt (address (start_sta now w)) (start_sta now w)))
        (Same-Op opened (λ w. (refl, refl, refl, refl)))
        (then_Op (start_sta now) (λ w. report_attempt now (attempt (address w) w)) start_sta-Op
          (then_Op (λ w. attempt (address w) w) (report_attempt now)
            (Same-Op (λ w. attempt (address w) w) (λ w. attempt-Same (address w) w))
            report_attempt-Op))

  disconnect-Op : (wifi_off : Bool) → Op (disconnect now wifi_off)
  unfolding disconnect replay
  disconnect-Op wifi_off =
      let announced : Wifi → Wifi = λ w.
        if w.sta_started
        then queue_event now event_sta_disconnected (disconnected_info w) 0 w
        else w in
      let ended : Wifi → Wifi = λ w. record w { status = disconnected } in
      let closed : Wifi → Wifi = λ w. record w { mode = off } in
      then_Op announced (λ w. if wifi_off then stop_sta now (closed (ended w)) else ended w)
        (if_Op (λ w. w.sta_started)
          (λ w. queue_event now event_sta_disconnected (disconnected_info w) 0 w) (λ w. w)
          (neutral_Op event_sta_disconnected 0 disconnected_info (λ on. refl) (λ on. refl)) id_Op)
        (if_Op (λ w. wifi_off) (λ w. stop_sta now (closed (ended w))) ended
          (then_Op (λ w. closed (ended w)) (stop_sta now)
            (Same-Op (λ w. closed (ended w)) (λ w. (refl, refl, refl, refl))) stop_sta-Op)
          (Same-Op ended (λ w. (refl, refl, refl, refl))))

  set_mode-Op : (m : Mode) → Op (set_mode now m)
  unfolding set_mode
  set_mode-Op m =
      let first : Wifi → Wifi =
        λ w. record w { mode = m; status = if is_off m then disconnected else w.status } in
      let only_if : (b : Bool) (op : Wifi → Wifi) → Op op → Op (λ w. if b then op w else w) =
        λ b op is_op. if_Op (λ w. b) op (λ w. w) is_op id_Op in
      let sta_off = λ (w : Wifi). if is_off m then stop_sta now w else w in
      let ap_off = λ (w : Wifi). if is_off m then stop_ap now w else w in
      let sta_on = λ (w : Wifi). if has_sta m then start_sta now w else w in
      let ap_on = λ (w : Wifi). if has_ap m then start_ap now w else w in
      then_Op (λ w. sta_on (ap_off (sta_off (first w)))) ap_on
        (then_Op (λ w. ap_off (sta_off (first w))) sta_on
          (then_Op (λ w. sta_off (first w)) ap_off
            (then_Op first sta_off (Same-Op first (λ w. (refl, refl, refl, refl)))
              (only_if (is_off m) (stop_sta now) stop_sta-Op))
            (only_if (is_off m) (stop_ap now) stop_ap-Op))
          (only_if (has_sta m) (start_sta now) start_sta-Op))
        (only_if (has_ap m) (start_ap now) start_ap-Op)

  soft_ap_disconnect-Op : (wifi_off : Bool) → Op (soft_ap_disconnect now wifi_off)
  unfolding soft_ap_disconnect
  soft_ap_disconnect-Op wifi_off =
      let cleared : Wifi → Wifi = λ w. record w {
        ap_enabled = false;
        ap_ssid = [];
        ap_psk = [];
        ap_channel = 1;
        ap_hidden = false;
        ap_max_conn = 4;
        ap_local_ip = ip 192 168 4 1;
        ap_gateway_ip = ip 192 168 4 1;
        ap_subnet_mask = ip 255 255 255 0;
      } in
      let switched : Wifi → Wifi = λ w. record w { mode = off; status = disconnected } in
      let lessened : Wifi → Wifi = λ w. record w { mode = without_ap w.mode } in
      then_Op (λ w. stop_ap now (cleared w))
        (λ w. if wifi_off then stop_sta now (switched w) else lessened w)
        (then_Op cleared (stop_ap now) (Same-Op cleared (λ w. (refl, refl, refl, refl))) stop_ap-Op)
        (if_Op (λ w. wifi_off) (λ w. stop_sta now (switched w)) lessened
          (then_Op switched (stop_sta now) (Same-Op switched (λ w. (refl, refl, refl, refl)))
            stop_sta-Op)
          (Same-Op lessened (λ w. (refl, refl, refl, refl))))

  scan_networks-Op :
      (async show_hidden : Bool) (max : ℕ) → Op (λ w. (scan_networks now async show_hidden max w).1)
  unfolding scan_networks
  scan_networks-Op async show_hidden max =
      Same-Op (λ w. (scan_networks now async show_hidden max w).1)
        (λ w.
          both_states (Same w) w.scan_in_progress _ _ (refl, refl, refl, refl)
            (both_states (Same w) async _ _ (refl, refl, refl, refl) (refl, refl, refl, refl)))

  pub service_async_scan-Op : Op (service_async_scan now)
  unfolding service_async_scan replay
  service_async_scan-Op =
      let ready : Wifi → Wifi = λ w.
        queue_event now event_scan_done (scan_done (extend_int8 w.scan_result_count)) 0
          (record w { scan_in_progress = false; scan_has_result = true }) in
      let finished : Wifi → Wifi =
        λ w. record w { scan_in_progress = false; scan_has_result = true } in
      if_Op (λ w. not w.scan_in_progress) (λ w. w)
        (λ w. if not (is_due now w.scan_ready_at) then w else ready w) id_Op
        (if_Op (λ w. not (is_due now w.scan_ready_at)) (λ w. w) ready id_Op
          (then_Op finished
            (λ w. queue_event now event_scan_done (scan_done (extend_int8 w.scan_result_count)) 0 w)
            (Same-Op finished (λ w. (refl, refl, refl, refl)))
            (neutral_Op event_scan_done 0 (λ w. scan_done (extend_int8 w.scan_result_count))
              (λ on. refl) (λ on. refl))))

  scan_complete-Op : Op (λ w. (scan_complete now w).1)
  unfolding scan_complete
  scan_complete-Op w h =
      let polled = service_async_scan-Op w h in
      both_states (Extends w) (service_async_scan now w).scan_in_progress _ _ polled
        (both_states (Extends w) (service_async_scan now w).scan_has_result _ _ polled polled)

  soft_ap-Op :
      (name : Bytes) (pass : Option Bytes) (chan hidden max : ℕ)
      → Op (soft_ap now name pass chan hidden max)
  unfolding soft_ap
  soft_ap-Op name pass chan hidden max w h =
      let named : Wifi → Wifi = λ w. record w {
        ap_ssid = name;
        ap_psk = given pass [];
        ap_channel = chan;
        ap_hidden = not (hidden == 0);
        ap_max_conn = max;
        ap_enabled = true;
        mode = with_ap w.mode;
      } in
      then_Op named (start_ap now) (Same-Op named (λ w. (refl, refl, refl, refl))) start_ap-Op w h

  scanned_bssid-Op : (i : ℕ) → Op (λ w. (scanned_bssid i w).1)
  unfolding scanned_bssid
  scanned_bssid-Op i w h = elim (Option-cases (entry_at w.scan_view i)) [
    | inl e ↦ Same-Extends w _ (rw (scanned_bssid, e) (refl, refl, refl, refl))
    | inr (entry, e) ↦ Same-Extends w _ (rw (scanned_bssid, e) (refl, refl, refl, refl))
  ]

  get_network_info-Op : (i : ℕ) → Op (λ w. (get_network_info i w).1)
  unfolding get_network_info
  get_network_info-Op i w h = elim (Option-cases (entry_at w.scan_view i)) [
    | inl e ↦ Same-Extends w _ (rw (get_network_info, e) (refl, refl, refl, refl))
    | inr (entry, e) ↦ Same-Extends w _ (rw (get_network_info, e) (refl, refl, refl, refl))
  ]

  -- Each call only extends what a plain handler is to see.
  pub call-Op : (c : Call) → Op (call now c)
  unfolding call begin_channel config config_dns set_auto_reconnect set_persistent set_hostname
      soft_ap_config set_mode_persistent enable_sta enable_ap scan_delete mock_reset
      mock_set_scan_results mock_add_scan_result init_default_scan_results
  call-Op (begins host name pass) = begin-Op host name pass
  call-Op (begins_on host name pass chan) =
      let on_channel : Wifi → Wifi = λ w. record w { channel = chan % 256 } in
      then_Op on_channel (begin now host name pass)
        (Same-Op on_channel (λ w. (refl, refl, refl, refl))) (begin-Op host name pass)
  call-Op (configures local gateway subnet) =
      Same-Op (config local gateway subnet) (λ w. (refl, refl, refl, refl))
  call-Op (configures_dns local gateway subnet dns) =
      Same-Op (config_dns local gateway subnet dns) (λ w. (refl, refl, refl, refl))
  call-Op (disconnects wifi_off) = disconnect-Op wifi_off
  call-Op (sets_auto_reconnect on) = Same-Op (set_auto_reconnect on) (λ w. (refl, refl, refl, refl))
  call-Op (sets_persistent on) = Same-Op (set_persistent on) (λ w. (refl, refl, refl, refl))
  call-Op (sets_hostname name) = Same-Op (set_hostname name) (λ w. (refl, refl, refl, refl))
  call-Op (starts_ap name pass chan hidden max) = soft_ap-Op name pass chan hidden max
  call-Op (configures_ap local gateway subnet) =
      Same-Op (soft_ap_config local gateway subnet) (λ w. (refl, refl, refl, refl))
  call-Op (disconnects_ap wifi_off) = soft_ap_disconnect-Op wifi_off
  call-Op (sets_mode m) = set_mode-Op m
  call-Op (sets_mode_persistent m on) =
      let kept_on : Wifi → Wifi = λ w. record w { persistent = on } in
      then_Op kept_on (set_mode now m) (Same-Op kept_on (λ w. (refl, refl, refl, refl)))
        (set_mode-Op m)
  call-Op (enables_sta on) = Same-Op (enable_sta on) (λ w. (refl, refl, refl, refl))
  call-Op (enables_ap on) = Same-Op (enable_ap on) (λ w. (refl, refl, refl, refl))
  call-Op (scans async hidden max) = scan_networks-Op async hidden max
  call-Op completes_scan = scan_complete-Op
  call-Op deletes_scan = Same-Op scan_delete (λ w. (refl, refl, refl, refl))
  call-Op (reads_bssid i) = scanned_bssid-Op i
  call-Op (reads_network i) = get_network_info-Op i
  call-Op resets = Same-Op mock_reset (λ w. (refl, refl, refl, refl))
  call-Op (sets_results results) =
      Same-Op (mock_set_scan_results results) (λ w. (refl, refl, refl, refl))
  call-Op (adds_result entry) = Same-Op (mock_add_scan_result entry) (λ w. (refl, refl, refl, refl))
