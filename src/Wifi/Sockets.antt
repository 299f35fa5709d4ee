-- ===== src/Wifi/Sockets.antt =====
-- The sockets of the mock of WiFi (libraries/EpoxyMockWiFi/WiFi.cpp and WiFi.h: WiFiClient, WiFiServer,
-- WiFiUDP), which reach no network.
use epoxy_duino.Base.{ℕ, Bool, true, false, if◌then◌else◌, ◌≡◌, refl, ap, length}
use epoxy_duino.Base.Int.{ℤ, negsuc}
use epoxy_duino.Base.Text.{Bytes}

record WifiClient : Type 0 where
  pub is_open : Bool

record WifiServer : Type 0 where
  server_port : ℕ
  listening : Bool

record WifiUdp : Type 0 where
  udp_port : ℕ

unfoldable new_client : WifiClient
new_client = record { is_open = false }

-- connect() to an address or a host, and a port
unfoldable connect_client : WifiClient → ℕ × WifiClient
connect_client c = (0, record c { is_open = false })

unfoldable write_client : Bytes → WifiClient → ℕ
write_client bytes c = if c.is_open then length bytes else 0

unfoldable write_client_byte : WifiClient → ℕ
write_client_byte c = if c.is_open then 1 else 0

unfoldable read_client : WifiClient → ℤ
read_client c = negsuc 0

unfoldable available_client : WifiClient → ℕ
available_client c = 0

unfoldable stop_client : WifiClient → WifiClient
stop_client c = record c { is_open = false }

unfoldable new_server : ℕ → WifiServer
new_server port = record { server_port = port; listening = false }

unfoldable begin_server : WifiServer → WifiServer
begin_server v = record v { listening = true }

unfoldable begin_server_at : ℕ → WifiServer → WifiServer
unfolding begin_server
begin_server_at port v = begin_server (record v { server_port = port })

-- available() and accept()
unfoldable accept_client : WifiServer → WifiClient
unfolding new_client
accept_client v = new_client

unfoldable write_server : Bytes → WifiServer → ℕ
write_server bytes v = if v.listening then length bytes else 0

-- stop(), close() and end()
unfoldable stop_server : WifiServer → WifiServer
stop_server v = record v { listening = false }

unfoldable begin_udp : ℕ → WifiUdp → ℕ × WifiUdp
begin_udp port u = (1, record u { udp_port = port })

unfoldable stop_udp : WifiUdp → WifiUdp
stop_udp u = record u { udp_port = 0 }

unfoldable write_udp : Bytes → WifiUdp → ℕ
write_udp bytes u = length bytes

-- parsePacket(), and read()
unfoldable parse_packet : WifiUdp → ℕ
parse_packet u = 0

unfoldable read_udp : WifiUdp → ℤ
read_udp u = negsuc 0

-- A call that changes a client, and the clients of any calls and servers.
data ClientStep : WifiClient → WifiClient → Type 0 where
  connected_to : (c : WifiClient) → ClientStep c (connect_client c).1
  stopped : (c : WifiClient) → ClientStep c (stop_client c)

data Reachable : WifiClient → Type 0 where
  made : Reachable new_client
  accepted : (v : WifiServer) → Reachable (accept_client v)
  called : (c d : WifiClient) → Reachable c → ClientStep c d → Reachable d

is_open-ClientStep : {c d : WifiClient} → ClientStep c d → d.is_open ≡ false
unfolding connect_client stop_client
is_open-ClientStep (connected_to c) = refl
is_open-ClientStep (stopped c) = refl

is_open-Reachable : {c : WifiClient} → Reachable c → c.is_open ≡ false
unfolding new_client accept_client
is_open-Reachable made = refl
is_open-Reachable (accepted v) = refl
is_open-Reachable (called c d before step) = is_open-ClientStep step

-- No client is ever connected: what is written to it is not taken.
write_client-Reachable : {c : WifiClient} → Reachable c → (bytes : Bytes) → write_client bytes c ≡ 0
unfolding write_client
write_client-Reachable reached bytes =
    ap (λ b. if b then length bytes else 0) (is_open-Reachable reached)
