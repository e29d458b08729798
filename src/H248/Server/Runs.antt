-- ===== src/H248/Server/Runs.antt =====
-- Runs of the server of internal/h248/server.go: datagrams, replies of the handler, and what the
-- registration wakes up for, in any order.
use megaco_sip_gateway.Prelude.{ℕ, Bytes, true, false, List, [], ◌∷◌, if◌then◌else◌}
use megaco_sip_gateway.Net.{UdpAddr}
use megaco_sip_gateway.H248.Server.Listener.{new_udp_server, handle, respond}
use megaco_sip_gateway.H248.Server.Registration.{returned, System, Setup}
use megaco_sip_gateway.H248.Server.Loop.{
  on_timer, on_tick, take_result, on_done, registration_loop, Wake, on_wake, is_awaiting,
}

abbrev pub new_system : System
new_system = record { server = new_udp_server; loop = returned; context_done = false; output = [] }

unfoldable pub receive : Setup → Bytes → UdpAddr → ℕ → System → System
receive u packet remote now y = record y { server = (handle u.cfg y.server packet remote now).1 }

pub data Step (u : Setup) : System → System → Type 0 where
  receives :
      (y : System) (packet : Bytes) (remote : UdpAddr) (now : ℕ)
      → Step u y (receive u packet remote now y)
  responds :
      (y : System) (key message : Bytes)
      → Step u y (record y { server = respond key message y.server })
  timer : (y : System) (now : ℕ) → Step u y (on_timer u now y)
  ticks : (y : System) (now now' : ℕ) → Step u y (on_tick u now now' y)
  result : (y : System) (now : ℕ) → Step u y (take_result u now y)
  cancel : (y : System) → Step u y (record y { context_done = true })
  ends : (y : System) → Step u y (on_done y)

pub data Reach (u : Setup) : System → Type 0 where
  starts : (now : ℕ) → Reach u (registration_loop u now new_system)
  goes : (y y' : System) → Reach u y → Step u y y' → Reach u y'

-- What a registration does on a sequence of timers and results, until it is over
unfoldable pub drive : Setup → List Wake → System → System
drive u [] y = y
drive u (w ∷ ws) y = let more = drive u ws (on_wake u w y) in if is_awaiting y.loop then more else y
