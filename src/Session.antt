-- ===== src/Session.antt =====
-- src/simulator/device-session.js: a device's session, without its handlers (Session/Handlers). What
-- the handlers meet outside (the clock, the sockets, the movement model) is in `Net`.
pub mod Handlers
pub mod Events
pub mod Accounts
pub mod Waiting
pub mod Backoff
mod Examples
use gps_device_virtual_farm.Prelude.{
  ℕ, suc, ◌+◌, ◌-◌, ◌*◌, ◌/◌, ◌%◌, ◌^◌, min, bit_and, Bool, true, false, Option, none, some, List,
  [], ◌∷◌, ◌++◌, ◌==◌, if◌then◌else◌, length,
}
use gps_device_virtual_farm.Gt06.Decoder.{FrameDecoder, new_decoder}
use gps_device_virtual_farm.Gt06.Location.{Point}
use gps_device_virtual_farm.Farm.{SessionState, Farm, PacketType, backoff}

-- The configuration that a session reads; the times in milliseconds.
pub record SessionConfig : Type 0 where
  pub connect_timeout_ms : ℕ
  pub login_ack_timeout_ms : ℕ
  pub max_login_attempts : ℕ
  pub heartbeat_interval_ms : ℕ
  pub moving_interval_ms : ℕ
  pub parked_interval_ms : ℕ
  pub reconnect_base_ms : ℕ
  pub reconnect_max_ms : ℕ

-- The calls that a session makes of its movement model. A road model proposes a point and has it
-- committed; any other gives its next point in one call.
pub data RouteCall : Type 0 where
  transport_available transport_unavailable propose_point commit_queued_point next_point : RouteCall

-- `Number.POSITIVE_INFINITY`: past every time, and past every finite double.
unfoldable pub infinity : ℕ
infinity = 2 ^ 1024

-- The fields of a DeviceSession. The socket is there or `null`, and destroyed or not; `route` lists the
-- calls of the movement model so far, and `has_road_model` says of which kind it is.
pub record Session : Type 0 where
  pub index : ℕ
  pub imei : List ℕ
  pub moving : Bool
  pub config : SessionConfig
  pub state : SessionState
  pub socket : Option Bool
  pub socket_token : ℕ
  pub socket_connected : Bool
  pub decoder : FrameDecoder
  pub serial : ℕ
  pub login_attempts : ℕ
  pub last_login_serial : ℕ
  pub reconnect_attempt : ℕ
  pub next_heartbeat_at : ℕ
  pub next_location_at : ℕ
  pub next_action_at : ℕ
  pub schedule_version : ℕ
  pub backpressured : Bool
  pub disposed : Bool
  pub hash : ℕ
  pub has_road_model : Bool
  pub route : List RouteCall

-- What `socket.write` does: it returns true or false, or it throws.
pub data WriteResult : Type 0 where
  accepted queued failed : WriteResult

-- The world around one handler: `Date.now()`, what the next calls of `socket.write` do (`accepted`
-- once the list is used up), whether setting up a socket throws, the point that the movement model
-- gives (`none` if it throws), the packets that have been written, and whether an error has been thrown
-- out of the handler: it stops there, and its caller finds the session as it is.
pub record Net : Type 0 where
  pub clock : ℕ
  pub writes : List WriteResult
  pub connect_throws : Bool
  pub point : Option Point
  pub sent : List (PacketType × List ℕ)
  pub thrown : Bool

-- What a handler changes.
pub record Ctx : Type 0 where
  pub session : Session
  pub farm : Farm
  pub net : Net

-- `#nextSerial()`: the serial number to use, and the next one.
unfoldable pub next_serial : ℕ → ℕ
next_serial serial = let next = bit_and (serial + 1) 0xffff in if next == 0 then 1 else next

-- The delay that `#beginReconnect` computes. `deterministicFraction` is a quotient by 2 ^ 32 - 1, and
-- the delay is computed exactly, then rounded to the nearest millisecond.
unfoldable pub reconnect_delay : SessionConfig → ℕ → ℕ → ℕ
reconnect_delay config hash attempt =
    let exponent = min attempt 16 in
    let capped = min (config.reconnect_base_ms * 2 ^ exponent) config.reconnect_max_ms in
    let fraction = (hash + attempt * 2654435761) % 2 ^ 32 in
    (capped * (0xffffffff + fraction) + 0xffffffff) / (2 * 0xffffffff)

-- `trim()` on ASCII text, from the left and from the right
is_space : ℕ → Bool
is_space c =
    if c == 32
    then true
    else if c == 9
    then true
    else if c == 10
    then true
    else if c == 11
    then true
    else if c == 12
    then true
    else c == 13

unfoldable pub trim_start : List ℕ → List ℕ
unfolding is_space
trim_start [] = []
trim_start (c ∷ cs) = if is_space c then trim_start cs else c ∷ cs

unfoldable pub trim_end : List ℕ → List ℕ
unfolding is_space
trim_end [] = []
trim_end (c ∷ cs) = elim (trim_end cs) [
  | [] ↦ if is_space c then [] else c ∷ []
  | d ∷ ds ↦ c ∷ d ∷ ds
]
