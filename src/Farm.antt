-- ===== src/Farm.antt =====
-- src/simulator/device-farm.js: what the farm keeps for its sessions (the scheduler's heap, the
-- counts of states and the statistics), and the operations that a session calls. Times are whole
-- milliseconds. Log messages change nothing here and are left out.
pub mod Counts
use gps_device_virtual_farm.Prelude.{
  ℕ, zero, suc, ◌+◌, ◌-◌, ◌*◌, ◌^◌, max, Bool, List, [], ltb, ◌==◌, if◌then◌else◌,
}
use gps_device_virtual_farm.MinHeap

-- `SessionState` of src/simulator/device-session.js
pub data SessionState : Type 0 where
  pending connecting login_sent online backoff stopped : SessionState

-- `===` on states
abbrev pub state_code : SessionState → ℕ
state_code pending = 0
state_code connecting = 1
state_code login_sent = 2
state_code online = 3
state_code backoff = 4
state_code stopped = 5

abbrev pub same_state : SessionState → SessionState → Bool
same_state a b = state_code a == state_code b

-- The first argument of `recordPacket`.
pub data PacketType : Type 0 where
  login heartbeat location command_response : PacketType

-- `stateCounts`
pub record StateCounts : Type 0 where
  pub pending_count : ℕ
  pub connecting_count : ℕ
  pub login_sent_count : ℕ
  pub online_count : ℕ
  pub backoff_count : ℕ
  pub stopped_count : ℕ

-- `stateCounts[state]`
abbrev pub count_of : StateCounts → SessionState → ℕ
count_of c pending = c.pending_count
count_of c connecting = c.connecting_count
count_of c login_sent = c.login_sent_count
count_of c online = c.online_count
count_of c backoff = c.backoff_count
count_of c stopped = c.stopped_count

-- `stateCounts[state] = n`
abbrev pub set_count : StateCounts → SessionState → ℕ → StateCounts
set_count c pending n = record c { pending_count = n }
set_count c connecting n = record c { connecting_count = n }
set_count c login_sent n = record c { login_sent_count = n }
set_count c online n = record c { online_count = n }
set_count c backoff n = record c { backoff_count = n }
set_count c stopped n = record c { stopped_count = n }

-- `stats`, without the counts of devices that `start` fixes and without `schedulerWorkMs`.
pub record Stats : Type 0 where
  pub tcp_connected : ℕ
  pub packets_sent : ℕ
  pub login_packets : ℕ
  pub heartbeat_packets : ℕ
  pub location_packets : ℕ
  pub command_responses : ℕ
  pub acknowledgements : ℕ
  pub reconnects : ℕ
  pub malformed_frames : ℕ
  pub errors : ℕ
  pub bytes_sent : ℕ
  pub bytes_received : ℕ
  pub scheduler_actions : ℕ

-- An entry of the scheduler's heap. The session is named by its index.
pub record Entry : Type 0 where
  pub at : ℕ
  pub version : ℕ
  pub index : ℕ

pub record Farm : Type 0 where
  pub running : Bool
  pub heap : List Entry
  pub stats : Stats
  pub state_counts : StateCounts

-- The heap's order, `left.at - right.at || left.index - right.index`: an index is below 50000.
abbrev pub entry_rank : Entry → ℕ
entry_rank e = e.at * 50000 + e.index

abbrev pub no_entry : Entry
no_entry = record { at = 0; version = 0; index = 0 }

-- `schedule(session, at, version)`
unfoldable pub schedule_entry : ℕ → ℕ → ℕ → Farm → Farm
schedule_entry index at version f =
    if f.running
    then record f {
      heap =
          MinHeap.push entry_rank no_entry f.heap
            (record { at = at; version = version; index = index });
    }
    else f

-- `setSessionState(previous, next)`
unfoldable pub set_session_state : SessionState → SessionState → Farm → Farm
set_session_state previous next f =
    let c = f.state_counts in
    let left =
      if ltb 0 (count_of c previous) then set_count c previous (count_of c previous - 1) else c in
    record f { state_counts = set_count left next (count_of left next + 1) }

-- `recordSocketDelta(1)` and `recordSocketDelta(-1)`
unfoldable pub record_socket_up : Farm → Farm
record_socket_up f = record f {
  stats = record (f.stats) { tcp_connected = max 0 (f.stats.tcp_connected + 1) };
}

unfoldable pub record_socket_down : Farm → Farm
record_socket_down f = record f {
  stats = record (f.stats) { tcp_connected = max 0 (f.stats.tcp_connected - 1) };
}

-- `recordPacket(type, bytes)`
unfoldable pub count_packet : PacketType → Stats → Stats
count_packet login s = record s { login_packets = s.login_packets + 1 }
count_packet heartbeat s = record s { heartbeat_packets = s.heartbeat_packets + 1 }
count_packet location s = record s { location_packets = s.location_packets + 1 }
count_packet command_response s = record s { command_responses = s.command_responses + 1 }

unfoldable pub record_packet : PacketType → ℕ → Farm → Farm
record_packet type bytes f =
    let s = record (f.stats) {
      packets_sent = f.stats.packets_sent + 1;
      bytes_sent = f.stats.bytes_sent + bytes;
    } in
    record f { stats = count_packet type s }

-- `recordAcknowledgement`, `recordBytesReceived`, `recordMalformed`, `recordReconnect`, `recordError`
unfoldable pub record_acknowledgement : Farm → Farm
record_acknowledgement f = record f {
  stats = record (f.stats) { acknowledgements = f.stats.acknowledgements + 1 };
}

unfoldable pub record_bytes_received : ℕ → Farm → Farm
record_bytes_received bytes f = record f {
  stats = record (f.stats) { bytes_received = f.stats.bytes_received + bytes };
}

unfoldable pub record_malformed : ℕ → Farm → Farm
record_malformed count f = record f {
  stats = record (f.stats) { malformed_frames = f.stats.malformed_frames + count };
}

unfoldable pub record_reconnect : Farm → Farm
record_reconnect f = record f { stats = record (f.stats) { reconnects = f.stats.reconnects + 1 } }

unfoldable pub record_error : Farm → Farm
record_error f = record f { stats = record (f.stats) { errors = f.stats.errors + 1 } }
