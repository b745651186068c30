-- ===== src/Session/Examples.antt =====
-- The theorems on src/simulator/device-session.js at concrete sessions.
use gps_device_virtual_farm.Prelude.{
  ℕ, ◌+◌, ◌≡◌, refl, Bool, true, false, Option, none, some, [], ◌∷◌, arith, if◌then◌else◌,
}
use gps_device_virtual_farm.Gt06.Decoder.{new_decoder}
use gps_device_virtual_farm.Gt06.Location.{Timestamp, Point}
use gps_device_virtual_farm.Gt06.Bcd.{is_imei}
use gps_device_virtual_farm.MinHeap.Array.{IsHeap}
use gps_device_virtual_farm.Farm.{
  SessionState, pending, connecting, login_sent, online, backoff, stopped, Stats, same_state,
  entry_rank, no_entry, count_of,
}
use gps_device_virtual_farm.Session.{SessionConfig, Ctx, infinity, trim_start, trim_end}
use gps_device_virtual_farm.Session.Events.{answer_to, on_close, handle_due}
use gps_device_virtual_farm.Session.Accounts.{Accounts}
use gps_device_virtual_farm.Session.Accounts.Steps.{came_due, closed, done, next, Steps-Accounts}
use gps_device_virtual_farm.Session.Waiting.{Waiting, handle_due-Waiting}

abbrev config : SessionConfig
config = record {
  connect_timeout_ms = 10_000;
  login_ack_timeout_ms = 10_000;
  max_login_attempts = 3;
  heartbeat_interval_ms = 60_000;
  moving_interval_ms = 10_000;
  parked_interval_ms = 60_000;
  reconnect_base_ms = 1_000;
  reconnect_max_ms = 60_000;
}

abbrev no_stats : Stats
no_stats = record {
  tcp_connected = 0;
  packets_sent = 0;
  login_packets = 0;
  heartbeat_packets = 0;
  location_packets = 0;
  command_responses = 0;
  acknowledgements = 0;
  reconnects = 0;
  malformed_frames = 0;
  errors = 0;
  bytes_sent = 0;
  bytes_received = 0;
  scheduler_actions = 0;
}

abbrev time : Timestamp
time = record { full_year = 2026; month = 0; date = 31; hours = 23; minutes = 59; seconds = 58 }

abbrev point : Point
point = record {
  latitude_micro = 28_613_900;
  is_south = false;
  longitude_micro = 77_209_000;
  is_west = false;
  speed_tenths = 425;
  course = 90;
  satellites = 10;
  is_valid = true;
  time = some time;
}

-- One device that waits for its first connection, with the socket given and disposed or not.
abbrev waiting_with : Option Bool → Bool → Ctx
waiting_with socket disposed = record {
  session = record {
    index = 0;
    imei = 51 ∷ 53 ∷ 57 ∷ 51 ∷ 51 ∷ 57 ∷ 48 ∷ 55 ∷ 51 ∷ 48 ∷ 48 ∷ 48 ∷ 48 ∷ 48 ∷ 48 ∷ [];
    moving = true;
    config = config;
    state = pending;
    socket = socket;
    socket_token = 0;
    socket_connected = false;
    decoder = new_decoder;
    serial = 1;
    login_attempts = 0;
    last_login_serial = 0;
    reconnect_attempt = 0;
    next_heartbeat_at = infinity;
    next_location_at = infinity;
    next_action_at = infinity;
    schedule_version = 0;
    backpressured = false;
    disposed = disposed;
    hash = 12345;
    has_road_model = false;
    route = [];
  };
  farm = record {
    running = true;
    heap = [];
    stats = no_stats;
    state_counts = record {
      pending_count = 1;
      connecting_count = 0;
      login_sent_count = 0;
      online_count = 0;
      backoff_count = 0;
      stopped_count = 0;
    };
  };
  net = record {
    clock = 1000;
    writes = [];
    connect_throws = false;
    point = some point;
    sent = [];
    thrown = false;
  };
}

abbrev fresh : Ctx
fresh = waiting_with none false

-- No other device is in the fleet.
abbrev nobody : SessionState → ℕ
nobody t = 0

fresh-Accounts : Accounts nobody 0 fresh
fresh-Accounts = (counted, refl, omega arith, omega arith)
  where
    counted :
        (t : SessionState)
        → count_of fresh.farm.state_counts t ≡ nobody t + (if same_state pending t then 1 else 0)
    counted pending = refl
    counted connecting = refl
    counted login_sent = refl
    counted online = refl
    counted backoff = refl
    counted stopped = refl

Steps-Accounts_example : Accounts nobody 0 (on_close 2 (handle_due 1000 fresh))
Steps-Accounts_example =
    Steps-Accounts nobody 0
      (next (came_due 1000 fresh) (next (closed 2 (handle_due 1000 fresh)) done)) fresh-Accounts

nothing-IsHeap : IsHeap entry_rank no_entry fresh.farm.heap
nothing-IsHeap c p q = absurd (omega arith)

imei_digits : is_imei fresh.session.imei ≡ true
unfolding is_imei
imei_digits = refl

handle_due-Waiting_example : Waiting 0 (handle_due 1000 fresh)
handle_due-Waiting_example =
    handle_due-Waiting 1000 fresh point time refl refl refl nothing-IsHeap imei_digits refl refl
      (omega arith) (omega arith)

-- " status" asks for something, and "RESET" does not.
answer_to_query :
    answer_to (32 ∷ 115 ∷ 116 ∷ 97 ∷ 116 ∷ 117 ∷ 115 ∷ [])
    ≡ 115 ∷ 116 ∷ 97 ∷ 116 ∷ 117 ∷ 115 ∷ 61 ∷ 83 ∷ 117 ∷ 99 ∷ 99 ∷ 101 ∷ 115 ∷ 115 ∷ 33 ∷ []
unfolding answer_to trim_start trim_end
answer_to_query = refl

answer_to_other : answer_to (82 ∷ 69 ∷ 83 ∷ 69 ∷ 84 ∷ 10 ∷ []) ≡ 82 ∷ 69 ∷ 83 ∷ 69 ∷ 84 ∷ []
unfolding answer_to trim_start trim_end
answer_to_other = refl
