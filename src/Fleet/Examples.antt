-- ===== src/Fleet/Examples.antt =====
-- The theorems on src/simulator/device-farm.js at a farm of two devices.
use gps_device_virtual_farm.Prelude.{◌/◌, length, ◌≡◌, refl, true, false, Option, none, some, []}
use gps_device_virtual_farm.Imei.{generate_imei}
use gps_device_virtual_farm.Gt06.Location.{Point}
use gps_device_virtual_farm.Session.{Net}
use gps_device_virtual_farm.Fleet.{
  Fleet, FleetConfig, start, add_sessions, add_session, new_session, stop, resume_stop,
}
use gps_device_virtual_farm.Farm.{schedule_entry}
use gps_device_virtual_farm.Session.Handlers.{schedule}
use gps_device_virtual_farm.Fleet.Pump.{pump}
use gps_device_virtual_farm.Fleet.Balance.{IsBalanced}
use gps_device_virtual_farm.Fleet.Run.{
  FleetSteps, pumps, stops, goes_on_stopping, new_fleet, FleetSteps-IsBalanced,
}
use gps_device_virtual_farm.Fleet.Ends.{pump-ends}
use gps_device_virtual_farm.Fleet.Stop.{resume_times, IsStopped, stop-IsStopped}

abbrev config : FleetConfig
config = record {
  session_config = record {
    connect_timeout_ms = 10_000;
    login_ack_timeout_ms = 10_000;
    max_login_attempts = 3;
    heartbeat_interval_ms = 60_000;
    moving_interval_ms = 10_000;
    parked_interval_ms = 60_000;
    reconnect_base_ms = 1_000;
    reconnect_max_ms = 60_000;
  };
  device_count = 2;
  moving_count = 1;
  connection_rate_per_second = 10;
  real_road = false;
}

abbrev point : Point
point = record {
  latitude_micro = 28_613_900;
  is_south = false;
  longitude_micro = 77_209_000;
  is_west = false;
  speed_tenths = 400;
  course = 90;
  satellites = 9;
  is_valid = true;
  time = none;
}

abbrev world : Net
world = record {
  clock = 1_000;
  writes = [];
  connect_throws = false;
  point = some point;
  sent = [];
  thrown = false;
}

abbrev value_of : Option Fleet → Fleet
value_of none = new_fleet
value_of (some f) = f

-- The farm of two devices, whose pump is not set yet.
abbrev fleet : Fleet
fleet = value_of (start config world true new_fleet)

started : start config world true new_fleet ≡ some fleet
unfolding start add_sessions generate_imei
started = refl

pumped : (g : Fleet) × (pump (λ i. world) 1_000 1_001 fleet ≡ some g)
pumped = let (g, e, _) = pump-ends (λ i. world) 1_000 1_001 fleet in (g, e)

abbrev stopped_fleet : Fleet
stopped_fleet = resume_stop (λ i. world) (stop (λ i. world) pumped.0)

-- The pump connects the first device, and the farm is stopped.
steps : FleetSteps fleet stopped_fleet
steps = FleetSteps.next (pumps (λ i. world) 1_000 1_001 fleet pumped.0 pumped.1) (
    FleetSteps.next (stops (λ i. world) pumped.0) (
      FleetSteps.next (goes_on_stopping (λ i. world) (stop (λ i. world) pumped.0)) FleetSteps.done))

FleetSteps-IsBalanced_example : IsBalanced stopped_fleet.farm stopped_fleet.sessions
FleetSteps-IsBalanced_example =
    FleetSteps-IsBalanced config world true fleet stopped_fleet started steps

fleet_runs : (fleet.farm.running ≡ true) × (fleet.awaiting ≡ [])
unfolding start add_sessions generate_imei add_session schedule new_session schedule_entry
fleet_runs = (refl, refl)

stop-IsStopped_example :
    IsStopped
      (length fleet.sessions)
      (resume_times (λ i. world) (length fleet.sessions / 1000) (stop (λ i. world) fleet))
stop-IsStopped_example = stop-IsStopped (λ i. world) fleet fleet_runs.0 fleet_runs.1

pump-ends_example :
    (g : Fleet) × (pump (λ i. world) 1_000 1_001 fleet ≡ some g)
    × (g.farm.running ≡ true → g.pump_timer ≡ true)
pump-ends_example = pump-ends (λ i. world) 1_000 1_001 fleet
