-- ===== src/Lib.antt =====
-- A farm of virtual GPS trackers. Each device of the farm is a session that speaks the GT06 protocol
-- over its own TCP connection; one scheduler makes the sessions act in turn; a user interface and a
-- preparation of real road routes stand around it. This library models the farm's core.
--
-- The parts, and where the code of each one is:
--   Gt06/Crc, Gt06/Bcd: the checksum, by its table, and IMEI packing (src/simulator/gt06.js: buildCrcTable,
--     crc16itu, encodeImeiBcd, decodeImeiBcd).
--   Gt06/Frame, Gt06/Location: the builders of packets, and parseServerCommand (src/simulator/gt06.js).
--     A byte string is a list of numbers below 256; a thrown error is `none`.
--   Gt06/Decoder: FrameDecoder and findHeader (src/simulator/gt06.js). The fields of the object are a
--     record, and `feed` takes it and returns it. The loop of `feed` runs on fuel, one more than the bytes
--     that are buffered: each round that goes on drops a byte at least.
--   MinHeap: the binary heap (src/simulator/min-heap.js), over a rank in place of the comparison. The
--     loops run on fuel, one more than the index and the number of items.
--   Farm: what DeviceFarm keeps for its sessions and the operations that they call (schedule,
--     setSessionState, recordSocketDelta, recordPacket and the other counters of
--     src/simulator/device-farm.js).
--   Fleet: DeviceFarm with all its sessions (src/simulator/device-farm.js): start, activate and stop, which
--     disposes of the sessions in batches of 1000 and lets other events come between two of them, and in
--     Fleet/Pump the pump, which catches what a session throws. Its loop goes by the actions that it may still take, 5000, and between two of
--     them drops entries that are out of date on fuel the size of the heap.
--   Checkpoints: RoadCheckpointStore (src/main/road-checkpoint-store.js): the checks of what is saved
--     (Checkpoints/Json), the files of a run, and in Checkpoints/Store loading, saving and pruning. A save
--     takes what comes of its accesses to the file system; SHA-256 and the length of a text are parameters.
--   Status: RoadPreparationStatusStore (src/main/road-preparation-status-store.js): normalizeStatus, read and
--     write. Numbers are in thousandths.
--   Imei: generateImei (src/simulator/imei.js). The decimal digits are computed on fuel 15, which is enough
--     since every IMEI is below 10 ^ 15.
--   Budget: ProviderBudget (src/road/provider-budget.js), its constructor's caps and the method that runs
--     under its locks. A run is the list of what it does: writes of the state file and the call.
--   Movement: RoadMovementModel (src/simulator/road-movement.js): the motion, the checks of routes and of
--     checkpoints (Movement/Route, Movement/Checkpoint), the class (Movement/Model) and the bisection of
--     segmentAtDistance (Movement/Segment). The loop of advanceState runs on fuel 15, since a call moves for
--     15 s at most in rounds of 1 s. Distances and speeds are whole numbers of units in which the constants
--     are exact; the trigonometry (the target speed, a point's place and course) is a parameter.
--   Allocator: the slots of a route, takeRouteSlot and coprimeStride (src/simulator/road-allocator.js).
--     Euclid's loop runs on fuel one more than its second number, and the search for a stride on the
--     capacity.
--   Diversity: novelty, createNoveltyIndex and summarizeDiversity (src/road/diversity-evaluator.js). The
--     cells that a route passes come with the route.
--   Controller: SimulatorController (src/main/simulator-controller.js). A request is a promise; calls,
--     messages, failures, exits and timeouts of the worker are events, which come in any order.
--   Fnv1a: the hash of src/simulator/geo.js.
--   Session: DeviceSession (src/simulator/device-session.js), the methods in Session/Handlers, and the
--     handlers of socket events, handleDue and dispose in Session/Events. A handler takes the session, the
--     farm and the world (`Net`: the clock, what the next calls of `socket.write` do, whether a socket can
--     be set up, the point that the movement model gives unless it throws) and returns all three. A handler
--     in which a builder or the movement model throws stops there and says so in `thrown`. A session calls the farm and the
--     heap, and builds and reads packets by Gt06; the farm calls handleDue. Events reach a session as the
--     steps of Session/Accounts/Steps, in any order.
--
-- Integers are natural numbers, with their wrap-around written out where the code has one. Times are
-- whole milliseconds; Number.POSITIVE_INFINITY is a number past all doubles. A location is given by the
-- fixed-point values that the movement models round to, since the floating point of the code has no
-- model here. A heap entry names its session by its index, below 50000.
--
-- Not modelled: log messages, timers and sockets themselves; the snapshots of a farm; the trigonometry of
-- routes; the choice of regions and of parked places; route preparation, its providers and stores but for
-- the budget's rules, the diversity of routes and the status file; the Electron shell and the user
-- interface.

pub mod Allocator
pub mod Budget
pub mod Checkpoints
pub mod Controller
pub mod Diversity
pub mod Farm
pub mod Fleet
pub mod Fnv1a
pub mod Gt06
pub mod Imei
pub mod MinHeap
pub mod Movement
pub mod Prelude
pub mod Session
pub mod Status
