-- ===== src/Lib.antt =====
-- AutoRoboticArms: a three-axis arm that is driven over a serial line, by a host application or by
-- an edge node with an HTTP interface, and a cloud side that ships its telemetry to an object
-- store. This library models the program's Python code, and the firmware from the receive interrupt
-- to the registers of the servo chip.
--
-- Parts and files, with paths from the root of the repository:
-- - Edge/Kinematics: Software/edge-orchestrator/kinematics.py, `calculate_joint_angles`;
--   Host/Kinematics: its copy Hardware/host_app/src/inverse_kinematics.py. A solver is a chain of
--   float operations that may raise; Solvers compares the two.
-- - Edge/Trajectory: Software/edge-orchestrator/trajectory.py, `TrajectoryPlanner`.
-- - Edge/Frame, Edge/Node, Edge/Gateway, Edge/Daemon:
--   Software/edge-orchestrator/orchestrator_node.py. `Node` is the module's globals, which the
--   handlers and the daemon's thread share; Edge/Gateway has one function per HTTP handler, with
--   the reply and the next node; Edge/Daemon has one round of `mechatronic_hardware_daemon`
--   (`round`), as a function of what the clock and the serial port do in it. Edge/Lifespan is the
--   part of `lifespan` before and after the daemon's thread, Edge/Gateway/Refinement an abstract
--   bounded queue, and Edge/System both threads together: requests, and the daemon cut where it
--   takes `queue_lock`, in any order, with the poses accepted and taken so far.
-- - Host/Conductor: Hardware/host_app/src/conductor_host.py, `ConductorHost`. A method is a function
--   of the object's fields and the device, and it returns, exits the process or raises; a write to
--   the serial port and a read from it may raise SerialException.
-- - Firmware: Hardware/firmware/src/packet_parser.cpp, and Task B of
--   Hardware/firmware/src/main.cpp, which feeds the parser one byte and answers it; Firmware/Ring:
--   Hardware/firmware/src/circular_buffer.cpp; Firmware/Watchdog:
--   Hardware/firmware/src/watchdog_interlock.cpp; Firmware/Loop: a round of the super-loop with the
--   receive interrupt and all three tasks over these parts. Firmware/Loop/Stream has rounds as one
--   stream of bytes through Task B.
-- - Firmware/Bus: Hardware/firmware/src/twi_driver.cpp, in the version for the board (Twi), over
--   the two-wire peripheral as a parameter, and in the version for tests (Mock).
--   Firmware/Actuator: Hardware/firmware/src/joint_actuator.cpp over either; Firmware/Loop/Servos
--   carries the outputs of the super-loop out on the servos.
-- - Host/Scripts: Hardware/host_app/test.py, Hardware/host_app/rest.py and
--   Cloud/OldCode/src/serial_sanity_check.py, once the port is open.
-- - Handshake: the conductor and the scripts with that parser as their device, and a frame through
--   the rounds of the super-loop (Arrival) to the registers of the servos (Servos);
--   Edge/Frame/Parity: the edge node's frames through the same parser.
-- - Cloud/Telemetry, Cloud/Sync: the table of Cloud/src/models.py and `CloudSyncWorker` of
--   Cloud/src/cloud_sync.py. A cycle is a function of the worker, its table, its bucket and what it
--   meets: the clock, the rows that arrive meanwhile, and the answer of the object store.
--   Cloud/Sync/History has the life of a table as steps: cycles, sweeps, new rows, restarts.
-- - Cloud/Conductor: `ConductorOrchestrator` of Cloud/src/conductor_host.py. The producer, the
--   flusher and `stop` are steps on the shared queue, and a run is any sequence of them.
--   Cloud/System joins these steps to those of the sync worker over one table: what the flusher
--   commits becomes rows under ids that the database chooses, and rows come during a cycle only
--   while its upload runs.
-- - Edge/Store: `DatabaseManager` of Software/edge-orchestrator/database_manager.py, in the same
--   way: callers, `shutdown` and the worker.
-- - Cloud/Plane: Cloud/src/control_plane.py: `ConnectionManager` and its broadcast, the key test
--   and the REST routes (Access), the WebSocket route (Session). Cloud/Database:
--   Cloud/src/database_manager.py and Cloud/init_db.py, over a file system and SQLAlchemy that are
--   parameters.
-- - Host/Store: Hardware/host_app/src/database_manager.py, logging and pruning of the table, and its
--   set-up over SQLite as a parameter.
-- - Base, Wire, Joints, Python: numbers and lists, text and checksums, the joint angles, and
--   Python's exceptions. Floats and Link: the float operations and the serial device, which are
--   parameters. Tests: concrete runs.
--
-- Conventions: times are whole microseconds, and milliseconds in the firmware; texts and bytes are
-- lists of code points; Python's ints are the integers of Base/Int. The fuel of decimal and
-- hexadecimal printing is one more than the number printed, which is more than its digits
-- (Wire/Digits); the reader of Cloud/Sync/Framing has one frame of fuel for each blob. The wait for
-- the two-wire peripheral counts down the polls of its timeout. Every other loop follows a list or
-- counts down a number of rounds that the theorem names. The parser's buffers hold what stands
-- below their indices, and its `uint8_t` values are kept below 256 by its clamps and by bytes below
-- 128.
--
-- Not modelled: sleeps, console output and the interrupt key; the PCA9685 itself (registers that
-- hold what a successful write stores are a hypothesis; what it does in sleep mode or at power-up is
-- not) and the time that the bus takes; a receive interrupt between two instructions of the drain;
-- in the handshake of the conductor and the scripts with the firmware the watchdog and the ring (so
-- a halt is a state that a theorem starts from, and a byte is drained as soon as it is sent, which
-- Firmware/Loop/Stream shows to be the same while the ring does not overflow); gzip, protobuf and
-- the S3 client (parameters); the keys of the objects in the bucket (a key holds the time in
-- microseconds, and an upload adds an object); a switch of threads between the producer's test of
-- the shutdown event and its `put_nowait`; an exception of `ser.close()` in the daemon, and of the
-- serial port in the bench scripts once it is open; the 16-bit overflow of `atoi` on the board,
-- which numbers of more than four digits would meet; SQLite itself; the settings of FastAPI and its
-- CORS layer; generated code, tests, containers.
pub mod Base
pub mod Wire
pub mod Firmware
pub mod Joints
pub mod Python
pub mod Floats
pub mod Link
pub mod Host
pub mod Edge
pub mod Handshake
pub mod Solvers
pub mod Cloud
pub mod Tests
