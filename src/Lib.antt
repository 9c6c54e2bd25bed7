-- ===== src/Lib.antt =====
-- The verification of sensorctl, the collector of sensor readings: what its threads do with a sample on
-- its way from a bus to the database.
--
-- How the program works. src/config.py reads a TOML file and checks it. src/hw/drivers/registry.py
-- makes a driver for each enabled sensor. src/collector.py starts a worker per bus, one database writer
-- and one status writer, looks every pass at the deadline of each sensor, gives due sensors to the
-- queue of their bus, and at the end stops and joins the threads. src/runtime/worker.py reads a sensor
-- per task and submits the sample to src/runtime/queue.py, from which src/runtime/writer.py writes
-- batches to the database. All of them count in src/runtime/status.py, whose status writer keeps a file.
--
-- Which file models what. Names are those of the source, in lower case; a method takes its object's
-- state as the last argument.
--   Prelude        Python's exceptions, dicts, lists and texts. `Result` is a value or an exception,
--                  `Exec` a computation that changes a state and may raise, keeping what it did.
--   Model          src/model.py. A float is a whole number over a power of two, infinite or nan.
--   Config         src/config.py, over the values of a TOML document (Toml). Fields are the helpers of
--                  the loader, Paths the parts of pathlib, Bus and Sensor the two loaders, Load the
--                  rest. Collisions is `_validate_collisions`, and its child Topology the independent
--                  description of which configurations have no collision.
--   Hardware       src/hw: Driver has the interfaces of drivers and transports, Registry and Mock are
--                  files of src/hw/drivers, Ports the transports of real buses and the factory. Bmp280 is
--                  src/hw/drivers/bmp280.py: Calibration the words of the chip, Compensate the formulas,
--                  Options its constructor, Sensor its operations; its other children are proofs.
--   Runtime.Status src/runtime/status.py, each method one step on the record; Runtime.Report is the
--                  snapshot and the thread that writes the status file.
--   Runtime.Queue  src/runtime/queue.py, with what all threads share in one record.
--   Runtime.Writer src/runtime/writer.py. Runtime.Store is what it needs of src/storage/database.py.
--   Runtime.Worker src/runtime/worker.py.
--   Collector      src/collector.py: Start is what comes before the loop, Schedule the loop over
--                  the deadlines, Shutdown its `finally`. Threads is all of them with the workers, as
--                  steps that come in any order; its children but Begin are proofs.
--   Storage        Samples is src/storage/repositories/samples.py and `write_samples` of
--                  src/storage/database.py, on two of the tables of src/storage/schema.py. Sensors is
--                  src/storage/repositories/sensors.py, on the other two, while the database is open.
--                  Database is the object of src/storage/database.py, Refinement makes it a store of
--                  Runtime.Store, with the journal of what was written as a ghost. Migration is
--                  src/storage/migration.py on the schema, its children Upgrade the upgrade on a connection
--                  and Versions the two files of src/storage/migrations/versions; Legacy is what the
--                  second does to the rows; its other children are proofs. Storable joins the
--                  registration with the worker's tests and the write.
--   Commands       src/commands.py and src/service.py: Shell is what they use of the machine, Service,
--                  Status (the lines of the status file) and Main the code; the rest are proofs.
--   Tests          runs on small inputs and the theorems at inputs that meet their hypotheses.
--
-- Threads. A thread's loop runs over a list of turns, each of which says what the other threads do
-- between its steps (the turns of the scheduler are its passes), so a theorem on all lists speaks of
-- all interleavings at these points. Collector.Threads has the scheduler and all workers in one step
-- relation; what the writer does is there reduced to the calls that change what is shared. The methods
-- of the statistics and of the queue hold a lock and are one step. Three groups of calls are one step
-- here that are several in the program: `put_nowait` with the count that follows it in `submit`, the
-- calls that one task of a worker makes, and those of one visit of the scheduler.
--
-- Bounds. Loops on turns need no fuel of their own; where a theorem says that a loop ends, it gives the
-- number of turns that is enough: one more than there are samples or tasks left. The retry loop is
-- recursion on the attempts that are left. The wait for a BMP280 is recursion on 101 rounds: each round
-- but the last sleeps a millisecond, and the deadline is a hundred of them away. Clocks are natural
-- numbers, in the unit that the code compares: milliseconds for deadlines, nanoseconds where the code has
-- seconds as a float.
--
-- Parameters. The drivers, the transport and the clocks of a worker, the database (for Storage: which
-- statements it refuses, the digest of a configuration, what alembic does besides, and the text that
-- strftime gives a time), the packages smbus2, spidev and pyserial, the processes, the file system, the
-- text of the JSON document and what `json.loads` reads, the operations on floats, the factories of the
-- registry, and which characters outside ASCII count as digits or have a value. Laws of theirs that a
-- theorem needs are in a record or a predicate that it names: a batch is stored whole or not at all,
-- the replacement of a file is atomic, the fields of a driver belong to the fingerprint of its sensor.
--
-- Not modelled: the start of the threads in `Collector.run`, signal handlers, logging, the calls of
-- sqlite3 in src/storage/connection.py, and the parser of the command line.
pub mod Prelude
pub mod Model
pub mod Config
pub mod Hardware
pub mod Runtime
pub mod Collector
pub mod Storage
pub mod Commands
mod Tests
