-- ===== src/Broker.antt =====
-- The broker of src/broker-1.ts (`class Broker1`): its state, and a module for each group of methods.
pub mod Types
pub mod Grant
pub mod Attempt
pub mod Drain
pub mod Events
pub mod Closure
pub mod Semaphore
pub mod Serving
pub mod Unlocking
pub mod Atomic
pub mod Fencing
pub mod Lock
pub mod Unlock
pub mod Composite
pub mod Sweep
pub mod Connection
pub mod Rendezvous
pub mod Wakeups
pub mod Retention
pub mod Admission
pub mod Fifo
pub mod Queries
