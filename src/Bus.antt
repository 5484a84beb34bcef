-- ===== src/Bus.antt =====
-- pkg/bus: the two message queues between the channels and the agent. `Queue` has the buses and
-- their operations, `Fifo` proves.
pub mod Queue
pub mod Fifo
mod Tests
