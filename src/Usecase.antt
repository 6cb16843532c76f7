-- ===== src/Usecase.antt =====
-- The use cases of internal/application/usecase: their ports, the events that they write and their
-- entry points. `W` is the world that the ports act on; a port that may be nil is an option.
-- Ids and times that the code draws from its surroundings are arguments.
pub mod Ports
pub mod Events
pub mod Create
pub mod Process
pub mod Capture
pub mod Refund
pub mod Laws
pub mod Atomic
pub mod Order
pub mod Transaction
pub mod Mock
pub mod Memory
pub mod InMemory
pub mod List
