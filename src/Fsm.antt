-- ===== src/Fsm.antt =====
-- fsm: finite state machines over hash tables of states and events, with priority queues.
pub mod Types
pub mod States
pub mod Setup
pub mod Machine
pub mod Output
pub mod Keys
pub mod Queue
pub mod Dequeue
pub mod Served
pub mod Registry
pub mod AddState
pub mod Reachability
pub mod Process
pub mod SetState
pub mod Events
pub mod Start
pub mod Export
pub mod Finish
