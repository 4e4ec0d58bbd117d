-- ===== src/Scheduler.antt =====
-- include/qwenvl_paged/Scheduler.h and src/Scheduler.cpp: the continuous batcher.
pub mod State
pub mod Queue
pub mod Admission
pub mod Step
pub mod Queues
pub mod Admits
pub mod Rounds
pub mod Plans
pub mod Loop
pub mod Fuel
pub mod Lifetimes
