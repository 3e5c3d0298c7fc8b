-- ===== src/Tasks.antt =====
-- src/tasking/task_collection.* and the `SchedulingDomain` of src/tasking/task_scheduler.*: where the
-- tasks that are ready to run are kept. Tasks are numbered.
pub mod Collection
pub mod Content
pub mod Threads
pub mod Taking
pub mod Domain
pub mod Valid
pub mod Putting
pub mod Dispatch
pub mod Levels
pub mod Workers
pub mod Scheduler
pub mod Pool
pub mod Spawning
pub mod Staff
pub mod Resizing
pub mod Tests
pub mod PoolTests
