-- ===== src/Queue.antt =====
-- sabnzbd/nzbqueue.py: the download queue.
pub mod State
pub mod Place
pub mod Insert
pub mod Sort
pub mod Save
pub mod Add
pub mod Keeps
pub mod Adding
pub mod Remove
pub mod SetPriority
pub mod Switch
pub mod Reads
pub mod Info
pub mod Duplicates
pub mod Control
pub mod Dispatch
pub mod Bulk
pub mod Tests
