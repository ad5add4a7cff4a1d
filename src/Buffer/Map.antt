-- ===== src/Buffer/Map.antt =====
-- buf.cpp, class BufMgr: the pool of frames as a map from pages to blocks. Refines puts the calls
-- together.
pub mod Evict
pub mod Disk
pub mod View
pub mod Taken
pub mod Evicted
pub mod Loaded
pub mod Entered
pub mod Described
pub mod Clients
pub mod Emptied
pub mod Cleaned
pub mod Synced
pub mod Unmoved
pub mod Spared
pub mod Allotted
pub mod Disposed
pub mod Refused
pub mod Unpinned
pub mod ShutDown
pub mod Refines
pub mod Defined
