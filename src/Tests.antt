-- ===== src/Tests.antt =====
-- The theorems at concrete inputs, and runs of the model on a file system in memory.
mod Ram
mod PageTests
mod PoolTests
mod MapTests
mod JoinTests
mod ScanTests
mod HeapTests
mod CatalogTests
mod SortTests
mod QueryTests
mod LoadTests
mod PrintTests
