-- ===== src/Lib.antt =====
-- A relational database in layers: pages of a file, a buffer pool over them, heap files of records
-- over the pool, a hash table for joins over records, the two catalogs of relations and
-- attributes, a sorted file, partitions, and operators on relations.
--
-- error.h is Status: the status codes, and Res, the outcome of a call with its output parameters.
-- A call outside an array, or through a null or uninitialised pointer, is `undefined`. The buffer
-- pool has this in `through`, for a call through a File pointer, and `within`, for the index of
-- the hash table.
--
-- page.h and page.cpp are Page. A page keeps its records' bytes from the front and an array of
-- slots from the back; `slots` lists that array, its entry i being slot[-i] of the source. `init`,
-- `insert_record`, `delete_record`, `first_record`, `next_record` and `get_record` are the
-- methods. Page.Memory has memcpy and bcopy, Page.Slots the lemmas on slots, Page.Valid the well-
-- formedness of a page, Page.Contents the records by slot number, Page.Order the order of a scan.
--
-- bufHash.cpp and the class OpenFileHashTbl of db.cpp share their chain loops, which are
-- HashTable, for any key and hash; BufHash and OpenFiles are its two uses with their hash
-- functions. An index of BufHash can be negative, since its hash function keeps the sign of a
-- wrapping sum: insert, lookup and remove are undefined there.
--
-- System is the state that the layers share: the File objects by their address, the two hash
-- tables, the descriptors and blocks of the pool, the clock hand. Monad has the calls that change
-- a state and return a status.
--
-- db.cpp is FileIo (the pages of a file, the free list, create and destroy) and Db (open and close
-- with their counts, class DB). buf.h and buf.cpp are Buffer: `alloc_buf` is the clock,
-- `read_page`, `unpin_page`, `alloc_page`, `dispose_page` and `flush_file` the methods; its child
-- modules have the lemmas on the clock, the table, the pins and the frames. Buffer.Map has the
-- pool as a map from pages to blocks: Map.View says how a state shows such a map, Map.Refines what
-- the steps of clients do to it, Map.Defined that calls stay inside the array and away from NULL,
-- and the others treat one call each. A file that is closed for the last time flushes its pages,
-- so Db uses Buffer, and Buffer uses FileIo.
--
-- heapfile.h and heapfile.cpp are HeapFile (the classes HeapFile and the functions that create and
-- destroy one), HeapFile.Match (startScan and matchRec), HeapFile.Scan (HeapFileScan) and
-- HeapFile.Insert (InsertFileScan); HeapFile.Compare and HeapFile.Counts have lemmas on them. A
-- method runs on a Session, the object's fields with the system.
--
-- joinHT.h and joinHT.cpp are JoinTable.
--
-- The layers above use a scan through HeapFile.Cursor, a record of scanNext, getRecord,
-- deleteRecord and endScan, which the classes of scans fill and the records of a list fill too.
-- The theorems on the loops above are stated on such lists.
--
-- catalog.h is Catalog: the structs of the two catalogs and their bytes. catalog.cpp is
-- Catalog.Relations (RelCatalog) and Catalog.Attributes (AttrCatalog); create.cpp and destroy.cpp
-- are Catalog.Schema. Catalog.Rows has the lemmas on the bytes of a row, Catalog.Loops,
-- Catalog.Lookup and Catalog.Fill those on the loops.
--
-- sort.h and sort.cpp are Sort: `reccmp` and the structs, Sort.Build (the constructor, sortFile,
-- generateRun, startScans, the destructor) and Sort.Merge (next, setMark, gotoMark). Sort.Least
-- says what it is to merge lists by their smallest heads, Sort.Bytes that the order of strings is
-- one, Sort.Pick and Sort.Refresh what the loop of next does, Sort.Drain what all calls give, and
-- Sort.Filled what the inner loop of sortFile reads. The loops as a whole have no theorem:
-- generateRun opens a file that it has just destroyed, and so fails at the first run.
--
-- query.h, join.cpp, select.cpp, insert.cpp and delete.cpp are Query: Query.Join has QU_NL_Join
-- and QU_Join, Query.Select the operators of which the source has only the beginning. Query.Table
-- has the relations as lists, Query.Nested the lemmas on the two loops, Query.Turned those on the
-- filter of the inner scan. partition.h and partition.cpp are Partition, with its lemmas in
-- Partition.Split. load.cpp is Load, with its lemmas in Load.Records; dbcreate.cpp and quit.cpp
-- are Catalog.Bootstrap. print.cpp is Print and help.cpp Print.Help; a call that prints runs on a
-- Screen, the state with the bytes that were printed. Print.Table and Print.Columns have lemmas on
-- the table. error.cpp is Message.
--
-- What lies outside the repository is a parameter. Platform stands for the calls of the operating
-- system and for the views that C++ casts give of a block of memory; its laws are those of a
-- struct in memory, and ReadsBack is what POSIX says of a read after a write; Apart of
-- Buffer.Map.Disk says that the File objects that are open are of different files, as the table of
-- open files sees to for names. The sign of a difference of floats, their equality and their
-- conversion to int are parameters where they occur; so are qsort, atoi and atof, the text that
-- printf makes of a float, and the reads of the file that is loaded. The addresses that `new`
-- gives are the numbers from a counter on. An int is a ℤ without a bound, where the source does
-- not rely on wrap-around; hash functions and the comparison of a scan wrap at 32 bits.
--
-- The loop of allocBuf is a recursion on the 2 * numBufs scans that it makes at most. The loops of
-- HeapFile.Scan take fuel, for the pages and records that they pass, and return `none` when it
-- runs out, as do the loops over a scan or a file in Catalog, Sort, Query, Partition, Load and
-- Print, one unit for each row, run or record: those that pass a row at each turn need one unit
-- more than there are rows. The other loops are structural.
--
-- Not modelled: the directory that dbcreate makes, and the other main programs; matchRec of
-- join.cpp, which nothing calls; the debugging output of dumpPage, printSelf and listFree;
-- destructors that only free memory.
--
-- Tests has a platform with files in memory, and the theorems at concrete inputs.
pub mod Common
pub mod Status
pub mod Page
pub mod HashTable
pub mod BufHash
pub mod OpenFiles
pub mod Monad
pub mod Platform
pub mod System
pub mod FileIo
pub mod Buffer
pub mod Db
pub mod HeapFile
pub mod JoinTable
pub mod Catalog
pub mod Sort
pub mod Query
pub mod Partition
pub mod Load
pub mod Print
pub mod Message
mod Tests
