-- ===== src/Lib.antt =====
-- Models and proofs for the core library of git-branch-manager, a desktop client for git. The core
-- turns git's output into values for the application: the commit graph with its lanes, parsed
-- diffs and patches made from selected lines, the working copy's status, conflicted files and the
-- paths in conflict, and it queues the operations that write and schedules the refreshes. A refresh
-- (Workers) starts a walk, the walk adds commits to a graph (Graph); a diff that is read (Diff) is
-- shown in two columns and turned into patches for staging; a file with conflict markers
-- (Conflict) is split into regions and assembled again.
--
-- Base: shared names, tests on numbers, lists, byte strings, decimal numbers.
--
-- Workers/Debouncer (src/core/workers/Debouncer.h), Workers/RefreshCoalescer
-- (src/core/workers/RefreshCoalescer.h) and Workers/StartupReadGate
-- (src/core/workers/StartupReadGate.h): one record for each class and one function for each
-- method, which gives the new object and the result. RefreshCoalescer/Delivery and /Burst and
-- StartupReadGate/Once hold the theorems.
--
-- Diff/Types, Diff/Scan, Diff/Paths, Diff/Range and Diff/Parser: `UnifiedDiffParser::parse` of
-- src/core/git/UnifiedDiffParser.cpp with its helpers. Diff/Patch and Diff/LineSelection:
-- `buildHunkPatch` and `buildLineSelectionPatch` of the same file. Diff/SideBySide:
-- src/core/git/SideBySideDiff.cpp. The modules below each of them hold its theorems;
-- LineSelection/Applied says how `git apply` reads a patch, its no-newline markers included.
--
-- Conflict/Markers: `parse` and `assemble` of src/core/git/ConflictMarkerParser.cpp; a read past the
-- resolutions or through a null pointer is the value `none`. Markers/WellMarked says how git marks
-- a file. Conflict/Batch: src/core/git/ConflictBatch.cpp.
--
-- Text/Traits: src/core/git/TextTraits.cpp. `collapseCarriageReturns` keeps the current line apart
-- from the finished ones, which its `lineStart` tells apart in `out`.
--
-- Graph/ObjectId (src/core/base/ObjectId.h), Graph/Types (src/core/graph/GraphSnapshot.h),
-- Graph/LaneAllocator and Graph/LaneColor (src/core/graph/LaneAllocator.h), Graph/Pending,
-- Graph/Builder and Graph/Builder/Finish (src/core/graph/GraphBuilder.cpp). `add` is composed of
-- `settle` (the map of waiting edges, the lane, the edges that end here), `push_row` and
-- `open_edges`. Builder/Live, /Steps, /Adds and /Walk are about the lanes, Builder/Edges and
-- /Downward about rows and edges.
--
-- Graph/Snapshot (src/core/graph/GraphSnapshot.cpp): the indices of a snapshot and its queries. A
-- stable sort is an insertion sort and a binary search a search from the front.
--
-- Errors (src/core/base/Error.cpp) and RepoState (src/core/git/RepoState.cpp): the classification of
-- git's error text, and the operation in progress as read off the files of a repository.
--
-- Operations (src/core/git/OperationRunner.cpp): `execute` is one operation from its first check to
-- its outcome, Operations/LockWait the wait for another git process, Operations/Queue the shared
-- state of a runner with one function for each critical section. Queue/Steps is the relation of
-- their interleavings, Queue/Fifo and Queue/Withdrawn are about its runs.
--
-- WorkingCopy (src/core/git/WorkingCopyStatus.cpp): the entries and the parser of a status.
-- WorkingCopy/Expansion, /Numstat and /LineCounts are the helpers of the reader, WorkingCopy/Read
-- composes them. A read feeds Conflict/Batch with the conflicts and the application with the rest.
--
-- Refs and Refs/Names (src/core/git/RefStore.cpp): the refs, HEAD, and the names that a walk starts
-- from, which Workers and Graph are fed with.
--
-- Transfer (src/core/git/TransferProgress.cpp): the meter of a running fetch, of which Transfer/Latest
-- says what is read.
--
-- The answers of processes, of the file system and of the clock are arguments: the records
-- `Environment`, `Rounds`, `Disk`, `Files`, `World` and `RefAnswers`.
--
-- Loops are structural recursion over the list that the source iterates over, so no fuel is
-- needed; the wait for a lock is on fuel, one round for each 20 milliseconds that it may last and two
-- more; the two loops with a counter (the search for a free lane, the probe of the colours) are
-- recursion on the number of steps left, 64 less the start and 11. Counters of lines, the
-- generation of a refresh and the count of overflowed edges wrap as in the source; row and edge
-- numbers are unbounded, since the row cap keeps them in range. A string is the list of its
-- bytes. Time is an argument.
--
-- Not modelled: processes, files, threads and SQLite, which are the operating system's and
-- libraries'; the C API and the Flutter application, which carry values over; the command lines of
-- the single operations; the parsers of commit metadata, reflogs and blame.
pub mod Base
pub mod Conflict
pub mod Diff
pub mod Errors
pub mod Graph
pub mod Operations
pub mod Refs
pub mod RepoState
pub mod Tests
pub mod Text
pub mod Transfer
pub mod Workers
pub mod WorkingCopy
