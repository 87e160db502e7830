-- ===== src/Lib.antt =====
-- Apex edits and runs code on a remote host. A client on the developer's machine (client/core)
-- talks over an SSH pipe to an engine on the host (engine), in frames that both share (protocol).
-- This library models the parts of the three crates that decide things, without the processes,
-- descriptors, threads and stores around them, and proves what makes them correct.
--
-- The parts, the files that model them, and how state and operations correspond:
--   Prelude    lists, texts, orders, `BTreeMap` as a list sorted by its keys (Map), UTF-8 and decimal
--              numbers as the standard library reads and writes them
--   Protocol   Framing is `FrameCodec` of protocol/src/framing.rs: `encode`, and `decode` from a
--              buffer to a result and the buffer that is left. Base64 is protocol/src/base64.rs.
--              Wire is what protocol/src/wire.rs says of git.
--   Engine     Watch is `WatchSet` and Event the events of engine/src/domain/watch.rs; TaskSet is
--              engine/src/domain/task.rs; Output is `Chunker` and `RetainedOutput` of
--              engine/src/application/output.rs; Coalescer is engine/src/application/coalescer.rs,
--              which turns the events of the watched directories into batches for the client.
--              Exclusions is engine/src/application/exclusions.rs, with the matching of patterns in
--              Glob. Path is engine/src/domain/path.rs. Of engine/src/application/use_cases:
--              GitCoalescer and GitPager are git_status.rs, Workspace, Listing and Reading workspace.rs
--              (the registry of roots, which asks Path for a root and Exclusions for its set, the
--              conditional write, the pages of a directory, and the reading of a file in ranges),
--              Tasks is task.rs (over TaskSet, Workspace and Path). GitOutput is what
--              engine/src/adapters/outbound/git_cli.rs reads from the output of git status, git
--              log and git diff.
--   Client     SendQueue is client/core/src/adapters/outbound/openssh/sendq.rs; Layout, Rail and
--              Session are the files of those names in client/core/src/domain; RelPath is the type
--              of client/core/src/domain/workspace.rs; Supervise is supervise.rs of
--              client/core/src/application/use_cases with client/core/src/domain/failure.rs; Status
--              is connection.rs and cache.rs of client/core/src/domain. Ports is what the use cases
--              ask of the host and the store (client/core/src/application/ports); Reconcile is
--              reconcile.rs and retain_edit.rs, and Conflicts conflicts.rs, of
--              client/core/src/application/use_cases.
-- A method that changes its object is a function from the state to the new state and the result.
-- A state's children modules hold the proofs, and Tests the runs on concrete inputs.
--
-- Numbers are natural numbers. A `u64` of milliseconds, a sequence number and a count of bytes are
-- not taken modulo 2 ^ 64: they would have to run for longer, or hold more, than any machine. The
-- one conversion that cuts, `as u32` in the session, and the sums of two `u32` of a hunk are written
-- out. A subtraction that saturates in the source is the subtraction on natural numbers.
-- Fuel: the loop that cuts a read into chunks of
-- 64 KiB has the number of bytes, since each round takes a whole chunk; the loop of `glob_flat` has
-- enough for each place of its mark with both texts to go through; `glob` has
-- the length of its pattern, which each call shortens; the walk over the ignore files has the depth
-- that the source stops at; a client that follows cursors has one round more than there are entries.
--
-- Code outside the repository, and what runs outside the model, is a parameter: the answers of git,
-- of the file system, of the runner of processes, and the state of the world behind them, which the
-- calls pass on; `serde_json`, of which the model asks which texts it accepts and how long a text
-- becomes; SHA-256; the three-way merge; and a product with a floating point number, of which only
-- the bound counts. The local store is a parameter of the offline work, with the documented behaviour
-- of its rows as a hypothesis.
--
-- Not modelled: `Uuid::new_v4`, whose identity is an argument; system calls, processes, threads,
-- SQLite, the dispatch of requests, the transport and the user interface.
pub mod Prelude
pub mod Protocol
pub mod Engine
pub mod Client
