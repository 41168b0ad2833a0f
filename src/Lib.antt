-- ===== src/Lib.antt =====
-- A Snowflake emulator over DuckDB, in Go: statements are sent by sessions, run in virtual
-- warehouses and are recorded in a history. This library models the three managers that keep the
-- state of the emulator, with the tables behind them, the identity service with its tables, the
-- catalog of databases, schemas and tables, and how the kind of a statement is told.
--
-- Warehouse (pkg/warehouse/manager.go, pkg/metadata/warehouse_repository.go): the Manager with its
-- runtime warehouses, the queue of waiters of each, and the table that persists them. Types has
-- the data, Size normalizeName, normalizeSize, validSize and capacity, Admission resume, suspend,
-- admit and releaseLocked, Manager the operations that create, alter and drop warehouses,
-- Execution Acquire, Release, CheckAutoSuspend and NewPersistentManager. Calls runs any sequence
-- of them, from either constructor; Execution.Loading is about the manager that loads its records. Invariant, Manager.Sound and Execution.Sound are about what holds between calls,
-- Admission.Batch describes the admission loop, Execution.Grants the outcomes of Acquire,
-- Manager.Suspension what SuspendWarehouse does to those who wait.
--
-- Statement (pkg/query/statement_manager.go, pkg/metadata/statement_history.go): the
-- StatementManager over any HistoryStore, and the history table as one. Redact is
-- RedactSensitiveSQL (pkg/query/identity_processor.go), Listing the listings that merge memory and
-- history. Calls runs any sequence of operations; Cancellation, Invariant, Merging and Recording
-- have the theorems.
--
-- Session (pkg/session/manager.go, pkg/session/store.go): the Manager with its index by token and
-- its index by master token, and the table of sessions. Manager.Stable says what a property needs
-- to survive every operation, Index and Closing use it for the indexes, Manager.Revocation for
-- logout; Manager.Renewal is about new tokens.
--
-- Identity (pkg/identity/service.go, pkg/metadata/identity_repository.go,
-- warehouse_privilege_repository.go, object_privilege_repository.go): users, roles, the grants
-- between them and privileges. Types has the data, with the tables as one Catalog; Repository the
-- transactions and queries, Repository.Privileges those of privileges, Repository.Bootstrap
-- BootstrapIdentity; Search the recursion `visit` through the role grants; Service, Roles and
-- Authorize the operations of the service. Search.Reach says when a role inherits another,
-- Search.Exact and Roles.Effective compare the search with it, Authorize.Inherited the
-- authorization, Hierarchy and Hierarchy.Refusal are about cycles, Roles.Active about the role of a
-- session, Login about passwords. Integrity says what a sound catalog is, its children follow
-- single transactions, Integrity.Calls runs any sequence of calls, Integrity.History and
-- Integrity.Start have the theorems on calls and on the bootstrap.
--
-- Metadata (pkg/metadata/repository.go, object_privilege_repository.go): databases, schemas, tables,
-- stages and file formats, each a list of rows, and the schemas and tables of DuckDB that the
-- operations make and drop. Namespaces has databases and schemas and the deletion of privileges with
-- an object, Objects and Tables the tables, Stages stages and file formats; Streams and Tasks have
-- the rows of stream_repository.go and task_repository.go, with runs of their calls in Offsets and
-- States. Likeness and Similarity are about the privileges that go with an object, without and with
-- underscores in its name, Dropping about dropped tables, Columns about the stored text of column
-- definitions, Creation about what was created.
--
-- Sql (pkg/query/classifier.go): the comments before a statement and the tests on its first words.
-- Comments.Rounds is about the loop over comments, Transactions about transaction control.
-- Classify itself, which reads WITH clauses too, is not modelled.
--
-- How the code is read. A text is the list of its character codes, upper case and white space are
-- those of ASCII. An instant or a duration is a number of nanoseconds from 0, and the clock is
-- read once for each critical section, so that a call takes the present instant as an argument;
-- products of seconds with 10^9 are taken to stay below 2^63. Random tokens, UUIDs and the success
-- of the database are arguments too. A Go map is an association list, its order the order of
-- iteration. A statement of the database is executed or fails, and one that fails, or a
-- transaction that is rolled back, changes nothing. A pointer that is shared, to a waiter or to a
-- session, is a number into a heap. The function in a statement that cancels a context is the
-- number of that context. sort.Slice is an insertion sort, of which only order and contents are
-- used.
--
-- A table is the list of its rows, in the order of their insertion, and a NULL in a text column is
-- the empty text, as the queries read it. `up i` of a call says whether the database executes the
-- i-th repository call of an operation; a repository call that reads and writes is one transaction.
-- bcrypt is two arguments, what it makes of a password and what it accepts, and the
-- UUIDs are arguments too. The query WITH RECURSIVE for the ancestors of a role is the search of the
-- service through the grants turned around, since UNION keeps each row once.
--
-- SQL's LIKE is a function on texts. A DDL statement of DuckDB that is executed adds a name to its
-- schemas or tables unless it is there, or removes it; what it refuses counts as not executed.
--
-- An operation that gives up its lock is one function for each critical section: Acquire is
-- `acquire`, then `receive` or `cancel`. ValidateSession is taken without a call in between, as
-- are the sections of CreateAuthenticatedSession, and the record of a statement in the history
-- follows its critical section at once. The loop over leading comments runs on fuel, one round
-- more than the text has characters: every round but the last takes one away. The search through
-- the role grants runs on fuel for its depth, one more than there are grants: each nested call adds
-- a child of a grant that was not in the set yet. All other functions are structurally recursive.
--
-- Not modelled: the goroutines that call cleanup and CheckAutoSuspend at intervals, the callback
-- of a queued statement, logging, the translation and execution of SQL, the statements about users
-- and roles, the HTTP server, the files of stages, the query history, dynamic tables, the
-- execution of tasks and streams, and stored procedures.
pub mod Base
pub mod Warehouse
pub mod Statement
pub mod Session
pub mod Sql
pub mod Identity
pub mod Metadata
