-- ===== src/Lib.antt =====
-- The Zyguor agent execution gateway, a program in Rust under src/: an agent asks it over MCP to
-- carry out an operation, a policy allows, blocks or holds the operation for a human review, and
-- an operator approves or rejects what is held over a local socket. Every decision is written to
-- an audit log, and the requests that wait survive a restart in a state file.
--
-- Files:
--   Base            Boolean tests, equality, results, lists, association lists for HashMap, and
--                   the methods of str and Path that the program calls
--   Execution       src/execution.rs
--   Policy          src/policy.rs and CapabilityPolicyConfig of src/config.rs
--   Config          src/config.rs: Validate (the two validate methods), Parse
--                   (parse_gateway_config_toml and its like); Hosts, Bounds, Resolve,
--                   Settings and Merged have the proofs
--   Http            src/http.rs (Destination) and src/http_execution.rs (Outbound: the address
--                   filter; Body: bounded reading, also of src/cargo_test.rs); Url is the part of
--                   the url crate that is called
--   PendingReview   src/pending_review.rs: Persisted and State (the state file's text), Disk (the
--                   atomic save), Load, Store (the operations on PendingReviewStore); Clean,
--                   Roundtrip, Loaded, Commit and Recovery have the proofs
--   Workspace       the agent's workspace as a tree: Order (of paths), Fingerprint
--                   (src/workspace_fingerprint.rs), Snapshot (src/workspace_snapshot.rs); Listing,
--                   Distinct, Copied, Named, Turns and Approved have the proofs
--   CargoTest       CargoTestExecutor::run of src/cargo_test.rs: the snapshot, its comparison, the
--                   child process and its capture files; Polling, Cleanup and Snapshotted have the
--                   proofs
--   Files           src/filesystem.rs: Resolve (the paths that a request may name), Access (the
--                   operations through the anchored directory); Confined, Written and Reread have
--                   the proofs
--   Gateway         src/main.rs and AuditRecord::new of src/audit.rs: Types, Request
--                   (build_execution_request), Evaluate (evaluate_request_with_config and
--                   revalidate_pending_request_with_config), World (state and outside), Audit,
--                   Review (execute_reviewed_action and the claimed executions), Action, Admin
--                   (handle_admin_command_with_config), Command (handle_admin_connection),
--                   Message (execute_message_with_audit_id), Execute
--                   (execute_request_with_config)
--   Examples        concrete data and the theorems applied to it
--
-- How the program is modelled. A Uuid and an i32 are numbers, the latter its bit pattern; a
-- Duration is its milliseconds. A HashMap is an association list, whose order stands for the
-- unspecified order of iteration, and statements on it are about lookups. Fallible functions
-- return Result with the source's messages. The store is explicit: an operation maps the store
-- and the directory (Durable) to new ones, and the answers of each system call of a save are an
-- argument (SaveIo), so that theorems quantify over every failure. The handlers of src/main.rs
-- run on a World, which has the store, a journal of what reached the audit sink or ran, and a
-- counter of calls; Env gives what the clock, the locks, the sink, the workspace and the runners
-- answer at each count. The journal says only what was handed to the sink and what it answered.
--
-- Loops are recursion on the list that they consume (the reviews, the allow-list, the resolved
-- addresses, the answers of a reader); the one loop on fuel is named below. A handler runs as one
-- sequence of steps: other threads act between the calls only through the answers of Env, and not on the store.
--
-- The workspace is a tree that does not change during one walk over it, whose entries stand in the
-- order of read_dir and carry the errors of the system calls on them. A write through the anchored
-- directory acts on the entry at the requested path and on the temporary file. Command models the
-- operator's socket from the peer check to the answer. The loop of CargoTestExecutor::run is
-- recursion on fuel: a poll every 25 milliseconds, so that timeout / 25 + 2 polls are enough.
--
-- Parameters, since their code is not here: serde_json, toml, uuid, the url crate, std::net's
-- resolver, SHA-256, UTF-8, wasmtime, reqwest, git, and the operating system. The handlers of the
-- gateway take the answers of the workspace and of the runners as the fields of FileSystem, Env
-- and Runners. Not modelled: src/git.rs and src/sandbox.rs, HttpExecutor, and the file part of
-- src/audit.rs, which are calls of those; validate_operational_state_path, the socket's set-up,
-- startup and shutdown.
pub mod Base
pub mod Execution
pub mod Policy
pub mod Http
pub mod Config
pub mod PendingReview
pub mod Workspace
pub mod CargoTest
pub mod Files
pub mod Gateway
pub mod Examples
