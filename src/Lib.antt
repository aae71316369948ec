-- ===== src/Lib.antt =====
-- Models of peer-deploy, an agent that joins a peer-to-peer network, takes signed deployments from
-- its owner, and runs their components and jobs.
--
-- The parts of the program and the files that model them:
--   * crates/common/src/lib.rs, the types that all parts share: Common. `JobInstance` and its life
--     cycle are in Common.Job, `ComponentSpec::matches_target` in Common.Component, the signed
--     messages in Common.Signed.
--   * crates/agent/src/job_manager.rs, the table of jobs: JobManager. Its state and file are in
--     JobManager.State, its methods in JobManager.Operations, the queries in JobManager.Listing,
--     the recurring jobs in JobManager.Schedule, the messages of other nodes in JobManager.Sync.
--   * crates/agent/src/storage/mod.rs, the store of blobs under their digests: Storage.Store. The
--     messages `StoragePut` and `StoragePutChunk` of crates/agent/src/p2p/mod.rs, which fill it:
--     Storage.Chunks.
--   * crates/agent/src/supervisor.rs, the replicas of components: Supervisor, with the counters of
--     crates/agent/src/p2p/metrics.rs in Metrics. Its restoration at startup is in
--     Deploy.Restore, since it reads the files of the deployments.
--   * crates/agent/src/p2p/handlers, the deployments: Deploy.Push, Deploy.Apply and Deploy.Upgrade,
--     on the files of crates/agent/src/p2p/state.rs in Deploy.State. They hand the components to the
--     supervisor, and an upgrade passes its binary through the sniffer.
--   * crates/agent/src/p2p/mod.rs, the event loop: P2p.Submit is the handler of `SubmitJob`,
--     P2p.Status that of the status messages with the cache of their ids, P2p.Broadcasts the queue
--     of those that wait for acknowledgements, P2p.Content the exchange of blobs, P2p.Roles the roles
--     of the node, P2p.Sync the messages that spread the table of jobs, P2p.Select the selection for
--     pushes and upgrades. The handlers call the job manager, the store and the deployments.
--   * crates/agent/src/p2p/jobs.rs and its neighbours jobs_wasm.rs, jobs_native.rs and jobs_qemu.rs,
--     the runs of jobs: Execution. What a run works on is in Execution.Site, the fetch and the checks
--     of its bytes in Execution.Staging, the three runtimes in Execution.Runs, the two kinds of run in
--     Execution.Jobs, the policy of crates/agent/src/policy.rs in Execution.Policy. A run calls the
--     job manager and the store; the artifacts that it leaves are staged by JobManager.Artifacts.
--   * crates/agent/src/p2p/handlers/util.rs, the sniffer of executable formats: Binary.
--   * crates/agent/src/cmd/upgrade.rs and push.rs, the commands of the owner: Cli.Upgrade and Cli.Push. What
--     they publish is what the handlers of the event loop take.
--   * crates/agent/src/web, the management interface: Web.Sessions is who may use it, and Web.Components the stop of
--     a component, on the supervisor and the manifest.
--   * Prelude: tests, lists, maps, results, decimal text and stable sorting.
--
-- A definition has the name of its function in the source; a helper is a part of one function. A
-- method that changes state takes the state and returns it. A panic is `none`, an error is a value.
-- The clock, the success of each write to the disk, and the libraries outside the repository
-- (base64, ed25519, sha2, serde_json, toml, cron, the fetch of a URL) are arguments. A file is held
-- as its value: what is written is read back. A failed write of a blob may leave a part of it, one of
-- jobs.json anything; the other files are taken to keep their old value. The handler of `SubmitJob`
-- has the other tasks between its calls of the job manager; the other handlers are single steps.
-- Every loop runs over a list or down from a count, so no fuel is needed. Integers are natural
-- numbers; 64-bit counters that wrap have the remainder written out, and `usize` has 64 bits, as in
-- the offset of a PE header that the sniffer adds to. The text of a rejected upgrade is its fixed part.
--
-- The paths of the blobs and the other files are apart, but for the destinations of attachments, which
-- may lead into the store: `blob_at` of Execution.Site tells which. Artifacts and what a program
-- writes are outside of the store.
--
-- Not modelled: log lines, the libp2p network and the rest of the event loop, what a WebAssembly
-- module or a process does while it runs, the rest of the web interface and the other commands.
pub mod Prelude
pub mod Binary
pub mod Common
pub mod Cli
pub mod Deploy
pub mod Execution
pub mod JobManager
pub mod Metrics
pub mod P2p
pub mod Storage
pub mod Supervisor
pub mod Web
