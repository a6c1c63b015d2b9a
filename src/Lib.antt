-- ===== src/Lib.antt =====
-- The lifecycle of jobs in RunBeacon, as written in src/lifecycle.
--
-- RunBeacon's daemon runs commands as jobs, on this machine or over SSH, and lets a client wait for
-- them. src/lifecycle/LifecycleManager.ts is its core: it queues jobs, holds those that need approval,
-- runs a limited number of them, keeps a bounded tail of their output, settles the promises of those
-- who wait, and writes the jobs to a store. The files here are named for its parts:
--   Types            src/lifecycle/types.ts: the records and enums
--   Output           boundOutputChunk and trimOutputBuffer
--   Waits            waitForTerminal, the wait coordinators, their timers
--   Manager          the state of LifecycleManager as one record
--   Manager.Effects  append, touch, changed, finish, persistNow, pruneHistory
--   Manager.Queue    approve, rejectApproval, approvalContext, cancel, scheduleDrain
--   Manager.Start    start
--   Manager.Watch    watchForChange, dispose, list, normalizeOutputPolicy
--   Manager.Target   publicTarget
--   Manager.Assess   assess
--   Manager.Run      drain, run, completeExecution, and the ends of a run
--   Manager.Safety   the invariant of the scheduler and the allowed moves of a job
--   Manager.Events   the events of a manager as a step relation
--   Policy           src/lifecycle/PolicyEngine.ts: classify, update, load
--   Manager.Restart  the constructor: what becomes of the jobs of the store
--   Manager.Runner   runSshJob, runRunner, watchRunnerJob, recoverRunnerJob, runnerRetryDelay
--   Store            src/lifecycle/JobStore.ts: serialize and normalizeJob
--   Store.Journal    its snapshot and journal: load, save, replayJournal, and crashes between
--   Audit            src/lifecycle/AuditLog.ts: append, readVerified, query
--   GitPush          src/lifecycle/GitHubPublish.ts: retryGitPush
--   GitHubApi        src/lifecycle/GitHubApiClient.ts: getJson, resolveGitHubProxy, matchesNoProxy
--   GitHubActions    src/lifecycle/GitHubActionsMonitor.ts
--   Eligibility      src/lifecycle/GitHubWorkflowEligibility.ts
--   Subscriptions    src/lifecycle/EventSubscriptionStore.ts: list, save, delete, validateIds, load
--   Daemon           src/daemon/lifecycle-daemon.ts: handle and the shutdown, over the manager
--   Daemon.Build     src/lifecycle/BuildIdentity.ts: the order of build versions
--   Daemon.Client    src/lifecycle/DaemonClient.ts: ping, ensureReady, waitForTerminal, request
--   Transport        src/lifecycle/RunnerTransport.ts: call, execute, the probe of host keys
--   Base, Tests      shared helpers; runs of the theorems on concrete states
--
-- The methods that run a job on a runner are run to their end over a list of replies of the transport;
-- with each reply comes what other calls did to the manager meanwhile, an arbitrary function. They wait
-- where the list ends. The job store's files are a value; a save is cut between its two writes, and a
-- line of the journal is the record that it parses to, or none.
--
-- The manager asks the policy whether a command needs approval, and writes what happens to the audit
-- log; `start` takes the policy's decision as an argument.
--
-- An operation takes the time and its arguments and gives the next state, together with its result
-- where it returns one; a throw is an error value beside the state as it was written so far. A method
-- is cut at its `await`s: what comes after one is an operation of its own, such as `run_completed`.
-- Ids, UUIDs in the source, are natural numbers; times are milliseconds; texts are lists of UTF-8
-- bytes. A Map is a list of pairs in the order of insertion, which `insert` keeps for a key that is
-- there. A promise is an entry in a log of settlements. Whether the audit log and the job store throw
-- is a flag of the state, which no operation sets. Regular expressions and SHA-256 are parameters.
--
-- The loop of trimOutputBuffer runs on fuel, one more than the number of chunks; each round drops a
-- chunk or is the last one, and the theorem on it shows that the result is within the limit, which no
-- run that was cut short could be. retryGitPush, getJson and the loop of runRunner that submits count
-- down the attempts that are left, ensureReady and replaceOlderDaemon their 50 rounds. All other loops
-- run over a list that is there when they start.
--
-- What comes from outside is a list: the replies to the pings of a client, the events of a socket or
-- of an SSH connection, the rounds of a loop with the times that it reads. Where the list ends, the
-- code waits; the theorems on termination say how long a list is enough. The monitor and the
-- eligibility of workflows call `get_json` as it is modelled; a client's ping meets the daemon's
-- `handle`.
--
-- The events of Manager.Events start from a manager without jobs, or from one that satisfies the
-- invariant. They leave out the recovery of runner jobs after a restart, which Manager.Runner has by
-- itself, and which does not test the limit on active jobs.
--
-- Not modelled: the processes and SSH sessions that run a job (runLocal, runSsh), the configuration of
-- an SSH connection, the progress parser, the event emitter, the dispatch of event subscriptions, the
-- daemon's framing and its requests of the waits, the policy, the audit log and the subscriptions, and
-- the other files of src: the MCP server, the command line, the publish runner, the credential and
-- profile stores. They are mostly input and output around what is modelled.
pub mod Base
pub mod Types
pub mod Output
pub mod Waits
pub mod Manager
pub mod Policy
pub mod Audit
pub mod GitPush
pub mod GitHubApi
pub mod Store
pub mod Subscriptions
pub mod Tests
pub mod GitHubActions
pub mod Eligibility
pub mod Daemon
pub mod Transport
