-- ===== src/Lib.antt =====
-- Verification library of offckb, a command line tool that runs a CKB devnet and Fiber nodes on it.
--
-- The parts, and how they interact. The devnet configuration editor reads ckb.toml and
-- ckb-miner.toml, lets a user set fields or edit the documents, and saves both. A Fiber environment
-- is started from nodes.yml, which gives each node its configuration; a lock file keeps two
-- processes from changing the environment at a time, and a stop signals the manager process that
-- the PID files and the runtime record name. That manager spawns the nodes, checks that they are on
-- the same chain with the keys and funds of their accounts, and stops them; it may run as a daemon,
-- whose PID file names it. A status is reported, and a clean deletes what a stopped environment
-- left. The configuration of a new devnet is laid down from templates, and that of an old one is
-- migrated. A proxy in front of the node writes a log of events, and a client subscribes to the log
-- of the node. The logs of the devnet are filtered and followed. A devnet can be forked from a
-- public chain, where signing is guarded.
--
-- Files and the code that they model:
--   Base           shared names; Text is a list of UTF-16 units with the methods of String
--   Value          values of parsed documents; Value.Paths is getByPath and setByPath of
--                  src/devnet/config-editor.ts
--   ConfigEditor   src/devnet/config-editor.ts: Inputs (validateHostPort and the readers of typed
--                  text), FieldEdits (constructor, getField, setFieldValue, toggleBooleanField),
--                  DocumentEdits (the edits of entries), Entries (getEntriesForDocument), Save
--                  (validateBeforeSave, save, createDevnetConfigEditor)
--   Fiber.EnvLock  src/fiber/env-lock.ts: acquireEnvLock, releaseEnvLock, isEnvLockHeld as functions
--                  on a World; Race runs the same calls one at a time for two processes, Exclusion
--                  runs whole operations of any number of processes
--   Fiber.Paths, Fiber.Nodes, Fiber.NodeConfig
--                  src/fiber/paths.ts (ports and accounts), nodes-yml.ts and config-gen.ts
--   Fiber.StoreLock, Fiber.Stop
--                  src/fiber/store-lock.ts, and stopFiber, stopManagerAndCleanup and
--                  assertNodeStopDoesNotOrphanFiber of src/fiber/daemon.ts
--   Fiber.Start    startFiberDaemon and failFiberDaemonStartup of src/fiber/daemon.ts
--   Fiber.Manager  src/fiber/manager.ts: stopFiberNodes; Checks (waitForAllNodeInfo and what is
--                  checked of the nodes), Starting (startFiberEnvironment)
--   Fiber.Accounts, Fiber.Clean, Fiber.Status
--                  src/fiber/accounts.ts, clean.ts and status.ts
--   Daemon         src/util/daemon.ts: PidFiles, Waiting (waitForProcessExit), Processes
--                  (getProcessInfo on each platform, splitCommandLine), Identity
--                  (verifyDaemonIdentity)
--   Chain          src/node/init-chain.ts: Lines (findRpcSection), Terminal and Listening (the edits
--                  of ckb.toml), Migrating (migrateLegacyDevnetRpcConfig, initChainIfNeeded)
--   Proxy          src/tools/proxy-events.ts: EventLog (createProxyEventLog), Bodies
--                  (handleProxyRequestBody, handleProxyResponseBody)
--   Subscription   src/devnet/log-subscription.ts: the messages, Addresses (parseTcpListenAddress),
--                  Client (subscribeToNodeLogs)
--   Logs           src/devnet/log-file.ts: filterLinesByTarget, tailLines, followLogFile
--   Fork           src/devnet/fork.ts: the patches and assertOffckbDevnetStopped, Genesis (the hashes
--                  that ckb prints), Forking (forkDevnet); and validateMainnetForkSigning of
--                  src/util/fork-safety.ts
--   Validators     normalizePrivKey and validateUdtAmount of src/util/validator.ts, and
--                  isVersionAtLeast of src/tools/ckb-debugger-install.ts
--
-- State is a record that an operation takes and returns, an exception is an error of a Result, and
-- what is written to the disk or sent to a process is a list of effects. An error carries which
-- throw it is, not the whole message. A function of the source keeps its name, in lower case with
-- underscores; helpers are named for the branch that they are.
--
-- Third-party and platform code is a parameter: Number, URL and the TOML library are the record
-- Platform, JSON is Json, js-yaml is Yaml, the streaming decoder is Decoder. What a theorem needs of
-- them is a hypothesis (IsJson, RoundTrips, IsStreaming), and a run in a module Tests gives a
-- function for which it holds. What the system answers to a signal, a poll or a call of the file
-- system is an input, given for each call.
--
-- Bounds and fuel. Loops are structural, except the print of a decimal, whose fuel is one more than
-- the number, the attempts of acquireEnvLock, which are the two of the source, the words of a
-- command line, whose fuel is its length, and the polls of a wait (Daemon.Waiting, Fiber.Start,
-- Fiber.Manager.Checks). A wait has a timeout in milliseconds, and as time passes between two polls,
-- one poll more than the milliseconds is enough.
--
-- Not modelled: input and output around the parts, the spawn of a process and the signals that reach
-- the program itself, errors of the calls in acquireEnvLock other than that the lock file is there,
-- the copy of the files of a chain, the commands, the terminal screens, the
-- templates, the installs, and the transactions, which a third-party library builds. An object has
-- its own keys only, apart from the test of a new key against the inherited names, and toLowerCase
-- changes ASCII letters only.

pub mod Base
pub mod Value
pub mod ConfigEditor
pub mod Daemon
pub mod Fiber
pub mod Chain
pub mod Proxy
pub mod Subscription
pub mod Logs
pub mod Fork
pub mod Validators
