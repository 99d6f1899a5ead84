-- ===== src/Lib.antt =====
-- The Everwas agent (agent/internal): the Go program that runs on a managed host and does what the server
-- asks over NATS. This library models the parts that decide something; the server (server), the web
-- console (web) and the sites are not modelled.
--
-- How the parts interact. The server sends jobs, schedules, shell input and updates. An id that it names
-- becomes a token of a NATS subject, so wire checks it first. jobs takes a slot for a job and runs it by its
-- kind: scripts runs a process and hands its output back in chunks, patch installs packages, update replaces
-- the agent's binary; each ends with one result, and only then may the process be asked to restart. sched
-- keeps the schedule and starts the same jobs while the host is offline. shell keeps the live sessions; a
-- session keeps its output in a ring during an outage and throttles its reader by what is in flight.
-- update replaces the agent's own binary, and the next start of the agent decides whether to put it back.
--
-- Base: what the modules share (the Boolean tests, lists, 64-bit integers, instants, byte texts, decimal
-- numbers), for what Go's language and standard library give the agent.
--   Base/Int: int64 with its wrap-around; an instant is a number of nanoseconds since the zero instant, and
--   `time_sub` saturates like `Time.Sub`.
-- Wire (agent/internal/wire):
--   Identifier: ValidIdentifier and CheckIdentifier of identifier.go; Subjects: subjects.go;
--   MsgId: the ULID ids of msgid.go, with the clock and the random bytes as arguments; the source has no decoder,
--   so the one the text is read back with stands in MsgId/RoundTrip.
-- Shell (agent/internal/shell):
--   Ring: the ring of ring.go, its fields and the wrap of its write position; Flow: flowController of
--   flow.go, one step for each of its methods, with the gate that a reader waits at; Session: the handlers
--   and the monitor of session.go over the two, one step each, with the link's answers in a record (a frame
--   takes a byte at least, so as many rounds as bytes are enough); Module: Module of shell.go.
-- Scripts (agent/internal/scripts):
--   Chunk: chunkSink of chunk.go. A write loops on fuel, enough of it since each turn sends at least a
--   byte where the chunk size is not 0; the publisher is a function that refuses chunks. Job: JobSpec,
--   Result, result, reasonBox and jobTimeout of runner.go; Env: env.go; Interp: interp.go and its two
--   tables; Stage: safeName of stage.go; Runner: Run and execute of runner.go as the list of what they do,
--   in order, with the answers of the operating system in a record, Host; Running: the map of running jobs,
--   Cancel and Running, over the handles that it shares with the jobs; Publish: publishAck and the
--   publishing of jobs without a process of publish.go.
-- Jobs (agent/internal/jobs):
--   Inflight: the registry of inflight.go and what consumer.go does with a delivery. A caller of reserve
--   waits between two critical sections, so the steps of all callers are a relation, Step. Effects: what a
--   handler does, in order; Patch: patch_wire.go, with the package manager and the decoder of JSON as
--   parameters; Update: update_wire.go, with the pipeline as a parameter that Update/Restart fills with Apply;
--   Dispatch: execute and runJob of jobs.go, with a panic after any number of effects; Commands: commands.go
--   over the registry, Shell/Module, Scripts/Running and Sched/Queue, one message after the other.
-- Sched (agent/internal/sched):
--   Misfire: decideMisfire and lastMissed of misfire.go and Jitter of jitter.go; Queue: Scheduler of
--   sched.go with its document and its queue. A cron schedule is its Next, a parameter. fireDue loops on
--   fuel; one more than the queue holds is enough. A scan takes at most maxScan steps, as in the source.
-- Patch (agent/internal/patch):
--   Plan: the checks of package names and versions of ids.go and the install plans of apt and pacman;
--   Dnf: the install plan of dnf, with the ids of dnf_parse.go; Install: self.go, and Install of apt_linux.go
--   up to its plan.
-- Update (agent/internal/update):
--   State: State of rollback.go and its pure decisions; Disk: the files that the tracker and the swap work
--   on, and which calls fail (a function the environment chooses); Tracker: the methods of Tracker;
--   Rollback: CheckAndRollback and Report; Watch: the loop over a probation, with the clock, the probe and the
--   context of each turn as a list; Download: download.go, whose HTTP client is
--   a function of the offset that the request asks for; Swap: Swap of swap.go; Verify: verify.go, with base64, ed25519
--   and SHA-256 as parameters; Apply: Apply of update.go, with the network, the helper process and the
--   build's keys as parameters.
-- Netcert (agent/internal/netcert): Phase: Material, PhaseAt and DueForRenewal of netcert.go, with fractions
--   compared exactly where the source has float64; Renewal: saveAll, Save and Load, and Request and ensure of
--   request.go, on Unix, with the parser of certificates, the new key and the HTTP client as parameters.
-- Agentcore (agent/internal/agentcore): Supervise: supervise, runRecovered and renewLoop, whose turns under
--   the supervisor take fuel, one more than the events; Certificates: netcertLoop; Link: linkhealth.go,
--   certreport.go and the probe of a new build, which Link/Sticky joins with Update/Watch.
-- Posture (agent/internal/posture): Run, Summarize and the wire statuses of posture.go, over checks that are
--   what their Run does.
-- Winident (agent/internal/winident): Decide and ParseMode of defer.go.
--
-- Conventions. A Go string is a list of bytes; the standard library's text functions are written for
-- ASCII. An error is its kind, without the message for people,
-- except where the message is published (jobs, scripts). A method that holds a mutex for its whole
-- body is one step. A call of the operating system either fails, where the environment says so, and
-- changes nothing, or has its effect; a file that is renamed into place is put there whole.
--
-- Not modelled: processes and PTYs, the NATS connection and envelopes, the
-- state file of the schedule, the posture checks, the inventory, the
-- stores of keys and certificates, the runs of the package managers, and the code of each operating system.
pub mod Base
pub mod Wire
pub mod Shell
pub mod Scripts
pub mod Jobs
pub mod Sched
pub mod Patch
pub mod Update
pub mod Winident
pub mod Netcert
pub mod Agentcore
pub mod Posture
