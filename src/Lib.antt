-- ===== src/Lib.antt =====
-- sonarr-remediator watches the queue of a Sonarr instance and repairs what is stuck there: it imports a
-- finished download that improves the library, or removes one that is redundant, unusable or refused.
--
-- A cycle groups the queue by download, observes each download, asks the policy for a decision, waits,
-- and executes at most a few decisions; an executed decision is an attempt in the stored data, which
-- is intended before it is sent, then acknowledged or uncertain, and later verified. The policy decides
-- from one observation alone, the gate decides from the stored attempts.
--
-- The files:
--   Base       Go's integers, times, maps, sorts, tests on texts, and errors as values
--   Sonarr     internal/sonarr/types.go: what Sonarr reports
--   Config     internal/config/config.go: the settings, Defaults and Validate
--   Policy     internal/policy. Observation has the records and the tests on rows and scope, Fingerprint
--              QueueIdentity and Fingerprint, Unexpected the regular expression on rejections, Profile and
--              Compare profile.go, Review the loop of Evaluate over the files, Evaluate the rest of it,
--              Rejected RejectedCleanup
--   Control    internal/control/types.go: manual requests and their reports; Frames and Call have
--              readFrame, writeFrame and Call of internal/control/socket.go
--   State      internal/state: the stored records; Retention has Budget, the status and Prune, Receipts
--              has receipts.go and the recovery at the end of Open
--   Client     internal/sonarr/client.go: one exchange with Sonarr; Pages has pages, Reads the resources,
--              the cache, the mutations, and the Client of the service built on them
--   Service    internal/service: Gate has gate and planGate, Attempts the changes of the store by reserve,
--              response, expirePending and recommend, Client what is read of Sonarr and current of
--              verify.go, Verify the rest of verify.go but the replacement search, which is in Search,
--              Observe has observe and decision, Execute execute, Lifecycle the steps of an attempt, Manual
--              the report of a manual request. The parts of Cycle are Scan (the waiting times of issues, and
--              failed), Plan (the order of the candidates and the plans) and Perform (carrying them out); Cycle
--              composes them with verification and retention. Outcome has the exit code of a request
-- A module below one of these holds what is proved of it: Compare/Upgrades, Review/Steps, Review/Files,
-- Review/Rounds, Evaluate/Intended, Evaluate/Safety, Rejected/Collecting, Rejected/Safety, Frames/Framed,
-- Call/Answered, Retention/Evidence, Receipts/Restart, Pages/Fetched, Pages/Honest, Reads/Cache,
-- Reads/Lawful, Reads/Sent, Gate/Open, Gate/Planning, Attempts/Reserving, Verify/Counting,
-- Outcomes/Removals, Outcomes/Sound, Outcomes/Identity, Observe/Scope, Execute/Fresh, Search/Justified,
-- Search/Life, Scan/Clock, Scan/Counting, Scan/Framed, Scan/Timed, Scan/Published, Plan/Rounds,
-- Scan/Progress, Plan/Sound, Execute/Recorded, Perform/Bounded, Perform/Warranted, Plan/Candidates,
-- Cycle/Kept, Cycle/Bounded, Outcome/Fair, Lifecycle/Exclusive, Config/Valid; a module Tests has concrete inputs.
--
-- How the code is rendered: an `int` is an integer, and `wrap` follows the arithmetic that could leave 64
-- bits; a time is its nanoseconds since the zero time, a difference of times saturates as in Go, while
-- a time moved by a duration does not wrap. A map is an association list with the newest entry first. A
-- pointer is an `Option`. A method that changes the store returns the new one. A text out of a fixed
-- set (a decision's kind, an outcome, the state of an issue) is a data type whose last constructor
-- holds any other text. Every loop is by recursion on its list or on the rounds the source allows (the
-- pages of a list, the tries of the queue), so nothing runs on fuel but the repeated group of the regular
-- expression, whose fuel is the length of the text it reads. Where the source reads the clock or the
-- world again, the model takes the new value: each candidate has its own test of the deadline, each plan is
-- carried out in a World of its own, and a search reads the clock twice, for the gate and for the reservation.
--
-- Parameters: JSON with SHA-256 (`Digest` of Policy/Fingerprint), `url.Parse` (of Config.validate), the
-- answers of Sonarr in one pass (`Client`; `Exchanges` for those of HTTP) and to a write (`submit` of Execute
-- and Search), the texts of an API error and of a duration, the JSON codec of the frames (`Codec`), and what
-- the socket gives to Call (`Line`). Nothing is assumed of them; the round trip of the frames asks that the
-- decoder undoes the encoder.
--
-- Not modelled: Run and the hand-over of manual requests to it, with their receipts; building HTTP requests,
-- sockets, SQL and files, locks, logging, the command line, the environment and the YAML of the settings; the
-- order in which Go ranges over a map; saving, where a failure ends the run,
-- but for the failed save at the end of Manual, which sets the exit code.
pub mod Base
pub mod Sonarr
pub mod Config
pub mod Policy
pub mod Control
pub mod State
pub mod Client
pub mod Service
