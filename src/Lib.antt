-- ===== src/Lib.antt =====
-- Zenstier: remote command execution for a fleet of machines. A Next.js dashboard and an MQTT worker
-- share a PostgreSQL database, Redis and a broker; agents on the machines run what they are told.
--
-- The program's parts and the files that model them:
-- - server/infrastructure/ratelimit/ratelimit.ts (RateLimit.antt and RateLimit/): the Lua scripts of
--   the token buckets and of the fixed windows, `take` and `window_script`, and their callers
--   checkCommandRateLimit, consumeRateLimit, isRateLimited and resetRateLimit.
-- - prisma/schema.prisma and lib/protocol.ts (Fleet.antt, Protocol.antt): the rows and the parsed
--   messages that the other parts share. A table is the list of its rows.
-- - server/worker/handlers.ts and main.ts (Worker.antt and Worker/): what a status message, a report
--   and a pass of the reaper do to the tables. `receive` is onMessage, `receive_all` any sequence of
--   messages.
-- - server/modules/commands/command.service.ts (Commands.antt and Commands/): dispatchCommand, cut
--   where other processes can run: `prepare`, `messages`, `mark_dispatched`; `dispatch` is all three.
-- - server/modules/alerts/alert.service.ts (Alerts.antt and Alerts/): rules and their states,
--   evaluateAlerts as `evaluate_rules`.
-- - server/modules/schedules/schedule.service.ts (Schedules.antt and Schedules/): the operations on
--   schedules, and runDueSchedules as `run_due`; `step` interleaves workers and users.
-- - server/modules/teams/team.service.ts (Teams.antt and Teams/): roles and members of teams, and as
--   `act` the operations that an actor of some rank has on them; leaveTeam is cut at `check_leave` and
--   `drop_member`, where another process can run. Teams/Settings.antt and Teams/Slugs.antt hold
--   createTeam, renameTeam and deleteTeam, Teams/Invites.antt the invites, with registerUser of
--   server/modules/auth/auth.service.ts, and Teams/Actions.antt the requests of
--   app/_actions/teams.ts, under the context and permissions of server/modules/teams/context.ts. Of the
--   rows that go with a deleted team, those of its roles, members, tokens, devices and invites are modelled.
-- - server/modules/tokens/token.service.ts (Tokens.antt and Tokens/): enrolment tokens; consuming
--   one reads with `open_token` and then does what `finish` says.
-- - server/modules/auth/totp.ts (Totp.antt and Totp/): base32, one-time codes and their window.
-- - server/modules/auth/totp.service.ts (TwoFactor.antt and TwoFactor/): enrolment, checks and removal
--   of a second factor, whose calls `act` runs on one account, one after the other; `finish_check` is a check after its read,
--   where another can run.
-- - auth.ts and server/modules/auth/auth.service.ts (SignIn.antt and SignIn/): `authorize`, which looks
--   at the counters of the rate limiter and then does what `proceed` says, the second factor included; `overlap` runs attempts that have all looked first.
-- - server/infrastructure/net/safe-fetch.ts (SafeFetch.antt and SafeFetch/): which addresses and URLs a
--   request may go to.
-- - server/modules/devices/group.service.ts (Groups.antt and Groups/): groups of devices and their
--   members at the broker, which may agree, refuse, or carry a command out with its answer late; an answer
--   is taken to be that of its own command.
-- The files Prelude.antt and Prelude/ hold the Boolean tests, the queries on tables and their laws.
--
-- Every part calls those before it: a schedule's run dispatches commands, dispatching asks the rate
-- limiter and writes the rows that the worker updates, the worker writes the samples that alerts read.
--
-- Ids are opaque to the code, which compares them, and are numbers here; times are milliseconds;
-- percentages, loads and tokens are counted in units that make them whole. Code outside the repository
-- is a parameter: the ids of commands (uuid v5), fresh ids, the clock, the broker's being up and its
-- answers, in the rules of alerts the check of a webhook's URL, and cron-parser, of which the theorems use only
-- that the next time is later.
-- Loops over rows run over lists. Where a loop of the code runs a number of rounds that it computes, the
-- model recurs on that number: the bits of an encoder, the steps of a time window, the fifty slugs. The
-- bounds of the code, fifty schedules in a round and two hundred commands in a pass of the reaper, are
-- in the model, and the theorems name them. Texts whose characters matter are
-- lists of character codes over ASCII, the others native strings. HMAC, bcrypt, the URL parser, isIP and
-- the resolver are parameters.
--
-- Not modelled: the user interface, the server actions other than those of teams, the lists that pages
-- read, notifications, the retention of samples, failures of the broker or the database in the middle of
-- a dispatch, connections, logging, the agent (in Go), scripts and migrations.
pub mod Prelude
pub mod RateLimit
pub mod Fleet
pub mod Protocol
pub mod Worker
pub mod Commands
pub mod Alerts
pub mod Schedules
pub mod Teams
pub mod Tokens
pub mod Totp
pub mod TwoFactor
pub mod SafeFetch
pub mod SignIn
pub mod Groups
