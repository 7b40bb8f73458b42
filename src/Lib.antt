-- ===== src/Lib.antt =====
-- The core of scheduleos: how a range of time is filled with blocks for tasks, what the
-- repositories keep, what the handlers of the API do with both, and the lines of iCalendar files.
--
-- The API keeps tasks, events, plans and the rest in a store, behind repositories that check the
-- actor's scope first, and hands a scope's tasks and events to the scheduler. A handler checks the
-- role of the principal that a session's token stands for, and writes audit events.
--
-- `createSchedule` (src/scheduler.ts) is a pure function of a scope, a range, tasks, calendar
-- events, working hours and the blocks that exist. It builds the working windows of the range,
-- gathers what is busy (events with their buffers and travel, and locked blocks), orders the tasks
-- with dependencies first, and goes through them: a task that fails validation is set aside with a
-- reason, any other is placed by `scheduleTask`, which asks `findSlot` for one slot, or for one
-- after the other where the task may be split; a task that finds no slot is set aside with a
-- warning. The plan lists blocks, tasks set aside, warnings and explanations.
--
-- Which file models which part:
--   Domain: the records of src/domain.ts that the scheduler reads and writes.
--   Scheduler/Dates: parseIso, maxDate, minDate, daypartStart and daypartEnd.
--   Scheduler/Windows: buildWorkingWindows and what it calls, from enumerateLocalDates and
--     localTimeToUtc to subtractBreakWindows; Windows/Inside holds its proofs.
--   Scheduler/Slots: findSlot and its candidates; Slots/Sound (what a slot satisfies), Slots/Best
--     (one is found where one fits, the earliest one) and Slots/Sorted hold its proofs.
--   Scheduler/Place: scheduleTask; Place/Blocks and Place/Ends hold its proofs.
--   Scheduler/Order: orderTasksForScheduling and compareTasks; Order/Distinct and Order/Total hold
--     its proofs, Order/Rule the induction on visits that they share.
--   Scheduler/Capacity: calculateAvailableMinutes and classifyDeadlineFailure; Capacity/Free holds
--     its proof.
--   Scheduler/Plan: getInvalidReason and the loop of createSchedule; Plan/Step holds the invariant
--     of the loop, Plan/Accounts what becomes of each task.
--   Scheduler/Create: createSchedule; Create/Conflicts and Create/Accounts hold the theorems on
--     whole plans.
--     Create/Identity says what a plan takes over from its input.
--   Scheduler/Samples and Scheduler/Witnesses: runs on small inputs, and inputs at which the
--     theorems apply.
--   Records: the records of src/domain.ts that only the repositories keep.
--   Repositories: the store of src/store.ts as a record, the actors and the checks of access of
--     src/repositories.ts; Repositories/Tables the replacement of an item in a table and lemmas on
--     it, Repositories/Access what it means that scopes match.
--   Repositories/Tasks: the repositories of tasks and calendar events. Repositories/Plans: those of
--     plans and time blocks. Repositories/Keyed: working hours, audit events, idempotency records and
--     integrations. Repositories/Throttles: the throttles. Repositories/Auth: users, memberships,
--     sessions, password reset tokens and login attempts. The child modules hold the proofs, and
--     Repositories/Samples the inputs at which they apply.
--     Repositories/Tasks/Refines holds the map that the repository of tasks stands for.
--   Policies: src/retention-policy.ts and src/destructive-approval.ts.
--   Api: errors, responses and what the handlers of src/api.ts ask of the platform; Api/Handlers a
--     handler as a function of the store, Api/Access the checks of the principal, Api/Access/Roles
--     what they allow.
--   Api/Retention: the rules of the cleanup of old records; Api/Retention/Cleanup the cleanup and its
--     handler, with proofs in Cleanup/Prune, Safe, Others and Confirmed.
--   Api/Sessions: sessions and the principal of a token, with proofs in Sessions/Created and
--     Sessions/Principal.
--     Api/Login: the login and its window of attempts, with proofs in Login/Window,
--     Login/Guesses and Login/LockedOut.
--     Api/Passwords: reset and change of passwords, with proofs in Passwords/SignedOut,
--     Passwords/Token and Passwords/Changed.
--   Api/Plans: making, accepting, rejecting and replanning a plan, and changing a block, with proofs
--     in Plans/Kept. Api/Overlap: conflicts of calendar events, with proofs in Overlap/Clear.
--     Api/Writeback: the writing of an accepted plan to a calendar, with proofs in Writeback/Stored,
--     Writeback/Events and Writeback/Written.
--     Api/RateLimits: the limit on the rate of requests, with proofs in RateLimits/Limit and
--     RateLimits/Retry.
--     Api/Samples, Api/RateLimits/Samples and Api/Witnesses hold the inputs at which the theorems apply.
--   Ics: unfoldLines, foldLine, escapeText and unescapeText of src/ics.ts. Ics/Lines and
--     Ics/Lines/Unfolded hold the proofs on lines, Ics/Escapes those on texts, and Ics/Samples the
--     inputs.
--   Base: tests on ℕ, lists, results, sorting and texts that the parts share.
--
-- How the code is modelled:
--   * A Date is a natural number of milliseconds, counted from the first instant that a Date can
--     hold (100,000,000 days before the epoch, a UTC midnight). Dates past the last instant that a
--     Date can hold are not told apart from others, and a subtraction stops at the first. That
--     Date.UTC takes the years 0 to 99 for 1900 to 1999 is left out.
--   * A timestamp is kept as what `new Date(value)` reads in it: an instant, or nothing. A time of
--     day is kept as its two numbers, or as malformed. An empty timestamp, which the code takes for
--     a missing one, is `none`.
--   * Numbers of minutes are whole and not negative.
--   * An error that is thrown is an `err`. Where a sort's comparator may throw, which of two errors
--     is met first is the engine's choice, and the model takes that of an insertion sort.
--   * What Intl.DateTimeFormat answers is a parameter, `TimeZones`, with no law on it: the theorems
--     hold for any answer. A time zone that it rejects is not modelled.
--   * Free time is in milliseconds, where the code divides each gap by 60,000.
--   * The texts of messages, the evidence of explanations and the default plan id are left out: the
--     id of the plan is an argument.
--   * An operation of a repository takes the store and returns a value with the store that it leaves,
--     or an error, which leaves the store as it was. `persist`, which writes the store to its file,
--     is left out, as are free-form metadata and the sorted list of request throttles.
--   * A handler of the API returns a result, or throws, and leaves a store in both cases: what was
--     stored before an error stays stored. The date's text, hashes of tokens, the comparison of a
--     password with a credential and new ids are parameters or arguments, with the laws that a
--     theorem needs among its hypotheses; so is the cleaning of ids. A request is handled at one
--     instant, where the code asks for the time again in each of its steps.
--   * A text of an iCalendar file is the list of its UTF-16 code units.
--
-- Loops on fuel: the loop of scheduleTask has as much fuel as minutes remain, since each round that
-- asks for time takes at least a minute off; where a round asks for none, the model's error
-- `diverges` stands for the loop that does not end. `visit` has one more than the number of tasks,
-- since each nested visit is of another task. The loop over local dates has as many rounds as
-- there are steps of six hours from its start to its end, and one more. The loop of foldLine has as
-- many rounds as there are code units, of which each round takes one or more.
--
-- Not modelled: the SQL repositories (src/sqlite.ts, src/postgres-repositories.ts), which send
-- texts to a database; of the API the routing, the reading of requests, cookies, webhooks, imports
-- and summaries; of iCalendar files the events, dates and recurrence; the command line,
-- the web page, the policies of quotas, providers and deliveries, the cryptography of backups, and
-- the checks of release documents.

pub mod Api
pub mod Base
pub mod Domain
pub mod Ics
pub mod Policies
pub mod Records
pub mod Repositories
pub mod Scheduler
