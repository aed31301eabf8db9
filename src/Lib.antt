-- ===== src/Lib.antt =====
-- A model of kronos-core, an operator for Kubernetes that puts workloads to sleep and wakes them on
-- a schedule, and proofs about it.
--
-- A resource `KronosApp` names a time of day at which its workloads go to sleep and one at which
-- they wake, the weekdays and the time zone of this schedule, holidays, and the objects that it
-- includes. A webhook fills in defaults and validates the resource. The reconciler reads it, makes
-- the schedule of the day, decides whether it is time to sleep, publishes the status and the
-- metrics, and then puts the included objects to sleep or wakes them. What it puts to sleep it
-- remembers in a secret, with the number of replicas or the state of each object. It asks to be run
-- again at the next change.
--
-- The files and the code that they model:
--   Base        what the others share: tests, lists, integers, texts as lists of bytes, how a Go call
--               ends (a result, an error, a panic), and calls that read and write a state
--   Time        the package `time`, as far as the program uses it: the calendar, the clock of a
--               location, and the parsers of "15:04" and "2006-01-02"; `isItSameDay`
--   Api         api/v1alpha1/kronosapp_types.go (Types, Status), kronosapp_webhook.go (Webhook),
--               zz_generated.deepcopy.go (Copies)
--   Schedule    internal/controller/scheduling.go: Weekdays (Set, extractWeekdays, mapWeekdays),
--               Holidays (from extractDatesFromHoliday to IsItHoliday), Sleep (NewSleepSchedule,
--               IsTimeToSleep, getRequeueTime)
--   Cluster     the interface of the Kubernetes API, the metrics and the JSON codec
--   Objects     internal/controller/objects.go and utils.go (Kinds: the supported kinds and the
--               validation), the four filters of internal/controller/included-objects (Pattern),
--               their fetchers with FetchAndFilter and FetchIncludedObjects (Fetch), the object list
--               with its names and counts (Lists), and object.go (Resources)
--   Controller  internal/controller/secrets.go (Secrets), putIncludedObjectsToSleep and
--               WakeUpResources of objects.go (Sleeping), kronosapp_controller.go (Reconcile); the
--               series of a gauge over all requests (Reconcile/Gauge), the names of failed objects
--               that are logged (Reconcile/Logged)
--   Manager     internal/controller/metrics.go (Metrics), what cmd/main.go calls (Platform), cmd/main.go
--               with the set-up of the controller, of the webhook and of the types (Start)
--   Tests       runs on concrete inputs
--
-- Each function of the source is one definition of the same name in lower case with underscores; a
-- long one is composed of named parts. A state-changing call is a function from a state to an
-- outcome and a state, so that what was written before an error stays written. The state is that of
-- the cluster, which is a parameter with its reading and writing calls.
--
-- Parameters, with no definition here: the Kubernetes API, Prometheus, `encoding/json`, the
-- compiler of regular expressions, controller-runtime, the parser of the command line, the time
-- zone database, the current instant, and the text of an instant.
-- What a proof needs of them stands as a named hypothesis: `ReadsWrites` and `ReadsWritesJobs` (a
-- reading call replies what was written), `IsKeyed` (an update changes the object that it names
-- and no other), `IsStore` (both, and an update that is refused, or of a secret, changes no
-- workload), `RepliesData` (the server replies the data that a secret was sent with), `IsHeld`
-- (the secret of the app in the API holds the data of the last accepted update of it),
-- `IsOfWorkloads` (calls on the app, the secret and the metrics leave the workloads alone),
-- `IsGauge` (the status is a subresource, and the gauge shows the series that are set and not
-- deleted), `IsJson` (what is marshalled is read back), `IsSteady` (the offset of a location does
-- not change in a span).
--
-- An instant is a number of nanoseconds since the first of March of the year -400, so that the
-- subtractions of the calendar stay above 0; a duration is an integer that saturates at 64 bits. All
-- recursion is structural, except that of `itoa`, whose fuel is the number plus one, which has more
-- rounds than the number has digits, and of the loop in Weekdays/Loop, whose fuel is an argument.
--
-- The objects are values, except in Copies, which has the arrays of their slices in a memory: a copy
-- shares none with its original, and the code writes to copies and to objects that it has just read.
--
-- Not modelled: log lines (with formatDuration, but for the names that logFailedObjects reads), the
-- options of the logger, and the content of the configuration that GetConfigOrDie finds, which stays in
-- the state of the platform.
pub mod Base
pub mod Time
pub mod Api
pub mod Schedule
pub mod Cluster
pub mod Objects
pub mod Controller
pub mod Manager
mod Tests
