-- ===== src/Lib.antt =====
-- A model of the DBUpgrade operator, a Kubernetes operator that runs database migrations, and what is
-- proved of it. A DBUpgrade object names a migration image, a database and checks. The validating
-- webhook admits or refuses the object; the reconciler validates and stores the connection URL,
-- runs the pre-checks, creates one migration Job for each version of the spec, follows the Job,
-- runs the post-checks after a bake time, and writes conditions, an event and a place in the work
-- queue.
--
-- Parts, with the files that model them and the code they model:
--   Common      Boolean tests, lists, signed integers with int32, UTF-8 and decimal text. No code of the
--               repository.
--   Kube        the k8s.io types (Objects), errors (Meta), everything the operator calls (Cluster), the
--               state and panics of its code (Monad), rules for the writes of such code (Writes) and for
--               what it leaves alone (Calm).
--   Api         api/v1alpha1: dbupgrade_types.go (Types), conditions.go (Conditions),
--               dbupgrade_webhook.go (Webhook), groupversion_info.go (Scheme),
--               zz_generated.deepcopy.go (Memory, Layouts, DeepCopy, Parts); Validity, ValidSpecs and Updates describe
--               what the webhook accepts, Deep and Copies what a deep copy is.
--   Checks      internal/checks: version.go (Image: extractVersionFromImage; Version: the loops over the
--               pods), metrics.go (Values: reduceValues, compareThreshold; Metrics: the queries and
--               loops; Plural: pluralize). Strict, Lenient, AnyOrder, Tags and Reduce describe their
--               answers, Passing, Scans, Reads and Calm the loops.
--   Aws         internal/aws/rds_auth.go: Url (connection URLs), Manager (the client manager); Encoding and
--               Lifecycle hold their properties.
--   Controller  controllers/dbupgrade_controller.go: Result (reconcileResult, settings), Jobs
--               (computeSpecHash, getJobForDBUpgrade, createMigrationJob, isJob*), Secrets
--               (validateSecret, ensureMigrationSecret), PreChecks and PostChecks (runPreChecks,
--               runPostChecks, syncJobStatus), Reconcile (reconcileDBUpgrade, updateStatus,
--               recordEvent, Reconcile), Watches (SetupWithManager). Lifecycle is the life of an object's
--               Jobs without the code, JobStore what a server does that keeps Jobs, and Moving, Moves, Runs
--               and Converges what the code does against it, over any number of reconciles. Walk and
--               Begins follow the stages of the main logic for the other theorems; the remaining
--               modules are named for what they describe.
--   Metrics     internal/metrics/metrics.go: the gauge.
--   Startup     main.go: the order of the setup calls (Startup) and what has been done when the manager
--               starts (Order), and when the gauge is set (Heartbeat).
--   Tests       a small server, objects, and the theorems at concrete arguments.
--
-- How the code corresponds to the definitions. A function's name is the Go name in lower case with
-- underscores. Go code that calls the cluster is a function of a State, which holds the world and the
-- writes sent so far, latest first; it ends with a result or with a panic (a nil dereference, a write
-- to a nil map). The world is abstract: a call may be answered in any way, and may see what others
-- did in between. An `error` is its
-- text, with the kind that IsNotFound and IsAlreadyExists ask for. `if err != nil { return err }` is a
-- match on a Result. A long function is cut at its early returns: reconcileDBUpgrade is
-- reconcile_upgrade, validated, with_secret, with_found, with_job, replace_job, start_migration,
-- after_checks and create_job, in the order of the code.
--
-- Parameters, for code outside the repository: Cluster (API server, metrics APIs, clock, AWS SDK),
-- Semver (Masterminds/semver), Floats (float64 and Quantity), Hashing (json.Marshal, sha256). Laws are
-- assumed only where a theorem names them: SetsConditions (meta.SetStatusCondition), IsOrder (floats
-- that are not NaN), SecretsHaveContents (no Secret is read with a nil map), JobStore (the API server
-- keeps Jobs, and lists those that there are; a list from a cache that lags behind is not covered),
-- Handlers (the event handlers of controller-runtime), Foreign and AreDeep (the deep copies of k8s.io).
-- The theorems on progress assume a server that has the customer's Secret and refuses nothing that can
-- be done: GivesSecrets, IsCalm, IsWilling, HasCurrentJob.
--
-- Bounds: int32 arithmetic of the bake time wraps as in Go. Decimal text is exact below 10 ^ 40 and
-- hexadecimal text below 16 ^ 40, more than any 64-bit number needs. All loops are over finite lists, by
-- structural recursion; no fuel is used.
--
-- Memory: only the deep copies need addresses. There a pointer or a slice is an address with what lies
-- there; allocation takes the next free address. What lies where follows the types and is declared apart
-- from the copies. Elsewhere a pointer is an Option and a slice a list.
--
-- Not modelled: SetupWebhookWithManager, log lines, contexts and timeouts, and the tests, charts and
-- configuration of the repository.
pub mod Common
pub mod Kube
pub mod Api
pub mod Checks
pub mod Aws
pub mod Metrics
pub mod Controller
pub mod Startup
pub mod Tests
