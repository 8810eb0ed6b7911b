-- ===== src/Lib.antt =====
-- A model of recourse, a Go library that runs an operation under a policy of retries, hedges, budgets
-- and circuit breakers, with the theorems about it.
--
-- The parts of the program and the files that model them (paths from the repository's root):
--   policy/       Policy: the records of a policy. Policy/Key: `ParseKey` and `String` of a key.
--                 Policy/Defaults: `DefaultPolicyFor` and the limits. Policy/Normalize: the method
--                 `Normalize`, block by block. Policy/Options: the options, presets and constructors.
--   circuit/      Circuit: the consecutive-failure breaker. Circuit/Registry: the breakers by key.
--   classify/     Classify: outcomes. Classify/Http: `HTTPClassifier`, `AutoClassifier`.
--                 Classify/Registry: the classifiers by name.
--   hedge/        Hedge/Tracker: the ring buffer of latencies with its quantiles. Hedge/Triggers: the
--                 fixed-delay and the latency trigger. Hedge/Registry: the triggers by name.
--   budget/       Budget/Registry: the budgets by name. Budget/Bucket: the token bucket.
--   controlplane/ Controlplane/Cache, Static, Remote: the cache of policies and the two providers.
--   retry/        Retry: the state and the effects of a call. Retry/Allow: `allowAttempt`.
--                 Retry/Backoff: the sleeps. Retry/Verdict: `resolveClassifier`,
--                 `classifyWithRecovery`, `terminalError`. Retry/Resolve: the two resolutions of a
--                 policy. Retry/Fast: `doValueFast`, the loop without a timeline. Retry/Full:
--                 `doValueWithTimeline`, the loop with a timeline and a circuit breaker.
--                 Retry/Primary: an attempt of `doRetryGroup`, and the group of one attempt.
--                 Retry/Group: `doRetryGroup` with its goroutines interleaved. Retry/Call:
--                 `doValueInternal` and `DoValue`. Retry/Setup: `NewExecutorFromOptions`.
--                 Retry/Options: `NewExecutor`, its options, `NewDefaultExecutor`. Retry/Global:
--                 `DefaultExecutor`, `SetGlobal`, and the facade of package recourse.
--   observe/      Observe: the records of observers. Observe/Fanout: `NoopObserver` and
--                 `MultiObserver`. Observe/Capture: the capture of timelines in contexts.
--   integrations/ Integrations/Http: `DoHTTP` and `StatusError` of integrations/http/http.go.
--                 Integrations/Grpc: `DefaultKeyFunc` and `Classifier` of integrations/grpc/grpc.go.
--   Errors has the error values with `errors.Is`, Common what every part shares, and Examples the
--   tests and the theorems applied to concrete values.
--
-- How they interact: `do_value_fast` asks the provider for a policy and normalises it
-- (Retry/Resolve, Policy/Normalize), picks a classifier (Retry/Verdict), and runs the loop: each round
-- reads the context's error, asks the budget (Retry/Allow), calls the operation, releases the budget,
-- classifies the result, and returns or sleeps (Retry/Backoff). `do_value_internal` chooses between
-- that path and `do_value_with_timeline`, which asks the circuit breaker of the key (Circuit/Registry)
-- before its rounds, runs a group of attempts in each round, reports the result to the breaker, and
-- tells the observer of the start and the end. A group is an argument of the full path:
-- `primary_group` (Retry/Primary) is the one of a policy without hedges, which ends with the result of
-- its attempt or with the end of its context, as its schedule has it (Retry/Group).
--
-- How state is modelled: a method takes the record of its receiver and gives back the new one, and a
-- time that `time.Now` returns in it is an argument. A mutex makes each call one step. A call of the
-- executor is a state passing over a world of any type, with the log of what it did; the record `Env`
-- has the effects that the executor's user supplies (operation, classifiers, budgets, provider, clock,
-- sleep, context), and `Exit` says whether a call returned or panicked. Defers and recovers are
-- `deferring` and `recovering`. The breakers and the holders of timelines are memory that calls share:
-- the records `Shared` and `CaptureMemory` say where the world has them. The goroutines of a group are
-- a state with a function `step` by moves; a schedule is a list of moves.
--
-- Parameters: `float64` is a type with the operations of the record `Float` (Common/Float); `IsExact`
-- and `IsOrdered` (Budget/Bucket) are the laws of IEEE 754 that some theorems rely on. The texts of
-- durations, types and errors, which only fill attributes, are arguments. The client, the bodies, the
-- headers and the parsing of dates of net/http are the operations of `HttpApi` (Integrations/Http), and the
-- status of an error of google.golang.org/grpc is an argument (Integrations/Grpc).
--
-- Bounds: numbers are integers without wrap-around, but for the two products of durations that an input
-- can make large, the seconds of a `Retry-After` and the target of the fixed-delay trigger, which wrap
-- in 64 bits (`wrap_64`); a duration is an integer of nanoseconds. The loops
-- of a call are recursions on the number of their rounds, so no fuel is chosen. Upper and lower
-- case are those of the ASCII letters and the two or one characters whose case is an ASCII letter,
-- which is all that the comparisons with ASCII words see.
--
-- Not modelled: the rebuilding of an executor with nil fields in `doValueInternal`; the gRPC
-- interceptor, which passes its call to the executor; and the tools under scripts/ and
-- examples/. What the attempts of a group do to the world is not interleaved with its other moves: a
-- move of Retry/Group has the result that an attempt sends, and an attempt of `primary_group` whose
-- context ends runs to its end first. A group that never returns has no value. Stack traces and the
-- texts of errors that no code reads are left out.
pub mod Common
pub mod Policy
pub mod Hedge
pub mod Integrations
pub mod Budget
pub mod Observe
pub mod Retry
pub mod Errors
pub mod Classify
pub mod Circuit
pub mod Controlplane
pub mod Examples
