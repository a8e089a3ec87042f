-- ===== src/Lib.antt =====
-- The event runtime, the formal verifier and the virtual machine of the eyeflow server.
--
-- A task is compiled to an intermediate representation; stage 5 of the compiler verifies it before
-- it may run, a version lifecycle service says which version is active, and the virtual machine runs
-- it. At run time, drivers put trigger events on a bus; event state machines evaluate
-- them, open correlation windows, ask humans for approval and propagate enriched events, and the
-- offline buffer keeps what cannot be delivered while the transport is down.
--
-- Common: what the modules share. Common/Lists and Common/Tests hold lists and Boolean tests over
--   the native numbers, Common/Eq equality, Common/JsMap a JavaScript `Map` as an association list
--   in insertion order, and Common/Json JavaScript values with the engine (doubles, property
--   access, `parseFloat`, the expression sandbox) as a record that the definitions take.
-- Runtime/OfflineBuffer: eyeflow-server/src/runtime/offline-buffer.service.ts, a record of state with
--   one function for each method. `flush` is cut at its awaits: `deliver` runs the handlers on the
--   batch, `flush_end` is the rest. Children: Window (the queue as a sliding window), Delivery and
--   Flush (which events stay), Disk (the file), Connectivity (interleavings as steps).
-- Runtime/AuditChain: eyeflow-server/src/runtime/crypto-audit-chain.service.ts, which puts its events
--   in the offline buffer while the transport is down. Node's signers and verifiers are arguments and
--   may throw. Chains says which lists verify.
-- Runtime/Host: what the runtime takes from JavaScript and the clock, a record that the definitions
--   take; Runtime/Samples is an instance for examples.
-- Runtime/CancellationBus: eyeflow-server/src/runtime/cancellation-bus.service.ts. Timers and listeners
--   go by the number of their wait, a message reaches a listener by a step, and so does the end of an
--   `unsubscribe` the callback that awaits it. Waits is about the promises over every sequence of
--   steps.
-- Runtime/PhysicalControl: eyeflow-server/src/runtime/physical-control.service.ts, over an executor
--   that changes a world of its own. Guards says when a time window lets an action pass.
-- Runtime/SemanticVm: eyeflow-server/src/runtime/semantic-vm.service.ts. An outcome is a context or an
--   exception. Calls, Actions and Instructions hold the handlers, Loops the bounded loop, Programs the
--   run over the instruction order, Slices and Distributed the runs over several nodes (a slice answers
--   when it is dispatched). Dependents and Fallback are about slices. Outcomes, Effects and Frame say what one
--   instruction changes, Budget counts calls, Steering and Unsteered are about targets and fallbacks,
--   and Accepted joins the machine with the formal verifier.
-- Compiler/IrGenerator: constant folding and the passes of the optimiser
--   (eyeflow-server/src/compiler/ir-generator/services). Dependencies is about dead code elimination,
--   Elimination and Collapse about common subexpressions, Sorting holds the topological sort.
-- Events/Correlation: eyeflow-server/src/events/event-correlation.service.ts, the map of windows.
-- Events/Approval: eyeflow-server/src/events/human-approval.service.ts, gates with their timers. The
--   subscribers of `approvalEvents$` are an argument, since they run inside `next`. Children: Timers
--   (the invariant), Reachable (it holds over every sequence of calls), Decisions.
-- Events/Condition: `conditionMatches`, `extractValue` and `compare` of
--   eyeflow-server/src/events/event-state-machine.service.ts; Meaning gives conditions derivations.
-- Events/Fsm: the rest of that file, over the descriptors of
--   eyeflow-server/src/compiler/interfaces/event-state-machine.interface.ts. Instances live in a heap
--   since an instance object outlives its entry in the map; calls of the repository and of the
--   propagation service are a list of effects. Actions, Execution, Processing and Lifecycle hold the
--   operations, Choice, Expiry and Deployment what is proved of them.
-- Compiler/Ir: what the verifier reads of instructions and manifests
--   (eyeflow-server/src/compiler/interfaces/ir.interface.ts and service-manifest.interface.ts).
-- Compiler/Verifier: eyeflow-server/src/compiler/stages/stage-5-formal-verifier.service.ts. Termination
--   is the depth-first search of rule 1, Rules the other six and `verify`; Loops, Calls and Reads
--   hold what an accepted program guarantees.
-- Tasks/Versions: eyeflow-server/src/tasks/services/version-lifecycle.service.ts, the table of compiled
--   versions and the transitions of their status. The queries of the repository and the digest are
--   arguments. Invariants holds what each call keeps, Reachable what every sequence of calls keeps.
-- Examples modules run the definitions on small inputs.
--
-- Bounds and fuel: the search of rule 1 takes fuel, one call for each node of the graph, which is
-- enough because every call paints a node that was white. The queue of the topological sort takes fuel
-- for its first nodes and for each dependency, which is enough because a node is queued only when its
-- last dependency is released. A loop of the virtual machine recurses on its at most five rounds; all
-- other functions are structural. The bound of the offline queue, read from the environment, is an
-- argument. Times are natural numbers.
--
-- Not modelled: texts of messages and log lines, Redis, the digest of a signature (an argument), two
-- event handlers interleaved at an await, and the parts of the server outside these files (the
-- other stages of the generator, the later stages of the compiler, drivers, connectors, controllers
-- and the dashboard).
pub mod Common
pub mod Runtime
pub mod Events
pub mod Compiler
pub mod Tasks
