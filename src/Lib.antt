-- ===== src/Lib.antt =====
-- A model of the core of the harness: graphs of nodes that share a state by channels, the engine
-- that runs them in steps, what they keep between runs, and the parts of an agent loop that turns
-- of an agent share with those who push to it and stop it.
--
-- The parts and how they interact. A graph (graphengine/graph/graph.go) holds nodes, edges and
-- channels. The engine (graphengine/pregel/engine.go) chooses the next nodes from the edges, runs
-- each under a retry policy (graphengine/pregel/retry.go), turns what it answers into a map of
-- writes, and updates the channels (graphengine/channels) by way of a registry. A channel decides
-- how the writes of a step are combined, and can be saved in a checkpoint and restored. Without an
-- engine, a compiled graph runs in a loop of its own. A cache (graphengine/pregel/cache.go) can stand
-- before a node. Checkpoints are kept by a saver or by a manager (graphengine/checkpoint), and what
-- nodes remember by a store (graphengine/store). The agent loop (agentcore) has a buffer of items, a
-- controller that preempts turns and one that stops the loop; Push and Stop work on all three. The
-- tools of an agent are found in a registry (agentcore/tool_registry.go).
--
-- The files:
--   Base             shared names; maps of Go as association lists (Maps), sets of names (Keys),
--                    the order of names (Order), texts that are split and joined (Text)
--   Value            interface{} with the dynamic types that the source tells apart, and GoType
--   Errors           graphengine/errors/errors.go, and fmt.Errorf with its parts unprinted
--   Clock            time.Time and time.Duration
--   Channels.Common  BaseChannel of graphengine/channels/base.go
--   Channels.*       one file for each channel type, named for it: LastValue, AnyValue,
--                    EphemeralValue, UntrackedValue, Topic, Barrier (NamedBarrierValue),
--                    BarrierAfterFinish, LastValueAfterFinish, Aggregate (BinaryOperatorAggregate).
--                    NewX is new_x; Get, IsAvailable, Update, Copy, Checkpoint, FromCheckpoint,
--                    Consume and Finish are get, is_available, update and so on
--   Channels.Plain   the interface Channel over these types; Channels.Channel adds ReducerChannel
--   Channels.Reducers, Channels.Create, Channels.Registry
--                    the operators and reducers, CreateReducerChannel, and Registry
--   Channels.Restore a channel against its checkpoint
--   Graph            StateGraph and the methods that build it; Graph.Reach is computeReachable and
--                    Validate, Graph.Inline is inlineRun with its helpers
--   Pregel.Retry     RetryExecutor.Execute
--   Pregel.Schedule  getNextNodes, prepareNextTasksWithMode, prepareNextTasksDAG, shouldInterrupt
--   Pregel.Output    toMap, mergeStates, getNestedField, setNestedField, applyFieldMapping
--   Checkpoint       the record Checkpoint of graphengine/checkpoint/checkpoint.go; Checkpoint.Copy
--                    is deepCopy, Checkpoint.Memory is MemorySaver of
--                    graphengine/checkpoint/memory.go, Checkpoint.Manager is CheckpointManager
--   Pregel.Writes    applyWrites, with markSeen
--   Pregel.Run       Run, applyInput, readTaskInput, executeTasksAsync, buildOutput
--   Store            InMemoryStore of graphengine/store/memory.go; Store.Sweep is cleanupExpired,
--                    Store.Namespaces is ListNamespaces, Store.Search is SearchItems, with the filters
--                    of Store.Filter, and Store.Batch is Batch
--   Cache            MemoryCache of graphengine/pregel/cache.go; Cache.Executor is CachedExecutor
--   AgentLoop        requests to cancel of agentcore/agent_loop_config.go; AgentLoop.Buffer,
--                    AgentLoop.Preempt, AgentLoop.Stop and AgentLoop.Push are
--                    agentcore/agent_loop_buffer.go, agent_loop_preempt.go, agent_loop_stop.go and
--                    agent_loop_push.go, with Stop of agent_loop.go in the last
--   ToolRegistry     agentcore/tool_registry.go
-- Any other child of one of these holds proofs, and Tests and files named for tests hold concrete
-- runs.
--
-- How the code is rendered. A method that changes its receiver gives the new receiver back. A pair
-- (A, error) is a Result, and where both halves count a product. A map is an association list in
-- the order in which a range loop visits it, so that what is proved for every list holds for every
-- order. An int and a float64 are the 64-bit patterns of the machine; int addition wraps round, and
-- float addition, fmt.Sprint, the copy of a value by JSON and the lower case of a letter are
-- parameters. A reducer, a condition and a node function are the graph author's, and are functions;
-- a node function may depend on the step and the attempt. Time is counted in nanoseconds, and its
-- zero is time.Time's; the time of a call, the identifiers and the hashes that it makes and the
-- channels for acknowledgements are its arguments. A limit of 0 stands for any that is not positive.
-- A method under a lock is one step, one that waits is a step once its wait is over, and a relation of steps
-- stands for every interleaving of them. Where a method panics, the result is none.
--
-- Bounds and fuel. The loop of a run, with an engine or without, tests the recursion limit as the
-- source does, on fuel of one more than that limit, and is none if the fuel is used up. The rounds of a retry are the attempts that the policy allows, which is
-- what the source counts. The search for reachable nodes has as many rounds as there are targets, and
-- one for the entry point. Every other loop runs over a list, a string or a
-- counter. What a context does is told by Boolean functions of the step.
--
-- Not modelled: the sharing of slices and maps between a channel, its checkpoint and its copy, and
-- one channel under two names; the saving of checkpoints and the stream of events during a run;
-- jitter and the durations between attempts; schemas that are read by reflection; the interleaving
-- of goroutines inside one step; ToMap and
-- FromMap; asynchronous caches; the turns of the agent loop, its clean-up and its checkpoint, and the
-- agents, models and middlewares it calls; the options of Compile; the databases, the server and
-- telemetry, which are calls of other systems.
pub mod Base
pub mod Value
pub mod Errors
pub mod Clock
pub mod Channels
pub mod Graph
pub mod Checkpoint
pub mod Pregel
pub mod Store
pub mod Cache
pub mod AgentLoop
pub mod ToolRegistry
