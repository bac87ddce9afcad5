-- ===== src/Lib.antt =====
-- Aegora: the core of the agent runtime, services/runtime/src/aegora_runtime, and of the control
-- plane that releases agents to it, apps/control-plane/backend/app.
--
-- The runtime serves released agents. A request is admitted by the runtime context, which reads the
-- release's configuration through a two-level cache and narrows the release's tools to what the
-- actor's roles grant; a tool that needs an approval stops the run until a request is decided; what
-- the agent learns of its user goes through the memory service to a backend.
--
-- Memory, from memory/:
--   Memory/Models.antt: models.py. A dataclass with a __post_init__ is a record and a function from
--     the arguments to the record or to the message of the ValueError.
--   Memory/Policy.antt: policy.py. Which memories an agent may recall, and where it writes.
--   Memory/NativePg: native_pg.py. The tables are a state Db; recall and get_current are reads
--     (Read.antt), and remember, forget and expire_due are transactions that return the new state
--     (Remember.antt, Forget.antt, Expire.antt). Current, Frame, Removal, History and Invariant prove.
--   Memory/Provider.antt: provider.py, the protocol between the service and a backend, as a record of
--     operations over the backend's state; `native` is the versioned store as such a backend.
--   Memory/Service.antt and Memory/Ranking.antt: service.py. A failure of the backend stays inside.
--   Memory/Decision.antt and Memory/Lifecycle.antt: lifecycle.py, the resolution of a candidate that
--     was extracted from a conversation, over any backend.
--   Memory/Queue.antt: lifecycle.py, the queue of candidates (MemoryCandidateStore), and the
--     resolution that writes its decision back (Queue/Resolve.antt).
-- Agent, from agent_loop.py and tools.py:
--   Agent/Flow.antt: the store, the decisions and the graph of build_planner_flow.
--   Agent/Nodes.antt: what the nodes do. Agent/Loop.antt: a step, and the run by the flow engine
--     PocoFlow, which is a parameter with the law that it walks the graph.
--   Agent/Tools.antt: tools.py, the execution of a tool. Its handler and the hooks are parameters, and
--     an attempt is made for every one of `max_retries`, on which the loop recurs.
-- Runtime, from the files named runtime_….py, configured_runner.py and tool_adapters.py:
--   Runtime/Cache.antt: runtime_cache.py. L1 is a list, the least recent entry first; Redis and JSON
--     are parameters with the laws that a theorem needs among its hypotheses.
--   Runtime/Invalidation.antt: runtime_invalidation.py, apply_event.
--   Runtime/Approvals.antt: runtime_approvals.py. A contract `Laws` of a store, the in-memory and
--     the database store (Approvals/InMemory.antt, Approvals/Postgres.antt), and over any store
--     decide_approval (Approvals/Decide.antt) and ApprovalGate (Approvals/Gate.antt) of
--     configured_runner.py.
--   Runtime/Connections.antt: tool_adapters.py, the pool of MCP client sessions. The loop that makes
--     room is on fuel, one more than there are sessions, and closes one each time.
--   Runtime/Context: runtime_context.py. The scopes of tools (Scope.antt), the authorisation of tools
--     (Authz.antt), and the admission test with the read of the configuration (Gate.antt).
-- Control, from apps/control-plane/backend/app. The control plane keeps users, roles, tools and agents
-- in a database; a release freezes an agent's draft, and the events it announces empty the runtime's
-- cache.
--   Control/Workflow.antt: db.py, the versions of workflows and the tools. A state Registry, and each
--     method a transaction on it; any sequence of them is a list of operations (Workflow/History.antt),
--     and Workflow/Content.antt is on what versions hold and registered tools, whose origin is in
--     Workflow/Origin.antt.
--   Control/Authz.antt: authz.py, the union of scopes and their comparison.
--   Control/Platform.antt: db.py, the other tables as a state Platform, and their queries.
--   Control/Access.antt: api.py, who may manage and run an agent or a release. An endpoint's tests are
--     a list of gates, and the first that fails is what it answers.
--   Control/Releases.antt: api.py and db.py, publication and revocation. Releases/Snapshot.antt has
--     what a release freezes and Releases/Finality.antt the steps that endpoints take, as a relation;
--     Releases/Delivery.antt is cache_events.py.
--   Control/Agents.antt: api.py and db.py, the drafts of agents.
--   Control/Identity.antt: identity.py, api.py and db.py, logins and the user of a request. The other
--     endpoints take that user, or the error, as an argument.
--   Control/Roles.antt and Control/Roles/Edit.antt: api.py and db.py, the roles, what they grant and
--     who has them.
-- Tests applies the theorems to concrete inputs. Prelude holds what the files share.
--
-- Conventions: an exception is the error of a Result with its message, and an HTTPException a Reply
-- with its status code and detail. A dict is a list of pairs in insertion order. Times are seconds.
-- Python's floats and str.lower are the parameter Builtins, or an argument, and no theorem assumes a
-- law of them. A transaction runs alone, except in Approvals/Postgres.antt, where a decision is two
-- transactions; an endpoint of the control plane runs alone. Every loop is structural recursion, but
-- for the digits of a number, on fuel one more than the number, which has no more digits than that,
-- and for the limit of the pool of sessions. The engine is given max(8, max_iterations * 4 + 8) steps,
-- as the code gives it; from a store at count c a run takes at most 5 and twice max_iterations - c of
-- them.
--
-- Not modelled: the language model and its prompts, the other adapters of tools, the HTTP routes of
-- the runtime, settings, logging and metrics, the OpenViking client, scripts and evaluations; of the
-- control plane, what lists, renders and seeds, MCP connections and the calls of the runner. The
-- queries that the runtime makes of the control plane's database are arguments.
pub mod Prelude
pub mod Memory
pub mod Agent
pub mod Control
pub mod Runtime
pub mod Tests
