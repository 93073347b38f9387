-- ===== src/Lib.antt =====
-- Voice agent: the services behind a phone call that an agent answers, as transactions on shared
-- tables, the workflow and the tools that a published agent version runs during the call, and the
-- connections to the telephone switch.
--
-- The parts, and where they come from in the repository:   Store          the rows of the tables
-- (the models.py files of voiceagent/), the errors that the                  services raise, one
-- transaction (`tenant_scope`, voiceagent/tenancy/context.py),                  and code that runs
-- several of them.   Calls          voiceagent/calls: Lifecycle is lifecycle.py, Service is
-- service.py. A history                  (Service/History) is any sequence of the service's
-- operations with time passing;                  Service/Overlap interleaves the two statements of
-- a transition with them.   Calendars      voiceagent/calendars/service.py: availability, events
-- and their cancellation.   Followups      voiceagent/followups: Lifecycle and RetryPolicy are the
-- files of these names,                  Outcomes and Service are service.py up to the worker's
-- part, Execution is the                  claim and execution of due follow-ups.   Workflow
-- voiceagent/workflows: Config and Config/Structure are config.py, Graph its two walks
-- over the step graph, Predicates is predicates.py, Service and Steps are service.py,
-- Executor is executor.py.   Agents         voiceagent/agents/service.py: agents, their versions
-- and the publication of one.   Conversations  voiceagent/conversations/service.py: the turns of a
-- call, and what a delivery that                  comes twice does. Numbers and Once are about
-- sequences of such deliveries.   Contacts       voiceagent/contacts/service.py: contacts and the
-- normalisation of their numbers.   Runtime        voiceagent/runtime: the assignment of a call to
-- a runtime, reconciliation.py,                  stuck_calls.py and heartbeat.py.   Tools
-- voiceagent/tools: registry.py and the allowlist of an agent version; Gateway is
-- gateway.py, its results cached per call and request.   Telephony
-- voiceagent/telephony/freeswitch: Media is media.py, the paced socket of one call
-- and the provider that attaches and detaches calls; Esl is esl_transport.py, its
-- frames, fields, Connection and Reconnect. Esl/Printed is not in the source: it is
-- the protocol's text form, which the reader is compared with.   Examples       small stores on
-- which the theorems are applied.
--
-- How they interact: a workflow's definition is validated by Config; Executor runs its steps, each
-- step a transaction of Service or Steps, and Steps calls Followups, which calls Calendars. All of
-- them read and write one `Store`. Runtime calls Calls/Service, also on that `Store`, and so does
-- Conversations; Agents and Contacts keep to their own tables. Tools/Gateway and the parts of
-- Telephony keep their state in memory, and have a state type each; their histories are lists of
-- calls and events. A function of the source keeps its name; a private `_f` is `f`, with the comment
-- above it naming the original where the name differs.
--
-- Conventions. Identifiers are numbers and `uuid4` counts up, so a new identifier is the next one;
-- times are microseconds, and in Telephony/Media nanoseconds. A transaction either commits or
-- raises and leaves the store as it was; a history is a sequence of whole transactions, each begun
-- after the one before has ended. For the claims of a call and of a follow-up, and for the turns of
-- a call, the source's row locks make concurrent writers of one row into such a sequence. For
-- `transition_call_session`, `associate_call` and the other transactions, which lock nothing, this
-- is an assumption that the source does not enforce. Calls/Service/Overlap drops it for
-- transitions, whose reads and flushes it interleaves with the other operations. What other tasks
-- commit between the transactions of one operation is a parameter: `wait` of a workflow's `Host`,
-- `meanwhile` of a reconciliation, `before` and `during` of a tool's execution. Tables keep their
-- order of insertion; where a query may return any of several rows the model takes the first.
--
-- Fuel. `_reachable_from` gets as many rounds as the graph has nodes and `_has_cycle` one more, since
-- each round adds a node, and each nested visit stands on a new one. The executor's loop has its own
-- bound in the source. `read_frames` gets more rounds than there are bytes, and each frame takes a
-- byte at least.
--
-- Parameters: `uuid_text` (`str` of a UUID), `millis` (Python's float arithmetic on a duration),
-- `foreign_keys` (the foreign keys to tables that are not modelled), `locked` (the rows that other
-- transactions have locked), the `Host` of a workflow run: the tool gateway, and what other tasks
-- do while a database call is awaited, cancellation included; `meanwhile` (what is committed
-- between the repairs of a reconciliation); the gateway's `World`: the tenant's service account,
-- its role check, what a handler does, and what becomes of the gateway while an execution awaits;
-- `b64encode` and `b64decode`, `decode` and `unquote` of bytes, `is_decimal` (what `\d` of Python's
-- `re` matches), `config_hash` and `is_valid_config` of an agent's version, and `updated_at` of a
-- call.
--
-- Not modelled: of the runtime, its supervision, the task of one call, and the worker that writes
-- conversations; call intelligence and call analysis, the knowledge base, phone numbers, and the
-- handlers of the tools. Of telephony, the ESL handshake, the normalisation of events in
-- provider.py, and media_server.py; a Content-Length in digits other than ASCII; of the gateway, an
-- audit record whose transaction raises. The HTTP API, the providers' clients, configuration,
-- metrics, migrations and scripts are input and output or glue. Of the database, the overlap of
-- other transactions that lock nothing, row-level security and most CHECK constraints are left out.
pub mod Prelude
pub mod Store
pub mod Calls
pub mod Calendars
pub mod Followups
pub mod Workflow
pub mod Agents
pub mod Contacts
pub mod Conversations
pub mod Runtime
pub mod Telephony
pub mod Tools
pub mod Examples
