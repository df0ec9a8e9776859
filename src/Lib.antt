-- ===== src/Lib.antt =====
-- DevOps Copilot: an incident-investigation agent and the services around it.
--
-- A turn runs a compiled graph (app/graph/builder.py): plan, then agent and tools in a loop, an
-- approval pause for write actions, reflect, report, verify. The policy (app/policy.py) says which
-- tool calls are writes that a human must approve and how risky they are; the session
-- (app/session.py) resumes a paused run with an answer and enforces the confidence gate against
-- programmatic approvers. Around it stand the resilience helpers, the job queue, the limiters, the
-- poller that opens investigations, the remediation loop, the audit trail, and the tenant store with
-- its keys, secrets, usage ledger, billing and erasure. The HTTP API (app/api/main.py) lets requests
-- in, keeps a bounded pool of sessions behind a gate, runs the turns on it and administers the store.
--
-- Base: the shared vocabulary (lists over native numbers, dicts, JSON values, texts).
-- Policy, Policy/Gate: app/policy.py, one function per function. Policy/Laws: the laws of both.
-- Graph: app/graph/state.py and what the nodes take from outside (Env). Graph/Edges:
-- app/graph/edges.py. Graph/Nodes, Graph/Nodes/Verify, Graph/Digest, Graph/Fix: the nodes and
-- helpers of app/graph/nodes.py, and the guarded tool node of app/graph/builder.py. Graph/Run: the
-- compiled graph as a step function on a node and a state. Graph/Safety, Graph/History, Graph/Bound:
-- the laws on approvals, on the conversation and on the length of a run.
-- Report: the report of app/graph/nodes.py; Report/Calibration _calibrate_confidence,
-- Report/Corroboration _verify_grounding, Report/Review _judge_critique and _apply_critique,
-- Report/Node _adversarial_critique and the passes of report_node, over a report as the parse and the
-- probes leave it. Report/Parse: what the model's JSON becomes (_parse_report, _parse_verification,
-- _parse_objections, _parse_rebuttals); Report/Probe: the probes of competing hypotheses
-- (_probe_hypotheses, _merge_probe_scores); each with its laws below it.
-- Guardrails, Routing, Session: app/guardrails.py, app/routing.py, app/session.py.
-- Resilience/Retry, Resilience/Breaker: app/resilience.py. JobQueue: app/jobqueue.py.
-- RateLimit: app/ratelimit.py. Spend: app/spend.py. SloPoller: app/slo_poller.py.
-- Autonomy: app/autonomy.py. Audit: app/audit.py.
-- Tenancy: the tables of app/tenancy/store.py. Tenancy/Roles and Tenancy/Plans:
-- app/tenancy/models.py. Tenancy/Orgs, Tenancy/Keys, Tenancy/Secrets, Tenancy/Usage,
-- Tenancy/Erasure: the store's operations by table, with app/metering.py in Tenancy/Usage and
-- app/governance.py in Tenancy/Erasure and Tenancy/Usage. Tenancy/Vault: app/secrets_vault.py.
-- Tenancy/Usage/Billing: the usage sync and the plan events of app/billing.py. Tenancy/Auth:
-- app/tenancy/auth.py and app/tenant_context.py. Tenancy/Scim: app/tenancy/scim.py.
-- Tenancy/Holdings: what an operation leaves to other organisations.
-- SloMetrics: app/slo_metrics.py. IncidentMemory: app/incident_memory.py, less its ranking.
-- Api and the modules below it: app/api/main.py. Api/Gate: _ConfigGate, as a step function on the gate
-- and its tasks. Api/Sessions: _get_session, _evict and _evictable_thread. Api/Access: require_auth,
-- require_perm, quota_gate, _scoped and the limits middleware. Api/Admin: the handlers below /admin.
-- Api/Onboarding: signup and the SCIM handlers. Api/Chat: what a turn does to the process, with
-- Api/Chat/Request for chat and approve, Api/Chat/Stream for their streaming variants and
-- Api/Chat/Trigger for the turns of incidents and of Slack.
-- Api/Signatures: the webhook signatures of app/integrations and app/billing.py. Api/Webhooks:
-- _claim_delivery and the PagerDuty and Stripe webhooks. Api/Remediation: POST /remediate and the
-- callback of Slack's buttons.
-- ServiceGraph: the search of app/correlation.py and app/mcp/servers/traces/server.py;
-- ServiceGraph/Reach: its laws; ServiceGraph/Blast: blast_radius and deps_from_traces;
-- ServiceGraph/Storm, ServiceGraph/Storm/Root: the ranking of root causes and the likely root;
-- ServiceGraph/Clusters:
-- cluster_by_time.
-- Tests: the theorems at concrete inputs.
--
-- State is passed explicitly: a database is a record of lists of rows, a Python object a record, and
-- the ids, times and random texts that the code draws are arguments. Exceptions are `none` or a
-- constructor. Times are whole numbers of one unit or, in the store, ISO texts compared as texts.
--
-- What asyncio runs between two awaits is one step. Api/Gate has any interleaving of such steps; the
-- other handlers of Api run from their start to their end, and _get_session, which holds the lock on
-- the creation of sessions, is one step. The locks of single threads are left out.
--
-- Bounds and fuel: the breadth-first search has fuel, `search_fuel`, as much as the start has
-- neighbours and the graph has edges: every round of the loop takes one queued node, and an edge
-- queues its callee at most once more. The loop that makes room for a session has as many rounds as
-- there are sessions and one more, since every round but the last drops one. A run of the graph, of
-- the queue's worker, of the poller or of the gate is a list of steps given from outside.
--
-- Outside the repository, and so parameters: the language model, the tools, the reviewer, LangGraph's
-- ToolNode, regular-expression searches, SHA-256 and HMAC, the check of a JWT, json.loads and
-- json.dumps, str(), int() and float() of JSON values, Fernet, the Stripe client, the probes and
-- executors of the remediation. Lower-casing and stripping are those of ASCII. Not modelled: the routes
-- that only read or set the configuration, the command line, the other MCP servers and the client,
-- configuration, telemetry, prompts, the frontend, and logging everywhere.
mod Tests
pub mod Api
pub mod Audit
pub mod Autonomy
pub mod Base
pub mod Graph
pub mod Guardrails
pub mod IncidentMemory
pub mod JobQueue
pub mod Policy
pub mod RateLimit
pub mod Report
pub mod Resilience
pub mod Routing
pub mod ServiceGraph
pub mod Session
pub mod SloMetrics
pub mod SloPoller
pub mod Spend
pub mod Tenancy
