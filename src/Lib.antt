-- ===== src/Lib.antt =====
-- Rebooter Droids, the hub: a web service that keeps a fleet of smart plugs, queues commands for
-- them, watches the network with probes, and power-cycles the plugs when a probe keeps failing.
--
-- Parts and files:
--
--   Commands: app/services/commands.py with app/models/commands.py. Types has the rows, Payload the
--   schemas of `_validate_payload`, Queue `enqueue_for_device` and `enqueue_for_group`, Lifecycle
--   `list_pending_for_device`, `cancel_pending_command`, `record_result` and
--   `expire_overdue_commands`, and Calls the calls as steps on the tables. Queue/Single,
--   Queue/Rows, Queue/Group, Lifecycle/Delivery, Lifecycle/Reports, Lifecycle/Handoff, Payload/Laws and
--   Consistency have the proofs.
--   Watchdog: app/services/watchdog_runtime with app/models/watchdog.py. Actions is _actions.py,
--   which works through `enqueue_for_device`; State is _state.py, the machine of one rule; Tick is
--   the tick of __init__.py. State/Streak, State/History, State/Binding, Actions/Guard and
--   Tick/Guard have the proofs.
--   Tenancy: app/services/tenant_scope.py. The scope, the filter of reads and the guard of writes;
--   Mode is `enforce_mode` with its cache. Isolation and Mode/Convergence have the proofs.
--   Sync: app/services/sync.py and app/services/sync_replicator.py with app/models/sync.py. Types
--   has the tables, Values the columns of a payload, Session the lookups and writes under Tenancy's
--   filter and guard, Apply `apply_outbox_event`, Batch `_apply_event_batch` and the cursors. Tables,
--   Apply/Preserve, Apply/Tombstones, Apply/Isolation, Apply/Writers and Batch/Cursors have the
--   proofs.
--   Enrollment: app/services/enrollment.py with app/models/devices.py, and `_resolve_device` of
--   app/middleware/device_auth.py. Types has the rows, Payload the checks of a registration, Tokens
--   minting and revoking, Consume `consume_enrollment_token`, Auth the lookup of a device by its
--   secret. Tokens/Lookup, Consume/Calls with Writes, Spent and Once, and Auth/RoundTrip have the
--   proofs.
--   Deployments: app/services/deployments.py with app/models/firmware.py. Types has the rows, Create
--   `create_deployment`, Device the offer, its delivery and its completion with `firmware_assignment`
--   of app/blueprints/device_api.py, Calls the calls as steps. Actives, Newest, Single and Rollout
--   have the proofs.
--   Accounts: app/services/users.py, app/services/sessions.py and app/services/password_resets.py in
--   Users, `_resolve_user` of app/middleware/admin_auth.py in Auth, the calls as steps in Calls.
--   Stamps and Cutoff have the proofs.
--   Rbac: app/services/role_bindings.py with app/models/role_bindings.py. Bindings is `grant` and
--   `revoke`, Effective the effective scopes and `can_act_on_…`, Gate the shadow and enforce modes
--   of `require_can_act_on_…`. Bindings/Laws, Bindings/Unique, Effective/Coverage and Gate/Laws
--   have the proofs.
--   Schedules: app/services/schedules.py, app/services/schedule_runtime.py and
--   app/services/runtime_flags.py. Next is `compute_next_run_at`, Flags the maintenance flag,
--   Reconcile `_reconcile_maintenance_flag`, Tick the firing and the tick. Next/Dates, Next/Laws,
--   Reconcile/Laws, Tick/Guard and Tick/Once have the proofs.
--   Webhooks: app/services/webhook_delivery.py. Send is `send_one`, Tick the worker's `tick`,
--   Emit the `emit` of app/services/notifications.py. Send/Life, Tick/Batch, Tick/Loop and
--   Emit/Queued have the proofs.
--   Ssrf: app/services/ssrf_guard.py. Address is `is_blocked_ip`, Validate `validate_url` with
--   `_resolve_all`. Address/Public and Validate/Laws have the proofs. Python's ipaddress is the
--   record `IpLib`.
--   Bus: app/services/event_bus.py, the bounded queues of the SSE subscribers and the fan-out of an
--   event; the consumer's side is `stream` of app/blueprints/admin/devices_api.py. Soundness, Fanout
--   and Registered have the proofs. A `Call` runs from its start to its end; an
--   `Action` is also the put of a publisher whose test is past, or one half of `close`.
--   Base: tests, lists, results, tables, instants and JSON, which the parts share. Examples runs the
--   theorems on concrete rows.
--
-- Sync reads and writes rows through the filter and the guard of Tenancy. The parts meet in the
-- command tables otherwise: every action of a rule is a call of the command queue, in a
-- transaction of its own, and so is every power cycle of a schedule.
--
-- A datetime is the number of microseconds since 0001-01-01 00:00 UTC. A table is an association
-- list with the primary key of the row; a transaction that raises is rolled back, so an error
-- carries no state. The clock, the ids that `new_id` mints, the hashes of secrets and
-- passwords, what a token decodes to, what a probe returns, what the HTTP request of a delivery
-- ends in, and how a name resolves are parameters. A function that reads the clock more than once
-- reads the same instant. The loops of the source run over lists or a fixed
-- number of rounds, so every definition is structural and none needs fuel.
--
-- Not modelled: the HTTP surface, the probes themselves, the texts of log lines, error messages and
-- event details, the emission of sync events and the polling of peers, the editing of
-- subscriptions, the files of firmware releases, external sensors, the detection of conflicts
-- between rules, API tokens, invitations, the creation of users and the request of a reset.
pub mod Base
pub mod Commands
pub mod Watchdog
pub mod Webhooks
pub mod Schedules
pub mod Rbac
pub mod Sync
pub mod Bus
pub mod Examples
pub mod Accounts
pub mod Deployments
pub mod Enrollment
pub mod Ssrf
pub mod Tenancy
