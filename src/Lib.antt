-- ===== src/Lib.antt =====
-- Dox: the control plane that records what AI agents do, charges it to a tenant's quota, judges it and
-- tells who has to know. This library models its services and proves what they promise.
--
-- The parts, and how they interact. An event reaches the ingestion service, which charges the tenant's
-- quota, stores a row, publishes the event on a bus, counts it and has the sentinel service make the
-- alerts that its type triggers. The stored rows are read by the query service, which also checks their
-- hashes, and by the drift service, which compares an agent's recent events with a baseline and may
-- have the sentinel make an alert. The policy service says which action a request meets. The
-- notification service sends an alert to the webhooks that subscribe. The registry holds the profiles
-- of the agents, the user service the accounts, the tenant service the tenants, and the audit service
-- a trail of what was done. A login gives a token to an account. The compliance report sums up a tenant's
-- rows. The workflow graphs drive these services: they answer an alert, ask a human, replay a session
-- or analyse drift, and record what they did. The SDK builds the events and sends them.
--
-- The files, by the code that they model:
--   Quota, Quota/*          services/quota/service.py, common/models/quota.py
--   Ingestion, Ingestion/*  services/ingestion/service.py
--   Events                  common/schemas/events.py, common/models/event.py
--   Policy, Policy/*        services/policy/service.py, the policies of services/sentinel/service.py
--   Sentinel, Sentinel/*    services/sentinel/service.py
--   Drift, Drift/*          services/drift/service.py, common/models/baseline.py
--   Query, Query/*          services/query/service.py, common/audit/integrity.py
--   Notify, Notify/*        services/notify/service.py, common/models/webhook.py
--   Registry, Registry/*    services/registry/service.py, common/models/agent.py
--   Audit, Audit/*          services/audit/{service,router}.py, common/models/audit_log.py
--   Users, Users/*          services/users/service.py, common/models/user.py
--   Tenants, Tenants/*      services/tenant/service.py, common/models/tenant.py
--   Compliance, ...         services/compliance/service.py
--   Api                     common/api/exceptions.py
--   Auth, Auth/*            services/auth, common/auth
--   Policy/Config           common/policy_config.py
--   Workflow, Workflow/*    langgraph_workflows: the graphs, and runs of a graph as chains of steps
--   Sdk, Sdk/*              sdk/python/dox_sdk
--   Schema, Schema/*        common/schemas/validators.py, the validators of common/schemas/events.py
--   Adapters, Adapters/*    common/adapters
--   Enums                   common/schemas/enums.py
--   Result                  common/exceptions/__init__.py, and methods that may raise
--   Sql, Sql/*              what the services use of SQLAlchemy
--   Clock, Json, Sorting, Prelude: instants and dates, payloads, sorting, shared names and lemmas
--
-- How state and calls correspond. The state of a service is its table, the list of the committed rows.
-- A method is a function `Exec`, from the table to its result or error and the table that it leaves; a
-- commit before a raise stays. What a method draws (uuid4, datetime.now) is an argument: `Env`, `Draw`.
-- An insert that meets a unique key of the model raises and writes nothing; a changed object is written
-- to the row with its primary key. A method keeps its name, but for `record`, `get` and `_deliver`,
-- which are `record_entry`, `get_entry` or `get_profile`, and `deliver`, and those of the user and
-- tenant services, which end in `_user` or `_tenant`. A workflow's node is a function of its state and
-- the tables together (`Scene`), and LangGraph's order of the nodes is the chain `Reach`.
--
-- Parameters. The database engine (`Sql`: which rows a query returns and how it orders them, but not
-- the order within), the event bus, the HTTP client, the hash of a payload or password and the
-- signature of a body are code outside the repository, or calls of such code; so are LangGraph, the
-- token and password libraries (`Crypto`), the texts of UUIDs and numbers, the stripping of white space
-- (`Platform`), the reading of YAML, the file system (`Disk`) and the arithmetic of floats (`Float`:
-- the operations that the code calls, with the order of the literals in tenths). `Sql.Engine` is an
-- engine that meets the laws and `Drift.Decimals` an arithmetic that does, and the tests use them.
--
-- Numbers. An instant is the number of microseconds since 1 January of the year 1, in UTC; a date and
-- the first instant of a month follow the calendar. A score is a float of the parameter `Float`; its
-- severity is that of the value before it is rounded, as in the code. Identifiers are numbers; a
-- counter is a signed integer. Integers have no bound, as in Python; the column widths of the
-- database are not modelled. Every loop is structural recursion over a list, so there is no fuel;
-- but a run of a workflow takes a number of steps, which is its rank at the start plus one: every edge
-- lowers the rank of the node.
--
-- Not modelled: the texts of errors and alerts; concurrent requests within one method (each method
-- runs alone); the fields of an event that no service reads and no validator checks; the adapters over
-- Redis and the environment; the routes other than the login and those of the audit trail,
-- configuration, logging, tracing and migrations.
pub mod Prelude
pub mod Result
pub mod Sorting
pub mod Sql
pub mod Clock
pub mod Enums
pub mod Json
pub mod Events
pub mod Sentinel
pub mod Quota
pub mod Adapters
pub mod Ingestion
pub mod Policy
pub mod Drift
pub mod Query
pub mod Notify
pub mod Registry
pub mod Audit
pub mod Users
pub mod Schema
pub mod Compliance
pub mod Api
pub mod Auth
pub mod Tenants
pub mod Sdk
pub mod Workflow
