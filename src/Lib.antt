-- ===== src/Lib.antt =====
-- A model of the AI gateway's backend, fastapi_backend/app, of the policies that OPA runs for it, opa/policies, and of the
-- service that classifies intents, intent_classifier_service/app.
--
-- A request to POST /ai/request (api/ai.py) is handled by AIRequestService (services/ai_request_service.py): it
-- chooses the intent (infrastructure/intent_classifier/client.py), resolves it to a service (services/intent_cache_service.py),
-- checks the tenant's permission and quota (repositories/permission_repository.py, services/quota_service.py), stores the
-- request, inspects its latest message for personal data (services/content_inspector_service.py), lets the policies decide
-- (services/policy_service.py, by itself or through OPA), scans the prompt (services/prompt_security_service.py), calls the
-- provider, and redacts what comes back (services/output_guard_service.py) while it streams it to the client.
-- Administrators change the policies and quotas that this code reads through api/admin, behind the gateway's header and a
-- token (core/middleware.py, core/security.py), and the plugins of the gateway through api/admin/gateway_plugins.py. The
-- classifier's client asks intent_classifier_service, which keeps its answers in a bounded cache and in Redis.
--
-- Which file models which part, with paths from the repository's root:
--   Base and its children: Boolean tests, lists, dictionaries, texts as lists of code points, sorting, JSON values.
--   Errors, Errors/Http: core/exceptions.py, core/error_handlers.py and the except clauses of api/ai.py.
--   Regex, Regex/Classes, Regex/Bounds: the patterns of Python's re that the code uses, matched with backtracking order;
--     search and finditer. The classes are those of ASCII.
--   Policy and its children: schemas/policy.py (Schema), services/policy_service.py (ServiceType, Service, Evaluate, Opa, Sync),
--     opa/policies/orchestrator.rego (Rego); Agreement, SameDecision, Denial, FailClosed and the Laws hold the theorems.
--   Request/Schema: schemas/ai_request.py after validation.
--   Inspector and its children: services/content_inspector_service.py; Luhn and Iban its checks, Patterns its patterns.
--   Guard and its children: services/output_guard_service.py.
--   Prompt and its children: services/prompt_security_service.py; a weight is the bit pattern of its
--     double, compared in Doubles.
--   Quota, Quota/Laws: services/quota_service.py; a Redis counter has a value and the second it expires.
--   Intent and its children: repositories/intent_routing_repository.py, services/intent_mappings_service.py and
--     intent_cache_service.py (Service), infrastructure/intent_classifier/client.py and intent_classification/contract.py (Client).
--   Pipeline and its children: services/ai_request_service.py. World holds the tables and the repositories' functions, Exec the
--     coroutine (the tables come back after a raise too, since every call commits), Outside what the repository does not hold,
--     Intent the choice of the intent, Preflight _run_pre_flight, Shield _run_prompt_security_scan, Provider the providers'
--     answers, Stream submit_stream, Reply submit_json; Lifecycle is the relation of the tables before and after a request.
--   Classifier and its children: intent_classifier_service/app. Lru is the OrderedDict of cache_layer.py and Cache the rest of
--     it, Llm llm_classifier.py, Handler main.py; Outside holds what the service does not implement.
--   Gateway and its children: api/admin/gateway_plugins.py (Kong its exchange, Nested the flattening, Plugins the endpoints,
--     Discovery the report on the routes, which its children Routes, Sorted and Listed describe apart from the loops), core/middleware.py and core/gateway_signature.py (Admission), core/security.py (Tokens).
--   Admin and its children: api/admin/policies.py with repositories/policy_repository.py (Policies), quotas_admin.py (Quotas),
--     metrics.py (Metrics), security_patterns.py (Patterns) and the score of security_events_admin.py (Score); Access is what stands before such an endpoint.
--   Tests: runs on concrete inputs and the theorems applied at them.
--
-- A function of the code is the definition of its name in snake case; a method takes its object's attributes as a record.
--
-- Bounds and fuel: a star of a pattern is unrolled as often as the text has characters left, which is enough since a round
-- that consumes nothing ends it; the remainder of the IBAN check has as many rounds as digits, the slices of a Gemini
-- answer as many as characters, and the model of the classifier is asked at most twice. Numbers are natural numbers; Python's
-- integers do not overflow.
--
-- Arguments of the model: spaCy, SHA-256, float addition and conversion, the rendering of values as text, the reading of
-- stored policies and patterns, the date of a time, the new ids, and the answers of OPA, of the classifier and of the providers;
-- for the classifier service the order of floats, Redis, the JSON of pydantic and the model's server; HMAC, the verification of
-- a token, Kong's answers, and the two ratios of the administration that are computed on floats.
--
-- Not modelled: log lines, message texts beside those named, time stamps set by the database, the background refresh of the
-- cache, the taxonomy files, the catalog of plugins, the groups and averages of the dashboard, the retention of logs, and a
-- client that stops reading a stream. Each is listed with its reason in the manifest of the development.
pub mod Admin
pub mod Base
pub mod Classifier
pub mod Errors
pub mod Gateway
pub mod Policy
pub mod Regex
pub mod Request
pub mod Inspector
pub mod Guard
pub mod Prompt
pub mod Quota
pub mod Intent
pub mod Pipeline
pub mod Tests
