-- ===== src/Policy.antt =====
-- Governance policies: fastapi_backend/app/services/policy_service.py, its schemas, and the Rego
-- rules of opa/policies that the external evaluator runs.
pub mod Schema
pub mod ServiceType
pub mod Service
pub mod Evaluate
pub mod Opa
pub mod Rego
pub mod Sync
pub mod Denial
pub mod Agreement
pub mod SameDecision
pub mod FailClosed
