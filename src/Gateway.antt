-- ===== src/Gateway.antt =====
-- The gateway in front of the backend: fastapi_backend/app/core/middleware.py, gateway_signature.py and
-- security.py, and the administration of Kong, api/admin/gateway_plugins.py.
pub mod Outcome
pub mod Nested
pub mod Kong
pub mod Plugins
pub mod Discovery
pub mod Admission
pub mod Tokens
