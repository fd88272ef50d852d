-- ===== src/Pipeline.antt =====
-- The life of an AI request, fastapi_backend/app/services/ai_request_service.py and its repositories.
pub mod Exec
pub mod World
pub mod Outside
pub mod Intent
pub mod Shield
pub mod Preflight
pub mod Provider
pub mod Stream
pub mod Reply
pub mod Submit
pub mod Lifecycle
