-- ===== src/Request.antt =====
-- The body of a request, fastapi_backend/app/schemas/ai_request.py.
pub mod Schema
