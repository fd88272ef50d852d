-- ===== src/Admin.antt =====
-- The endpoints of the administrators, fastapi_backend/app/api/admin.
pub mod Access
pub mod Policies
pub mod Quotas
pub mod Metrics
pub mod Score
pub mod Patterns
