-- ===== src/Http.antt =====
-- The compositions of src/http.rs that stand between the handlers and the services.
pub mod Routing
pub mod Submission
