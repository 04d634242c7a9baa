-- ===== src/Web.antt =====
-- The web side of src/main.rs: what it logs of a request, the captive portal, the routes of `build_app`
-- and the pool of `web_task`.
pub mod Agent
pub mod Portal
pub mod Routes
pub mod Workers
pub mod Task
