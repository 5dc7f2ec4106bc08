-- ===== src/Edge.antt =====
-- The ASGI middleware in front of the routes.
pub mod BodyLimit
