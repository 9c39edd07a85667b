-- ===== src/Http.antt =====
-- Requests, responses, middleware, routes and the guards of mutating requests: the parts of
-- crates/axonyx-runtime/src/server.rs that handle one request, mutation_security.rs, csrf_http.rs and
-- the routes of lib.rs.
pub mod Text
pub mod Request
mod Splits
mod Decimal
pub mod Url
pub mod Response
pub mod Events
pub mod Middleware
pub mod Origin
pub mod Csrf
pub mod Routing
mod Tests
