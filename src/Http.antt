-- ===== src/Http.antt =====
-- src/osc-query-http.cpp: what is read of a request and which answer it gets, and the accept loop.
pub mod Request
pub mod Decoding
pub mod Routing
pub mod Accept
pub mod Admission
pub mod Listening
pub mod Response
