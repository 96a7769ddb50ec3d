-- ===== src/Http.antt =====
-- http.c: the parsing of requests, and the headers of responses.
pub mod Uri
pub mod Number
pub mod Range
pub mod Response
pub mod Headers
pub mod Parse
pub mod Overrun
mod Tests
