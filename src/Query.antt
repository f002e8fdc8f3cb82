-- ===== src/Query.antt =====
-- queryengine/, app/query_handler.go, app/query_fastpath.go and app/service.go: how a query is answered.
pub mod Cache
pub mod Match
pub mod Command
pub mod Engine
pub mod Handler
pub mod Local
pub mod Merge
pub mod Options
pub mod Peers
pub mod Persist
pub mod Raw
pub mod Rows
