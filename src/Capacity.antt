-- ===== src/Capacity.antt =====
-- app/service.go and app/app.go: the capacity registry, from the issuing of an id to the release.
pub mod CapId
pub mod Records
pub mod Registry
