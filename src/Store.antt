-- ===== src/Store.antt =====
-- app/batch_put.go and app/group_commit.go: how documents are written to a document store.
-- The store is go-orbit-db's iface.DocumentStore, which the application only calls: its Put and
-- PutAll are parameters here.
pub mod Batch
pub mod Commit
