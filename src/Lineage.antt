-- ===== src/Lineage.antt =====
-- app/lineage_queue.go: the queue of lineage updates.
pub mod Queue
