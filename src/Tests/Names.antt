-- ===== src/Tests/Names.antt =====
-- The names of containers.
use optimusdb.Base.{◌≡◌, refl, true}
use optimusdb.Base.Text.{codes}
use optimusdb.Election.Names.{looks_like_hash, scan_hash}

replica_set_is_hash : looks_like_hash (codes "7d9f8c6b5") ≡ true
unfolding looks_like_hash scan_hash
replica_set_is_hash = refl

pod_is_hash : looks_like_hash (codes "x2k9q") ≡ true
unfolding looks_like_hash scan_hash
pod_is_hash = refl
