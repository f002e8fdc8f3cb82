-- ===== src/Crud.antt =====
-- app/service.go: the commands that update and delete documents, from the resolved store on.
pub mod Ids
pub mod Update
pub mod Delete
