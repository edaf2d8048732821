-- ===== src/Multisign.antt =====
-- internal/multisign: a document that several people must sign. `Session` is the record and its
-- matching rules, `Service` the operations over the in-memory store, and the others prove laws.
pub mod Session
pub mod Service
pub mod Collect
pub mod Submit
