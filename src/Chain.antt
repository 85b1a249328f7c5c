-- ===== src/Chain.antt =====
-- chain/: reading the transfers of a transaction's code.
pub mod Balance
pub mod Payload
