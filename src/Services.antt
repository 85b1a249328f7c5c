-- ===== src/Services.antt =====
-- services/: the data store and the endpoints.
pub mod Ontology
pub mod Address
pub mod Keys
pub mod Errors
pub mod Types
pub mod Validate
pub mod Badger
pub mod Store
pub mod Lookup
pub mod Account
pub mod Indexer
pub mod Operations
pub mod Construction
pub mod Mempool
pub mod Network
pub mod Opening
pub mod Examples
