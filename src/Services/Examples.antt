-- ===== src/Services/Examples.antt =====
-- Concrete instances of what services/ takes as parameters, for the theorems at concrete inputs.
pub mod Disk
pub mod Healthy
pub mod Names
pub mod Codec
pub mod Chain
pub mod Node
pub mod Transactions
pub mod Signing
pub mod SigningLaws
pub mod Tokens
mod StoreRuns
mod NodeRuns
mod OpRuns
mod BuildRuns
mod SigningRuns
mod OpenRuns
mod ValidateRuns
