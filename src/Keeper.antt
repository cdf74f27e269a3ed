-- ===== src/Keeper.antt =====
-- keeper/keeper.mjs: the service that fills requests.
pub mod Sweep
pub mod Reasons
pub mod Rpc
pub mod WorkingSet
pub mod Market
pub mod Trigger
pub mod Reconcile
pub mod Wire
pub mod Submit
pub mod Queue
mod Examples
