-- ===== src/Pool.antt =====
-- The RPC endpoint pool: `RpcEndpointPool` of ingestion/rpc_pool.py.
pub mod State
pub mod Health
pub mod Pick
pub mod Marks
pub mod Alert
pub mod Probe
pub mod History
pub mod Reach
mod Tests
pub mod Once
