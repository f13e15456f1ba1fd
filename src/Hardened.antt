-- ===== src/Hardened.antt =====
-- src/broker-1-hardened.ts: the broker with one high-watermark for the fencing tokens of all keys, which it keeps
-- in a file if it is told to. Its `lock`, `acquireMany` and `ensureNewLockHolder` guard those of src/broker-1.ts,
-- and its lock objects check each token that is minted.
pub mod Watermark
pub mod Storage
pub mod Authority
pub mod Monotone
pub mod Runs
pub mod Headroom
