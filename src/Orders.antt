-- ===== src/Orders.antt =====
-- Orders of the partner API, infra/api/orders.ts: Build makes what the user signs, Follow reads one
-- order back, Listed gives a user's orders from the history.
pub mod Build
pub mod Follow
pub mod Listed
