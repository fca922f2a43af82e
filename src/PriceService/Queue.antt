-- ===== src/PriceService/Queue.antt =====
-- The queue of price requests in price_service.go: the Lua scripts of EnqueueUniqueRequest,
-- EnqueueUniqueRequests and ProcessPriceRequests, and how the latter cuts the requests into
-- batches and reads one.
pub mod Scripts
pub mod Spec
pub mod Refines
pub mod History
pub mod Batches
pub mod Messages
mod Tests
