-- ===== src/PriceService/Fetch.antt =====
-- FetchAndProcessBatchPrices of price_service.go.
pub mod Plan
pub mod Query
pub mod Finish
pub mod Shape
pub mod Ready
pub mod Laws
pub mod Rows
pub mod Returns
pub mod Forgets
mod Tests
