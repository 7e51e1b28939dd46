-- ===== src/Tests.antt =====
-- The theorems applied to concrete stores, requests and resources.
mod Data
mod Documents
mod Store
mod Rules
mod Service
mod Formatter
mod Serving
mod Keeping
mod Working
mod Facade
mod Limits
