-- ===== src/Vehicle.antt =====
-- apps/api-nest/src/vehicle.service.ts and vehicle-cache.ts
mod Tests
pub mod Risk
pub mod Cache
pub mod Summary
pub mod Timeline
