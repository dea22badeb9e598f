-- ===== src/Selector.antt =====
-- packages/scraper-core/src: selectorRegistry.ts and types.ts
mod Tests
pub mod Registry
pub mod Validate
