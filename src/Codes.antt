-- ===== src/Codes.antt =====
-- The enumerations that cross the wire and the database as numbers: `entities/inventory.rs`,
-- `entities/skills.rs`, `entities/vocation.rs`, `entities/items.rs` and `entities/agent.rs` of
-- `crates/server/src`, and the site's copies in `crates/site/src/domain`.
pub mod Table
pub mod InventorySlot
pub mod SkillType
pub mod Facing
pub mod AgentKind
pub mod FluidType
pub mod Vocation
pub mod VocationSet
pub mod Site
