-- ===== src/Lib.antt =====
-- A verification library of the game server. It models the parts of `crates/server/src` that decide
-- by themselves, without the network, the database or the map, the protocol between the server and the
-- clients of `crates/loadtest/src`, and the codes that the web site in `crates/site/src` shares with
-- it. Each operation is a function by clauses on a state passed in and
-- out; a panic and a loop out of fuel are outcomes of their own (Prelude/Outcome). Integers of the
-- source are natural numbers with the wrap-around of a release build written out; signed ones are the
-- integers of Prelude/Int.
--
-- The parts, and their files:
--   LocalId         `local_id.rs`: the map from global ids to a session's 16-bit ids, with slots,
--                   generations and a cursor. A session's handlers use it to name open containers.
--   Codes           the enumerations of `entities` that are sent or stored as numbers, the set of
--                   vocations, and the site's copies (`crates/site/src/domain`).
--   Geometry        `entities/position.rs`: positions, directions, placements and rectangles.
--   Vitals          `Pool` of `entities/agent.rs`: life and mana.
--   Combat          the enumerations of `entities/combat.rs`.
--   Participation   `Participation` of `entities/combat.rs`: who damaged an agent, and the shares of
--                   the experience for it.
--   Skills          `game/skills.rs`: what levels cost, and gaining and losing them.
--   Effects         `AreaShape` of `entities/effects.rs`: masks of tiles and their turns.
--   DamageOverTime  `DamageOverTime` of `entities/conditions.rs`: the hits of a burning agent.
--   Conditions      `Conditions` of `entities/conditions.rs`: the table of what an agent is under.
--                   Kinds has the data, Damage and Status the last three operations; View reads the
--                   list as a table of slots, and Laws, Timers, Replacing, Damages and Stale say what
--                   each operation does to it.
--   Items           `entities/items.rs`: flags, attributes, and items with what lies in them.
--   Money           `game/money.rs`: change, and what a player's coins can pay. It searches the items
--                   of the inventory for coins; Worth has what they are worth.
--   Wire            `messages.rs` and `crates/loadtest/src/wire/codec.rs`: the frames between a client
--                   and the server. Server and Loadtest are the two crates' codecs, which share no
--                   code; Values, ServerValues, ClientMessage and ServerMessage have the data, and
--                   Buffer what both rely on in the crate `bytes`. Parsing has the rules by which the
--                   round trips are put together, Safe those for readers that never panic. An id of
--                   LocalId is an agent's id in a message (SessionIds).
--   Inventory       `entities/inventory.rs`: what is worn and carried, on top of Items. Nested has the
--                   insertion into a container inside, Weight and Equipment what its operations keep,
--                   Stowing `stow_item` of `game/item_movement.rs`.
--   Chat            `actors/chat.rs` and what it calls of `actors/message_router.rs`: the members of the
--                   channels and whom a message reaches. Handle has the start and the handle.
--
-- Loops and fuel: `claim_index` tries each of the 4094 indices at most once and has that many rounds;
-- `advance` raises a `u16` and has 65536 rounds; `regress` lowers the value and has one round for each
-- level; `make_change` has a round for each coin of a kind. The loops of the load test's codec that run up to a mark have a round for each
-- byte of the buffer and one more. Each theorem about them says that they return. Items are finite trees, and their functions recur on them.
--
-- Parameters: the buffer of the crate `bytes`, of which the laws of its calls are given (LittleEndian
-- meets them), what a session's queue answers to a message, the powers in 32-bit floating point of the skill curves, the comparison in 64-bit
-- floating point of a decaying condition, the game's configuration, and fresh guids. An agent's key and
-- a text are numbers, since they are only compared. A hash map is a list in any order.
--
-- Not modelled: the actors and the database, which only move data; the counters of the telemetry that
-- the server's codec raises; the map, combat, spells, creatures and characters of the game's own loop;
-- the shops, which stand on the inventory; the site's pages and its API; the rest of the load test and
-- the generator of certificates.
pub mod Prelude
pub mod LocalId
pub mod Codes
pub mod Geometry
pub mod Vitals
pub mod Wire
pub mod Chat
pub mod Inventory
pub mod Participation
pub mod Skills
pub mod Combat
pub mod Effects
pub mod DamageOverTime
pub mod Conditions
pub mod Items
pub mod Money
