-- ===== src/Codes/AgentKind.antt =====
-- `AgentKind` of `crates/server/src/entities/agent.rs`.
use rustibia_server.Prelude.{ℕ, ◌≡◌, ◌↔◌, refl, Option, some, List, [], ◌∷◌}
use rustibia_server.Codes.Table.{from_repr, from_repr_iff}

pub data AgentKind : Type 0 where
  player creature npc : AgentKind

unfoldable pub as_id : AgentKind → ℕ
as_id player = 0
as_id creature = 1
as_id npc = 2

-- The variants in the order of their discriminants.
abbrev pub all : List AgentKind
all = player ∷ creature ∷ npc ∷ []

unfoldable pub from_id : ℕ → Option AgentKind
from_id n = from_repr all n

decodes_own : (x : AgentKind) → from_repr all (as_id x) ≡ some x
unfolding as_id
decodes_own player = refl
decodes_own creature = refl
decodes_own npc = refl

-- A number decodes to a variant exactly if it is the variant's code; all others are refused.
pub agent_kind_codes : (n : ℕ) (x : AgentKind) → (from_id n ≡ some x) ↔ (as_id x ≡ n)
unfolding as_id from_id
agent_kind_codes n x = from_repr_iff as_id all n x (refl, (refl, (refl, tt))) (decodes_own x)
