-- ===== src/Domain/Equal.antt =====
-- Equality of the enumerations by the order of their values, and of namespaces.
use project_memory_hub.Common.{◌≡◌, true, arith}
use project_memory_hub.Text.Equal.{text_eq→eq, text_eq_refl}
use project_memory_hub.Domain.{
  SourceAgent, agent_rank, MemoryKind, kind_rank, Namespace, same_namespace,
}

pub agent_rank-injective : (a b : SourceAgent) → agent_rank a ≡ agent_rank b → a ≡ b
agent_rank-injective a b h = ground arith

pub kind_rank-injective : (a b : MemoryKind) → kind_rank a ≡ kind_rank b → a ≡ b
kind_rank-injective a b h = ground arith

pub same_namespace→eq : (a b : Namespace) → same_namespace a b ≡ true → a ≡ b
unfolding same_namespace
same_namespace→eq a b h =
    ground
      (arith, agent_rank-injective a.source_agent b.source_agent, text_eq→eq a.model_id b.model_id)

pub same_namespace_refl : (a : Namespace) → same_namespace a a ≡ true
unfolding same_namespace
same_namespace_refl a = ground (arith, text_eq_refl a.model_id)

pub eq→same_namespace : (a b : Namespace) → a ≡ b → same_namespace a b ≡ true
eq→same_namespace a b e = rw e (same_namespace_refl b)
