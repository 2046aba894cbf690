-- ===== src/Memories/Namespaces/Laws.antt =====
-- The scan lists the namespaces that have rows to compact: each once, in order, none left out.
use project_memory_hub.Common.{
  ℕ, zero, suc, ◌≡◌, refl, ap, subst, ◌⊎◌, inl, inr, true, Option, none, some, List, [], ◌∷◌,
  length, In, All, arith, Bool-cases, Option-cases,
}
use project_memory_hub.Common.Exec.{ok}
use project_memory_hub.Text.{Text}
use project_memory_hub.Domain.{Uuid, Namespace, BehaviorMemoryRecord}
use project_memory_hub.Domain.Equal.{agent_rank-injective}
use project_memory_hub.Database.{Db}
use project_memory_hub.Memories.Namespaces.{
  namespace_order, namespace_key, row_key, is_source, next_row, scan_namespaces,
  list_compaction_namespaces_on_connection,
}
use project_memory_hub.Memories.Namespaces.Nearest.{
  beyond, Nearest, next_row-Nearest, next_row-Nothing,
}

-- The list is strictly ascending by source and model, and all of it behind the cursor.
abbrev pub IsAscending : Option Namespace → List Namespace → Type 0
IsAscending cursor [] = Unit
IsAscending cursor (n ∷ ns) = (beyond cursor n ≡ true) × IsAscending (some n) ns

namespace_key-injective : (a b : Namespace) → namespace_key a ≡ namespace_key b → a ≡ b
namespace_key-injective a b e = ground (
  arith,
  agent_rank-injective a.source_agent b.source_agent,
  ap (λ (p : ℕ × Text). p.0) e,
  ap (λ (p : ℕ × Text). p.1) e,
)

-- A row of the project that a compaction may take.
pub record IsSource (project : Uuid) (rows : List BehaviorMemoryRecord) (n : Namespace)
    : Type 0 where
  pub row : BehaviorMemoryRecord
  pub stored : In row rows
  pub source : is_source project row ≡ true
  pub named : row.namespace ≡ n

-- The list `ns`, of at most `room`, against the sources behind the cursor: strictly ascending; each
-- entry the namespace of a source; and a source's namespace left out only if the list is full, of
-- earlier namespaces.
pub record Enumerates (project : Uuid) (rows : List BehaviorMemoryRecord) (room : ℕ)
    (cursor : Option Namespace) (ns : List Namespace) : Type 0 where
  pub ascending : IsAscending cursor ns
  pub sound : All (IsSource project rows) ns
  pub complete :
      (other : BehaviorMemoryRecord)
      → In other rows
      → is_source project other ≡ true
      → beyond cursor other.namespace ≡ true
      → In other.namespace ns
        ⊎ ((length ns ≡ room)
            × All (λ n. namespace_order.lt (namespace_key n) (row_key other) ≡ true) ns)

module _ (project : Uuid) (rows : List BehaviorMemoryRecord) where
  Enumerates-cons :
      (room : ℕ) (cursor : Option Namespace) (row : BehaviorMemoryRecord) (ns : List Namespace)
      → Nearest project rows cursor row
      → Enumerates project rows room (some row.namespace) ns
      → Enumerates project rows (suc room) cursor (row.namespace ∷ ns)
  Enumerates-cons room cursor row ns near rest = record {
    ascending = (near.behind, rest.ascending);
    sound = (
      record { row = row; stored = near.stored; source = near.source; named = refl },
      rest.sound,
    );
    complete = λ other m s b. elim (Bool-cases (namespace_order.lt (row_key row) (row_key other))) [
      | inl before ↦ elim (rest.complete other m s before) [
        | inl kept ↦ inl (inr kept)
        | inr (full, all_before) ↦ inr (ap suc full, (before, all_before))
      ]
      | inr not_before ↦ inl (
          inl (
            namespace_key-injective other.namespace row.namespace (
              namespace_order.tri (row_key other) (row_key row) (near.least other m s b)
                not_before)))
    ];
  }

  scan_namespaces-Enumerates :
      (room : ℕ) (cursor : Option Namespace)
      → Enumerates project rows room cursor (scan_namespaces room project cursor rows)
  unfolding scan_namespaces
  scan_namespaces-Enumerates zero cursor = record {
    ascending = tt;
    sound = tt;
    complete = λ other m s b. inr (refl, tt);
  }
  scan_namespaces-Enumerates (suc room) cursor =
      elim (Option-cases (next_row project cursor rows)) [
        | inl stop ↦
            rw (stop, scan_namespaces)
              (record {
                ascending = tt;
                sound = tt;
                complete = λ other m s b.
                    absurd (cc (b, next_row-Nothing project rows cursor stop other m s));
              })
        | inr (row, found) ↦
            rw (found, scan_namespaces)
              (Enumerates-cons room cursor row _ (next_row-Nearest project rows cursor row found)
                (scan_namespaces-Enumerates room (some row.namespace)))
      ]

-- The namespaces that a compaction is to visit are listed strictly ascending by source and model,
-- each because an active row that is no retrospective has it, and one is left out only if the limit
-- is reached by earlier ones.
pub list_compaction_namespaces-Enumerates :
    (project : Uuid) (limit : ℕ) (db : Db) (ns : List Namespace)
    → list_compaction_namespaces_on_connection project limit db ≡ ok ns
    → Enumerates project db.memories limit none ns
unfolding list_compaction_namespaces_on_connection
list_compaction_namespaces-Enumerates project limit db ns h =
    let e : scan_namespaces limit project none db.memories ≡ ns = ground arith in
    subst (Enumerates project db.memories limit none) e
      (scan_namespaces-Enumerates project db.memories limit none)
