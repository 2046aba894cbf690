-- ===== src/Memories/Namespaces/Nearest.antt =====
-- A step of the scan finds the nearest namespace behind the cursor, or there is none.
use project_memory_hub.Common.{
  ◌≡◌, refl, ◌⊎◌, inl, inr, Bool, true, false, ◌&&◌, Option, none, some, List, ◌==◌, ltb, select,
  In, arith, Bool-cases, Option-cases, In-select, select-In, select-nil,
}
use project_memory_hub.Common.Order.{text_order}
use project_memory_hub.Common.Order.Sort.{first-some, first-none}
use project_memory_hub.Domain.{Uuid, Namespace, agent_rank, BehaviorMemoryRecord}
use project_memory_hub.Memories.Namespaces.{
  namespace_order, namespace_key, row_key, is_source, first_namespace, next_model, next_agent,
  next_row,
}

-- The row's namespace comes behind the cursor.
abbrev pub beyond : Option Namespace → Namespace → Bool
beyond none n = true
beyond (some cursor) n = namespace_order.lt (namespace_key cursor) (namespace_key n)

module _ (project : Uuid) (rows : List BehaviorMemoryRecord) where
  -- What one round of the loop finds: the least source behind the cursor.
  pub record Nearest (cursor : Option Namespace) (row : BehaviorMemoryRecord) : Type 0 where
    pub stored : In row rows
    pub source : is_source project row ≡ true
    pub behind : beyond cursor row.namespace ≡ true
    pub least :
        (other : BehaviorMemoryRecord)
        → In other rows
        → is_source project other ≡ true
        → beyond cursor other.namespace ≡ true
        → namespace_order.lt (row_key other) (row_key row) ≡ false

  abbrev Nothing : Option Namespace → Type 0
  Nothing cursor =
      (other : BehaviorMemoryRecord)
      → In other rows
      → is_source project other ≡ true
      → beyond cursor other.namespace ≡ false

  first_namespace-Nearest :
      (row : BehaviorMemoryRecord) → first_namespace project rows ≡ some row → Nearest none row
  unfolding first_namespace
  first_namespace-Nearest row h =
      let (m, low) = first-some namespace_order row_key (select (is_source project) rows) row h in
      let (place, source) = In-select (is_source project) rows row m in
      record {
        stored = place;
        source = source;
        behind = refl;
        least = λ other n s _. low other (select-In (is_source project) rows other n s);
      }

  abbrev same_agent : Namespace → BehaviorMemoryRecord → Bool
  same_agent cursor row =
      is_source project row
      && agent_rank row.namespace.source_agent == agent_rank cursor.source_agent
      && text_order.lt cursor.model_id row.namespace.model_id

  abbrev later_agent : Namespace → BehaviorMemoryRecord → Bool
  later_agent cursor row =
      is_source project row
      && ltb (agent_rank cursor.source_agent) (agent_rank row.namespace.source_agent)

  -- A source behind the cursor is of the same agent and a later model, or of a later agent.
  behind_cases :
      (cursor : Namespace) (row : BehaviorMemoryRecord)
      → is_source project row ≡ true
      → beyond (some cursor) row.namespace ≡ true
      → (same_agent cursor row ≡ true) ⊎ (later_agent cursor row ≡ true)
  behind_cases cursor row s b = ground arith

  next_model-Nearest :
      (cursor : Namespace) (row : BehaviorMemoryRecord)
      → next_model project cursor rows ≡ some row
      → Nearest (some cursor) row
  unfolding next_model
  next_model-Nearest cursor row h =
      let (m, low) =
        first-some text_order (λ r. r.namespace.model_id) (select (same_agent cursor) rows) row h in
      let (place, found) = In-select (same_agent cursor) rows row m in
      record {
        stored = place;
        source = ground arith;
        behind = ground arith;
        least = λ other n s b. elim (behind_cases cursor other s b) [
          | inl same ↦ ground (arith, low other (select-In (same_agent cursor) rows other n same))
          | inr later ↦ ground arith
        ];
      }

  no_model :
      (cursor : Namespace) (other : BehaviorMemoryRecord)
      → next_model project cursor rows ≡ none
      → In other rows
      → same_agent cursor other ≡ false
  unfolding next_model
  no_model cursor other g n =
      select-nil (same_agent cursor) rows other
        (first-none text_order (λ r. r.namespace.model_id) (select (same_agent cursor) rows) g) n

  next_agent-Nearest :
      (cursor : Namespace) (row : BehaviorMemoryRecord)
      → next_model project cursor rows ≡ none
      → next_agent project cursor rows ≡ some row
      → Nearest (some cursor) row
  unfolding next_agent
  next_agent-Nearest cursor row g h =
      let (m, low) = first-some namespace_order row_key (select (later_agent cursor) rows) row h in
      let (place, found) = In-select (later_agent cursor) rows row m in
      record {
        stored = place;
        source = ground arith;
        behind = ground arith;
        least = λ other n s b. elim (behind_cases cursor other s b) [
          | inl same ↦ absurd (cc (same, no_model cursor other g n))
          | inr later ↦ low other (select-In (later_agent cursor) rows other n later)
        ];
      }

  pub next_row-Nearest :
      (cursor : Option Namespace) (row : BehaviorMemoryRecord)
      → next_row project cursor rows ≡ some row
      → Nearest cursor row
  unfolding next_row
  next_row-Nearest none row h = first_namespace-Nearest row h
  next_row-Nearest (some cursor) row h = elim (Option-cases (next_model project cursor rows)) [
    | inl g ↦ next_agent-Nearest cursor row g (rw g at h)
    | inr (r, g) ↦ next_model-Nearest cursor row (ground arith)
  ]

  pub next_row-Nothing :
      (cursor : Option Namespace) → next_row project cursor rows ≡ none → Nothing cursor
  unfolding next_row first_namespace next_agent
  next_row-Nothing none h other n s = absurd (
      cc (
        s,
        select-nil (is_source project) rows other
            (first-none namespace_order row_key (select (is_source project) rows) h) n,
      ))
  next_row-Nothing (some cursor) h other n s =
      elim (Bool-cases (beyond (some cursor) other.namespace)) [
        | inr f ↦ f
        | inl b ↦
            let g : next_model project cursor rows ≡ none = ground arith in
            let l : next_agent project cursor rows ≡ none = ground arith in
            elim (behind_cases cursor other s b) [
              | inl same ↦ absurd (cc (same, no_model cursor other g n))
              | inr later ↦ absurd (
                  cc (
                    later,
                    select-nil (later_agent cursor) rows other
                        (first-none namespace_order row_key (select (later_agent cursor) rows) l) n,
                  ))
            ]
      ]
