-- ===== src/Promotions/Approve.antt =====
-- What an approval needs, and what it leaves.
use project_memory_hub.Common.{
  ◌≡◌, ◌≢◌, refl, inl, inr, Bool, true, false, ◌&&◌, Option, none, some, List, ◌==◌, if◌then◌else◌,
  find_first, In, arith, Option-cases, same_some, ap, ◌∙◌, subst, find_first-some,
}
use project_memory_hub.Common.Exec.{
  Error, Result, ok, pure, guard, key_error, bind-ok, bind_lift-ok,
}
use project_memory_hub.Text.{Text}
use project_memory_hub.Domain.{
  Uuid, Instant, Namespace, same_namespace, ProjectFactInput, FactRecord, BehaviorMemoryRecord,
}
use project_memory_hub.Domain.Equal.{same_namespace→eq}
use project_memory_hub.Database.{Db, PromotionRow, PromotionStatus, pending, approved, rejected}
use project_memory_hub.Memories.Compact.{agent_text}
use project_memory_hub.Memories.Search.{get_scoped}
use project_memory_hub.Facts.Observe.{Observed, observe_on_connection}
use project_memory_hub.Promotions.{exact_safe_persisted, is_pending}
use project_memory_hub.Promotions.Approval.{
  Joined, join_memory, approve_row, write_approval, shared_rule, approval_evidence, Drawn,
  effective_actor, approve_on_connection, approve_joined,
}

-- The promotion that is read by an id.
abbrev pub promotion_of : Uuid → Db → Option PromotionRow
promotion_of promotion_id db =
    find_first (λ (row : PromotionRow). row.promotion_id == promotion_id) db.promotions

-- The promotion is there, not rejected, and for a stored memory of exactly this project, source and
-- model.
pub record IsApprovable (project_id : Uuid) (namespace : Namespace) (promotion_id : Uuid) (s : Db)
    : Type 0 where
  pub promotion : PromotionRow
  pub memory : BehaviorMemoryRecord
  pub found : promotion_of promotion_id s ≡ some promotion
  pub not_rejected : promotion.status ≢ rejected
  pub stored : In memory s.memories
  pub of_memory : memory.memory_id ≡ promotion.memory_id
  pub of_project : memory.project_id ≡ project_id
  pub of_namespace : memory.namespace ≡ namespace

abbrev pub is_approved : PromotionStatus → Bool
is_approved approved = true
is_approved _ = false

pub join_memory-some :
    (project_id : Uuid) (memories : List BehaviorMemoryRecord) (found : Option PromotionRow)
    (promotion : PromotionRow) (memory : BehaviorMemoryRecord)
    → join_memory project_id memories found ≡ some (promotion, memory)
    → (found ≡ some promotion)
      × In memory memories
      × (memory.memory_id ≡ promotion.memory_id)
      × (memory.project_id ≡ project_id)
join_memory-some project_id memories none promotion memory h = cc
join_memory-some project_id memories (some p) promotion memory h =
    elim (Option-cases (
      find_first
        (λ (m : BehaviorMemoryRecord). m.memory_id == p.memory_id && m.project_id == project_id)
        memories)) [
          | inl e ↦ absurd (cc (rw e at h))
          | inr (m, e) ↦
              let pair : some (p, m) ≡ some (promotion, memory) = rw e at h in
              let (place, test) = find_first-some _ memories m e in
              let both : (p, m) ≡ (promotion, memory) = same_some pair in
              let e0 = ap (λ (x : Joined). x.0) both in
              let e1 = ap (λ (x : Joined). x.1) both in
              (
                ap some e0,
                subst (λ x. In x memories) e1 place,
                ground (
                  arith,
                  ap (λ (x : PromotionRow). x.memory_id) e0,
                  ap (λ (x : BehaviorMemoryRecord). x.memory_id) e1,
                ),
                ground (arith, ap (λ (x : BehaviorMemoryRecord). x.project_id) e1),
              )
        ]

pub effective_actor-not_rejected :
    (redact : Text → Text) (promotion : PromotionRow) (actor effective : Text)
    → effective_actor redact promotion actor ≡ ok effective
    → promotion.status ≢ rejected
unfolding effective_actor
effective_actor-not_rejected redact promotion actor effective h k =
    cc (rw (k, effective_actor) at h)

guard-ok : (b : Bool) (e : Error) (done : Unit {0}) → guard b e ≡ ok done → b ≡ true
guard-ok true e done h = refl
guard-ok false e done h = cc

-- The tables in which the promotion is marked.
abbrev pub marked : Uuid → PromotionStatus → Text → Instant → Db → Db
marked promotion_id status effective observed_at s =
    if is_pending status then approve_row promotion_id effective observed_at s else s

marked-eq :
    (promotion_id : Uuid) (status : PromotionStatus) (effective : Text) (at : Instant) (s : Db)
    → (if is_pending status then approve_row promotion_id effective at else λ db. db) s
      ≡ marked promotion_id status effective at s
marked-eq promotion_id pending effective at s = refl
marked-eq promotion_id approved effective at s = refl
marked-eq promotion_id rejected effective at s = refl

-- What the writes of an approval do: an observation, in the tables with the mark.
pub record IsWritten (promotion_id : Uuid) (status : PromotionStatus) (effective : Text)
    (drawn : Drawn) (s t : Db) : Type 0 where
  pub project_id : Uuid
  pub fact : ProjectFactInput
  pub observed : Observed
  pub recorded :
      observe_on_connection project_id fact drawn.now drawn.fact_id
        (marked promotion_id status effective drawn.observed_at s)
      ≡ (ok observed, t)

write_approval-IsWritten :
    (promotion_id : Uuid) (status : PromotionStatus) (project_id : Uuid)
    (rule source_agent model_id effective : Text) (drawn : Drawn) (s t : Db) (f : FactRecord)
    → write_approval promotion_id status project_id rule source_agent model_id effective drawn s
      ≡ (ok f, t)
    → IsWritten promotion_id status effective drawn s t
unfolding write_approval
write_approval-IsWritten promotion_id status project_id rule source_agent model_id effective drawn s
      t f h =
    let fact =
      shared_rule rule (approval_evidence effective model_id promotion_id source_agent)
        drawn.observed_at in
    let (o, mid, observed, done) =
      bind-ok (observe_on_connection project_id fact drawn.now drawn.fact_id)
        (λ x. pure x.fact_record) _ t f h in
    record {
      project_id = project_id;
      fact = fact;
      observed = o;
      recorded =
          subst (λ u. observe_on_connection project_id fact drawn.now drawn.fact_id u ≡ (ok o, t))
            (marked-eq promotion_id status effective drawn.observed_at s)
            (observed ∙ ap (λ (x : Result FactRecord × Db). (ok o, x.1)) done);
    }

module _ (redact : Text → Text) (promotion_id : Uuid) (actor : Text) (drawn : Drawn) where
  approve_on_connection-ok :
      (promotion : PromotionRow) (memory : BehaviorMemoryRecord) (s t : Db) (f : FactRecord)
      → approve_on_connection redact promotion_id promotion memory actor drawn s ≡ (ok f, t)
      → (effective : Text) × (effective_actor redact promotion actor ≡ ok effective)
        × IsWritten promotion_id promotion.status effective drawn s t
  unfolding approve_on_connection
  approve_on_connection-ok promotion memory s t f h =
      let (rule, safe, h1) =
        bind_lift-ok (exact_safe_persisted redact promotion.proposed_rule) _ s t f h in
      let (agent, agent_ok, h2) =
        bind_lift-ok (exact_safe_persisted redact (agent_text memory.namespace.source_agent)) _ s t
          f h1 in
      let (model, model_ok, h3) =
        bind_lift-ok (exact_safe_persisted redact memory.namespace.model_id) _ s t f h2 in
      let (effective, by, h4) = bind_lift-ok (effective_actor redact promotion actor) _ s t f h3 in
      (
        effective,
        by,
        write_approval-IsWritten promotion_id promotion.status memory.project_id rule agent model
            effective drawn s t f h4,
      )

  pub approve_joined-ok :
      (project_id : Uuid) (namespace : Namespace) (promotion : PromotionRow)
      (joined : BehaviorMemoryRecord) (s t : Db) (f : FactRecord)
      → approve_joined redact project_id namespace promotion_id actor drawn (promotion, joined) s
        ≡ (ok f, t)
      → (joined.namespace ≡ namespace)
        × (effective : Text) × (effective_actor redact promotion actor ≡ ok effective)
        × IsWritten promotion_id promotion.status effective drawn s t
  approve_joined-ok project_id namespace promotion joined s t f h =
      let (agent, agent_ok, h1) =
        bind_lift-ok (exact_safe_persisted redact (agent_text joined.namespace.source_agent)) _ s t
          f h in
      let (model, model_ok, h2) =
        bind_lift-ok (exact_safe_persisted redact joined.namespace.model_id) _ s t f h1 in
      let (done, same, h3) =
        bind_lift-ok (guard (same_namespace joined.namespace namespace) key_error) _ s t f h2 in
      let (memory, visible, h4) =
        bind_lift-ok (get_scoped project_id namespace promotion.memory_id s)
          (λ m. approve_on_connection redact promotion_id promotion m actor drawn) s t f h3 in
      let (effective, by, written) = approve_on_connection-ok promotion memory s t f h4 in
      (
        same_namespace→eq joined.namespace namespace (guard-ok _ key_error done same),
        effective,
        by,
        written,
      )
