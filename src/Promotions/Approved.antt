-- ===== src/Promotions/Approved.antt =====
-- What an approval that returned leaves, and that one that raises changes nothing.
use project_memory_hub.Common.{
  ◌≡◌, ◌≢◌, ◌⊎◌, refl, inl, inr, Bool, true, ◌&&◌, Option, none, some, List, [], ◌∷◌, ◌==◌,
  if◌then◌else◌, map, find_first, arith, Bool-cases, same_some, ap, sym, ◌∙◌, find_first-some,
}
use project_memory_hub.Common.Exec.{
  Error, ok, err, same_ok, bind_lift-ok, bind_transaction-err, transaction, transaction-ok,
  Result-cases,
}
use project_memory_hub.Text.{Text}
use project_memory_hub.Domain.{Uuid, Instant, Namespace, FactRecord}
use project_memory_hub.Database.{Db, PromotionRow, PromotionStatus, pending, approved, rejected}
use project_memory_hub.Facts.Observe.Settled.{observe_on_connection-promotions}
use project_memory_hub.Promotions.{safe_required, is_pending}
use project_memory_hub.Promotions.Approval.{
  joined_promotion, or_missing, approve_row, Drawn, effective_actor, approve_joined, approve_found,
  approve_scoped,
}
use project_memory_hub.Promotions.Approve.{
  promotion_of, IsApprovable, join_memory-some, effective_actor-not_rejected, marked, IsWritten,
  approve_joined-ok,
}

or_missing-ok : {A : Type 0} (o : Option A) (a : A) → or_missing o ≡ ok a → o ≡ some a
or_missing-ok none a h = cc
or_missing-ok (some b) a h = ap some (same_ok h)

find_first-map :
    {A : Type 0} (p : A → Bool) (f : A → A) (xs : List A) (a : A)
    → ((x : A) → p (f x) ≡ p x)
    → find_first p xs ≡ some a
    → find_first p (map f xs) ≡ some (f a)
find_first-map p f [] a same h = cc
find_first-map p f (x ∷ xs) a same h = elim (Bool-cases (p x)) [
  | inl t ↦ rw (same x, t) (ap (λ b. some (f b)) (same_some (rw t at h)))
  | inr e ↦ rw (same x, e) (find_first-map p f xs a same (rw e at h))
]

module _ (redact : Text → Text) (project_id : Uuid) (namespace : Namespace) (promotion_id : Uuid)
    (approval_actor : Text) (drawn : Drawn) (s : Db) where
  -- The promotion's row as it was, and what the approval did with it.
  pub record IsDone (f : FactRecord) (t : Db) : Type 0 where
    pub approvable : IsApprovable project_id namespace promotion_id s
    pub actor : Text
    pub effective : Text
    pub safe : safe_required redact approval_actor ≡ ok actor
    pub by : effective_actor redact approvable.promotion actor ≡ ok effective
    pub written : IsWritten promotion_id approvable.promotion.status effective drawn s t

  approve_found-IsDone :
      (actor : Text) (f : FactRecord) (t : Db)
      → safe_required redact approval_actor ≡ ok actor
      → approve_found redact project_id namespace promotion_id drawn actor s ≡ (ok f, t)
      → IsDone f t
  unfolding joined_promotion
  approve_found-IsDone actor f t safe h =
      let (found, asked, h1) =
        bind_lift-ok (or_missing (joined_promotion project_id promotion_id s))
          (λ j. approve_joined redact project_id namespace promotion_id actor drawn j) s t f h in
      let (promotion, stored, of_memory, of_project) =
        join_memory-some project_id s.memories (promotion_of promotion_id s) found.0 found.1
          (or_missing-ok (joined_promotion project_id promotion_id s) found asked) in
      let (same, effective, by, written) =
        approve_joined-ok redact promotion_id actor drawn project_id namespace found.0 found.1 s t f
          h1 in
      record {
        approvable = record {
          promotion = found.0;
          memory = found.1;
          found = promotion;
          not_rejected = effective_actor-not_rejected redact found.0 actor effective by;
          stored = stored;
          of_memory = of_memory;
          of_project = of_project;
          of_namespace = same;
        };
        actor = actor;
        effective = effective;
        safe = safe;
        by = by;
        written = written;
      }

  approve_scoped-IsDone :
      (f : FactRecord) (t : Db)
      → approve_scoped redact project_id namespace promotion_id approval_actor drawn s ≡ (ok f, t)
      → IsDone f t
  unfolding approve_scoped
  approve_scoped-IsDone f t h =
      let body = approve_found redact project_id namespace promotion_id drawn in
      let (actor, safe, h1) =
        bind_lift-ok (safe_required redact approval_actor) (λ a. transaction (body a)) s t f h in
      approve_found-IsDone actor f t safe (transaction-ok (body actor) s t f h1)

  approve_scoped-err :
      (e : Error)
      → (approve_scoped redact project_id namespace promotion_id approval_actor drawn s).0 ≡ err e
      → (approve_scoped redact project_id namespace promotion_id approval_actor drawn s).1 ≡ s
  unfolding approve_scoped
  approve_scoped-err e h =
      bind_transaction-err (safe_required redact approval_actor)
        (approve_found redact project_id namespace promotion_id drawn) s e h

-- An approval returns only for a promotion that is there and not rejected, of a stored memory of
-- exactly the project, source and model that it is asked for; in every other case it raises, and
-- whenever it raises the tables stay as they were.
pub approve_scoped-Safe :
    (redact : Text → Text) (project_id : Uuid) (namespace : Namespace) (promotion_id : Uuid)
    (approval_actor : Text) (drawn : Drawn) (s : Db)
    → ((f : FactRecord) × ((approve_scoped redact project_id namespace promotion_id approval_actor
            drawn s).0
          ≡ ok f)
        × IsApprovable project_id namespace promotion_id s)
      ⊎ ((e : Error) × (approve_scoped redact project_id namespace promotion_id approval_actor drawn
              s
            ≡ (err e, s)))
approve_scoped-Safe redact project_id namespace promotion_id approval_actor drawn s =
    let run = approve_scoped redact project_id namespace promotion_id approval_actor drawn s in
    elim (Result-cases run.0) [
      | inl (f, returned) ↦
          let whole : run ≡ (ok f, run.1) = ap (λ x. (x, run.1)) returned in
          let finished =
            approve_scoped-IsDone redact project_id namespace promotion_id approval_actor drawn s f
              run.1 whole in
          inl (f, returned, finished.approvable)
      | inr (e, raised) ↦
          let kept =
            approve_scoped-err redact project_id namespace promotion_id approval_actor drawn s e
              raised in
          inr (e, ap (λ x. (x, run.1)) raised ∙ ap (λ d. (err e, d)) kept)
    ]

-- The promotion afterwards: what was approved is the same row, with the actor that approved it; what
-- was pending is approved by the actor, cleaned.
abbrev pub IsApprovedBy : Text → PromotionRow → PromotionRow → Type 0
IsApprovedBy actor before after =
    (after.status ≡ approved)
    × (((before.status ≡ approved) × (after ≡ before))
        ⊎ ((before.status ≡ pending) × (after.approval_actor ≡ some actor)))

mark_row : Uuid → Text → Instant → PromotionRow → PromotionRow
mark_row promotion_id effective at row =
    if row.promotion_id == promotion_id && is_pending row.status
    then record row { status = approved; approval_actor = some effective; approved_at = some at }
    else row

mark_row-id :
    (promotion_id : Uuid) (effective : Text) (at : Instant) (row : PromotionRow)
    → ((mark_row promotion_id effective at row).promotion_id == promotion_id)
      ≡ (row.promotion_id == promotion_id)
unfolding mark_row
mark_row-id promotion_id effective at row = ground arith

mark_row-pending :
    (promotion_id : Uuid) (effective : Text) (at : Instant) (row : PromotionRow)
    → (row.promotion_id == promotion_id) ≡ true
    → row.status ≡ pending
    → ((mark_row promotion_id effective at row).status ≡ approved)
      × ((mark_row promotion_id effective at row).approval_actor ≡ some effective)
unfolding mark_row
mark_row-pending promotion_id effective at row h k =
    let hit : row.promotion_id == promotion_id && is_pending row.status ≡ true =
      ground (arith, h, k) in
    let e : mark_row promotion_id effective at row
        ≡ record row { status = approved; approval_actor = some effective; approved_at = some at } =
      rw (hit, mark_row) refl in
    (ap (λ (r : PromotionRow). r.status) e, ap (λ (r : PromotionRow). r.approval_actor) e)

promotion_of-marked :
    (redact : Text → Text) (promotion_id : Uuid) (before : PromotionRow) (actor effective : Text)
    (at : Instant) (s : Db) (status : PromotionStatus)
    → before.status ≡ status
    → promotion_of promotion_id s ≡ some before
    → effective_actor redact before actor ≡ ok effective
    → status ≢ rejected
    → (after : PromotionRow) × (promotion_of promotion_id
          (marked promotion_id status effective at s)
        ≡ some after)
      × IsApprovedBy actor before after
unfolding approve_row mark_row effective_actor
promotion_of-marked redact promotion_id before actor effective at s rejected e found by allowed =
    absurd (allowed refl)
promotion_of-marked redact promotion_id before actor effective at s approved e found by allowed =
    (before, found, (e, inl (e, refl)))
promotion_of-marked redact promotion_id before actor effective at s pending e found by allowed =
    let is_this = λ (r : PromotionRow). r.promotion_id == promotion_id in
    let (place, named) = find_first-some is_this s.promotions before found in
    let (status, by_effective) = mark_row-pending promotion_id effective at before named e in
    let same : actor ≡ effective = same_ok (rw (e, effective_actor) at by) in
    (
      mark_row promotion_id effective at before,
      find_first-map is_this (mark_row promotion_id effective at) s.promotions before
          (mark_row-id promotion_id effective at) found,
      (status, inr (e, by_effective ∙ ap some (sym same))),
    )

-- After an approval that returned, the promotion of this id is approved: one that was approved already
-- is the same row, with its first actor and time; one that was pending has the actor of the call, with
-- its white space collapsed and its secrets removed.
pub approve_scoped-Approved :
    (redact : Text → Text) (project_id : Uuid) (namespace : Namespace) (promotion_id : Uuid)
    (approval_actor : Text) (drawn : Drawn) (s t : Db) (f : FactRecord)
    → approve_scoped redact project_id namespace promotion_id approval_actor drawn s ≡ (ok f, t)
    → (before after : PromotionRow) × (actor : Text) × (promotion_of promotion_id s ≡ some before)
      × (promotion_of promotion_id t ≡ some after)
      × (safe_required redact approval_actor ≡ ok actor)
      × IsApprovedBy actor before after
approve_scoped-Approved redact project_id namespace promotion_id approval_actor drawn s t f h =
    let d =
      approve_scoped-IsDone redact project_id namespace promotion_id approval_actor drawn s f t h in
    let a = d.approvable in
    let (after, read, shape) =
      promotion_of-marked redact promotion_id a.promotion d.actor d.effective drawn.observed_at s
        a.promotion.status refl a.found d.by a.not_rejected in
    let kept =
      observe_on_connection-promotions d.written.project_id drawn.now drawn.fact_id
        (marked promotion_id a.promotion.status d.effective drawn.observed_at s) d.written.fact
        d.written.observed t d.written.recorded in
    (
      a.promotion,
      after,
      d.actor,
      a.found,
      ap (find_first (λ (r : PromotionRow). r.promotion_id == promotion_id)) kept ∙ read,
      d.safe,
      shape,
    )
