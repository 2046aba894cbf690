-- ===== src/Promotions/Laws.antt =====
-- A request for a rule that is pending already is the one that is there.
use project_memory_hub.Common.{
  ◌≡◌, refl, inl, inr, false, none, some, [], ◌∷◌, ◌++◌, ◌==◌, select, any, find_first, arith,
  Bool-cases, Option-cases, same_some, ap, sym, ◌∙◌, subst, find_first-snoc, select-append,
}
use project_memory_hub.Common.Order.Sort.{first, first-none}
use project_memory_hub.Common.Exec.{
  Result, ok, same_ok, lift, bind-ok, bind_lift-ok, bind_lift-run, ◌>>◌, transaction-run,
  transaction, transaction-ok,
}
use project_memory_hub.Text.{Text}
use project_memory_hub.Text.Equal.{text_eq_refl}
use project_memory_hub.Domain.{Uuid, Instant, Namespace}
use project_memory_hub.Database.{Db, PromotionRow}
use project_memory_hub.Memories.Compact.{agent_text}
use project_memory_hub.Memories.Search.{get_scoped}
use project_memory_hub.Promotions.{
  safe_required, exact_safe_persisted, requested_order, is_request, request_rank, existing_request,
  new_request, insert_promotion, read_promotion, request_on_connection, request_found,
  request_scoped,
}

insert_promotion-ok :
    (row : PromotionRow) (s t : Db)
    → insert_promotion row s ≡ (ok tt, t)
    → (any (λ (other : PromotionRow). other.promotion_id == row.promotion_id) s.promotions ≡ false)
      × (t ≡ record s { promotions = s.promotions ++ row ∷ [] })
unfolding insert_promotion
insert_promotion-ok row s t h =
    elim (Bool-cases
      (any (λ (other : PromotionRow). other.promotion_id == row.promotion_id) s.promotions)) [
        | inl e ↦ absurd (cc (rw (e, insert_promotion) at h))
        | inr e ↦
            (e, sym (ap (λ (p : Result (Unit {0}) × Db). p.1) (rw (e, insert_promotion) at h)))
      ]

read_promotion-ok :
    (promotion_id : Uuid) (s t : Db) (row : PromotionRow)
    → read_promotion promotion_id s ≡ (ok row, t)
    → (find_first (λ (r : PromotionRow). r.promotion_id == promotion_id) s.promotions ≡ some row)
      × (t ≡ s)
unfolding read_promotion
read_promotion-ok promotion_id s t row h =
    elim (Option-cases
      (find_first (λ (r : PromotionRow). r.promotion_id == promotion_id) s.promotions)) [
        | inl e ↦ absurd (cc (rw (e, read_promotion) at h))
        | inr (found, e) ↦
            let done = rw (e, read_promotion) at h in
            (
              e ∙ ap some (same_ok (ap (λ (p : Result PromotionRow × Db). p.0) done)),
              sym (ap (λ (p : Result PromotionRow × Db). p.1) done),
            )
      ]

module _ (memory_id : Uuid) (rule : Text) where
  self-request :
      (now : Instant) (id : Uuid)
      → select (is_request memory_id rule) (new_request memory_id rule now id ∷ [])
        ≡ new_request memory_id rule now id ∷ []
  unfolding is_request
  self-request now id = ground (arith, text_eq_refl rule)

  only_first : (row : PromotionRow) → first requested_order request_rank (row ∷ []) ≡ some row
  unfolding first
  only_first row = refl

  -- The request that was inserted is the one that is found afterwards.
  existing_request-new :
      (now : Instant) (promotion_id : Uuid) (s : Db)
      → existing_request memory_id rule s ≡ none
      → existing_request memory_id rule (record s {
        promotions = s.promotions ++ new_request memory_id rule now promotion_id ∷ [];
      })
        ≡ some (new_request memory_id rule now promotion_id)
  unfolding existing_request
  existing_request-new now promotion_id s h =
      let row = new_request memory_id rule now promotion_id in
      let empty =
        first-none requested_order request_rank (select (is_request memory_id rule) s.promotions)
          h in
      let only : select (is_request memory_id rule) (s.promotions ++ row ∷ []) ≡ row ∷ [] =
        select-append (is_request memory_id rule) s.promotions (row ∷ [])
        ∙ ap (λ rows. rows ++ select (is_request memory_id rule) (row ∷ [])) empty
        ∙ self-request now promotion_id in
      ap (first requested_order request_rank) only ∙ only_first row

  -- A request that returned is found by the next one.
  request_on_connection-found :
      (now : Instant) (promotion_id : Uuid) (s t : Db) (row : PromotionRow)
      → request_on_connection memory_id rule now promotion_id s ≡ (ok row, t)
      → (existing_request memory_id rule t ≡ some row) × (t.memories ≡ s.memories)
  unfolding request_on_connection
  request_on_connection-found now promotion_id s t row h =
      elim (Option-cases (existing_request memory_id rule s)) [
        | inr (old, e) ↦
            let done = rw (e, request_on_connection) at h in
            let same = same_ok (ap (λ (p : Result PromotionRow × Db). p.0) done) in
            let kept = ap (λ (p : Result PromotionRow × Db). p.1) done in
            (
              subst (λ d. existing_request memory_id rule d ≡ some row) kept (e ∙ ap some same),
              ap (λ (d : Db). d.memories) (sym kept),
            )
        | inl new ↦
            let fresh = new_request memory_id rule now promotion_id in
            let run = rw (new, request_on_connection) at h in
            let (done, mid, inserting, reading) = bind-ok (insert_promotion fresh) _ s t row run in
            let (unused, e) = insert_promotion-ok fresh s mid inserting in
            let (found, kept) = read_promotion-ok promotion_id mid t row reading in
            let inserted = existing_request-new now promotion_id s new in
            let last =
              find_first-snoc (λ (r : PromotionRow). r.promotion_id == promotion_id) s.promotions
                fresh unused (ground arith) in
            let is_row : fresh ≡ row = same_some (
              sym last
              ∙ sym (
                  ap
                    (λ (d : Db).
                      find_first (λ (r : PromotionRow). r.promotion_id == promotion_id)
                        d.promotions)
                    e)
              ∙ found) in
            (
              ap (existing_request memory_id rule) (kept ∙ e) ∙ inserted ∙ ap some is_row,
              ap (λ (d : Db). d.memories) (kept ∙ e),
            )
      ]

  request_on_connection-again :
      (now : Instant) (promotion_id : Uuid) (t : Db) (row : PromotionRow)
      → existing_request memory_id rule t ≡ some row
      → request_on_connection memory_id rule now promotion_id t ≡ (ok row, t)
  unfolding request_on_connection
  request_on_connection-again now promotion_id t row e = rw (e, request_on_connection) refl

get_scoped-memories :
    (project_id : Uuid) (namespace : Namespace) (memory_id : Uuid) (s t : Db)
    → t.memories ≡ s.memories
    → get_scoped project_id namespace memory_id t ≡ get_scoped project_id namespace memory_id s
unfolding get_scoped
get_scoped-memories project_id namespace memory_id s t e = rw e refl

request_found-again :
    (redact : Text → Text) (project_id : Uuid) (namespace : Namespace) (memory_id : Uuid)
    (rule : Text) (now again : Instant) (promotion_id other : Uuid) (s t : Db) (row : PromotionRow)
    → request_found redact project_id namespace memory_id now promotion_id rule s ≡ (ok row, t)
    → request_found redact project_id namespace memory_id again other rule t ≡ (ok row, t)
request_found-again redact project_id namespace memory_id rule now again promotion_id other s t row
      h =
    let (memory, visible, asked) =
      bind_lift-ok (get_scoped project_id namespace memory_id s)
        (λ _. request_on_connection memory_id rule now promotion_id) s t row h in
    let (found, same) = request_on_connection-found memory_id rule now promotion_id s t row asked in
    bind_lift-run (get_scoped project_id namespace memory_id t)
      (λ _. request_on_connection memory_id rule again other) t memory _
      (get_scoped-memories project_id namespace memory_id s t same ∙ visible)
      (request_on_connection-again memory_id rule again other t row found)

-- A request that returned, made again, at another time and whatever id would be drawn, returns the same
-- promotion and writes nothing.
pub request_scoped-Once :
    (redact : Text → Text) (project_id : Uuid) (namespace : Namespace) (memory_id : Uuid)
    (proposed_rule : Text) (now again : Instant) (promotion_id other : Uuid) (s t : Db)
    (row : PromotionRow)
    → request_scoped redact project_id namespace memory_id proposed_rule now promotion_id s
      ≡ (ok row, t)
    → request_scoped redact project_id namespace memory_id proposed_rule again other t ≡ (ok row, t)
unfolding request_scoped
request_scoped-Once redact project_id namespace memory_id proposed_rule now again promotion_id other
      s t row h =
    let agent = exact_safe_persisted redact (agent_text namespace.source_agent) in
    let model = exact_safe_persisted redact namespace.model_id in
    let first_try = λ (rule : Text).
      transaction (request_found redact project_id namespace memory_id now promotion_id rule) in
    let next_try = λ (rule : Text).
      transaction (request_found redact project_id namespace memory_id again other rule) in
    let (rule, safe, h1) = bind_lift-ok (safe_required redact proposed_rule) _ s t row h in
    let (a, agent_ok, h2) = bind_lift-ok agent (λ _. lift model >> first_try rule) s t row h1 in
    let (b, model_ok, h3) = bind_lift-ok model (λ _. first_try rule) s t row h2 in
    let done =
      transaction-ok (request_found redact project_id namespace memory_id now promotion_id rule) s t
        row h3 in
    bind_lift-run (safe_required redact proposed_rule)
      (λ r. lift agent >> (lift model >> next_try r)) t rule _ safe
      (bind_lift-run agent (λ _. lift model >> next_try rule) t a _ agent_ok
        (bind_lift-run model (λ _. next_try rule) t b _ model_ok
          (transaction-run (request_found redact project_id namespace memory_id again other rule) t
            t row
            (request_found-again redact project_id namespace memory_id rule now again promotion_id
              other s t row done))))
