-- ===== src/Facts/Observe/Settled.antt =====
-- What an observation does to the table: the agreement of the current facts, and the newest content.
use project_memory_hub.Common.{◌≡◌, inl, inr, Bool, Option, List, Option-cases, subst, sym, ap, ◌∙◌}
use project_memory_hub.Common.Exec.{
  Result, ok, err, bind-ok, bind_lift-ok, Error, Result-cases, transaction, transaction-ok,
  bind_transaction-err, pure, guard, key_error,
}
use project_memory_hub.Text.{Text}
use project_memory_hub.Domain.{Uuid, Instant, ProjectFactInput, FactRecord}
use project_memory_hub.Database.{Db, FactRow}
use project_memory_hub.Facts.Observe.{
  Observed, record_observation, observe_on_connection, observe, observe_prepared, prepare_fact,
  has_project,
}
use project_memory_hub.Facts.Rows.{
  exact_row, active_rows, current_winner, winning_content, incoming_wins, make_stale,
}
use project_memory_hub.Facts.Observe.Laws.{wins-content, stale}
use project_memory_hub.Facts.Observe.Classify.{
  IsUnique, AllClassified, changed, observed, renewed-Classified, inserted-Classified,
}
use project_memory_hub.Facts.Observe.Agreement.{
  IsAgreed, AllClassified-IsAgreed, map-IsUnique, append-IsUnique,
}
use project_memory_hub.Facts.Observe.Steps.{
  renew-id, make_stale-IsUnique, insert_observed-ok, update_exact-ok, exact_row-some,
}

module _ (project_id : Uuid) (fact : ProjectFactInput) (now : Instant) (fact_id : Uuid)
    (s : Db) where
  abbrev winner : Option FactRow
  winner = current_winner (active_rows project_id fact s)

  abbrev wins : Bool
  wins = incoming_wins fact winner

  abbrev content : Text
  content = winning_content fact winner

  abbrev after_stale : List FactRow
  after_stale = changed project_id fact now fact_id s wins content

  abbrev IsSettled : List FactRow → Type 0
  IsSettled rows = IsAgreed rows × AllClassified project_id fact now fact_id s wins content rows

  settled :
      (rows t : List FactRow)
      → IsAgreed s.facts
      → t ≡ rows
      → IsUnique rows
      → AllClassified project_id fact now fact_id s wins content rows
      → IsSettled t
  settled rows t whole e distinct h = rw e (
    AllClassified-IsAgreed project_id fact now fact_id s wins content rows whole
        (wins-content fact winner) distinct h,
    h,
  )

  after_stale-IsUnique : IsAgreed s.facts → IsUnique after_stale
  after_stale-IsUnique whole = make_stale-IsUnique now _ s.facts whole.unique

  -- What holds after the observation of a prepared fact.
  pub record_observation-IsSettled :
      (o : Observed) (t : Db)
      → IsAgreed s.facts
      → record_observation project_id fact now fact_id s ≡ (ok o, t)
      → IsSettled t.facts
  unfolding record_observation
  record_observation-IsSettled o t whole h = elim (Option-cases (exact_row project_id fact s)) [
    | inl new ↦
        let (fresh, e) =
          insert_observed-ok wins project_id fact (stale project_id fact now s content) now fact_id
            (record s { facts = after_stale }) t o (rw (new, record_observation) at h) in
        settled _ t.facts whole (ap (λ (d : Db). d.facts) e)
          (append-IsUnique after_stale _ fresh (after_stale-IsUnique whole))
          (inserted-Classified project_id fact now fact_id s wins content)
    | inr (exact, old) ↦
        let (found, same) = exact_row-some project_id fact s exact old in
        let e =
          update_exact-ok wins fact (stale project_id fact now s content) now exact
            (record s { facts = after_stale }) t o (rw (old, record_observation) at h) in
        settled _ t.facts whole (ap (λ (d : Db). d.facts) e)
          (map-IsUnique _ after_stale
            (λ r.
              renew-id project_id fact now fact_id s wins content exact r found same whole.unique)
            (after_stale-IsUnique whole))
          (renewed-Classified project_id fact now fact_id s wins content exact found same
            whole.unique)
  ]

module _ (project_id : Uuid) (now : Instant) (fact_id : Uuid) (s : Db) where
  record_observation-promotions :
      (fact : ProjectFactInput) (o : Observed) (t : Db)
      → record_observation project_id fact now fact_id s ≡ (ok o, t)
      → t.promotions ≡ s.promotions
  unfolding record_observation
  record_observation-promotions fact o t h =
      let content = winning_content fact (current_winner (active_rows project_id fact s)) in
      let wins = incoming_wins fact (current_winner (active_rows project_id fact s)) in
      let cooled = stale project_id fact now s content in
      let mid = record s { facts = make_stale now cooled s.facts } in
      elim (Option-cases (exact_row project_id fact s)) [
        | inl new ↦
            let (fresh, e) =
              insert_observed-ok wins project_id fact cooled now fact_id mid t o
                (rw (new, record_observation) at h) in
            ap (λ (d : Db). d.promotions) e
        | inr (exact, old) ↦
            ap (λ (d : Db). d.promotions)
              (update_exact-ok wins fact cooled now exact mid t o
                (rw (old, record_observation) at h))
      ]

  pub observe_on_connection-ok :
      (fact : ProjectFactInput) (o : Observed) (t : Db)
      → observe_on_connection project_id fact now fact_id s ≡ (ok o, t)
      → (p : ProjectFactInput) × (prepare_fact fact ≡ ok p)
        × (record_observation project_id p now fact_id s ≡ (ok o, t))
  unfolding observe_on_connection
  observe_on_connection-ok fact o t h =
      let (p, prepared, h1) = bind_lift-ok (prepare_fact fact) _ s t o h in
      let (known, guarded, h2) =
        bind_lift-ok (guard (has_project project_id s) key_error)
          (λ _. record_observation project_id p now fact_id) s t o h1 in
      (p, prepared, h2)

  -- An observation writes nothing in the table of promotions.
  pub observe_on_connection-promotions :
      (fact : ProjectFactInput) (o : Observed) (t : Db)
      → observe_on_connection project_id fact now fact_id s ≡ (ok o, t)
      → t.promotions ≡ s.promotions
  observe_on_connection-promotions fact o t h =
      let (p, prepared, recorded) = observe_on_connection-ok fact o t h in
      record_observation-promotions p o t recorded

  pub observe_on_connection-IsAgreed :
      (fact : ProjectFactInput) (o : Observed) (t : Db)
      → IsAgreed s.facts
      → observe_on_connection project_id fact now fact_id s ≡ (ok o, t)
      → IsAgreed t.facts
  observe_on_connection-IsAgreed fact o t whole h =
      let (p, prepared, recorded) = observe_on_connection-ok fact o t h in
      (record_observation-IsSettled project_id p now fact_id s o t whole recorded).0

  -- What an observation that returned has done.
  pub observe-ok :
      (fact : ProjectFactInput) (r : FactRecord) (t : Db)
      → observe project_id fact now fact_id s ≡ (ok r, t)
      → (p : ProjectFactInput) × (o : Observed) × (prepare_fact fact ≡ ok p)
        × (observe_on_connection project_id p now fact_id s ≡ (ok o, t))
  unfolding observe
  observe-ok fact r t h =
      let (p, prepared, h1) =
        bind_lift-ok (prepare_fact fact)
          (λ q. transaction (observe_prepared project_id now fact_id q)) s t r h in
      let (o, mid, observed, done) =
        bind-ok (observe_on_connection project_id p now fact_id) (λ q. pure q.fact_record) s t r
          (transaction-ok (observe_prepared project_id now fact_id p) s t r h1) in
      (p, o, prepared, observed ∙ ap (λ (x : Result FactRecord × Db). (ok o, x.1)) done)

  observe-err :
      (fact : ProjectFactInput) (e : Error)
      → (observe project_id fact now fact_id s).0 ≡ err e
      → (observe project_id fact now fact_id s).1 ≡ s
  unfolding observe
  observe-err fact e h =
      bind_transaction-err (prepare_fact fact) (observe_prepared project_id now fact_id) s e h

-- An observation, whether it returns or raises, keeps this: ids name one row, and the current facts of
-- a project about the same category and evidence have the same content.
pub observe-IsAgreed :
    (project_id : Uuid) (fact : ProjectFactInput) (now : Instant) (fact_id : Uuid) (s : Db)
    → IsAgreed s.facts
    → IsAgreed (observe project_id fact now fact_id s).1.facts
observe-IsAgreed project_id fact now fact_id s whole =
    elim (Result-cases (observe project_id fact now fact_id s).0) [
      | inr (e, failed) ↦
          subst (λ (d : Db). IsAgreed d.facts)
            (sym (observe-err project_id now fact_id s fact e failed)) whole
      | inl (r, returned) ↦
          let t = (observe project_id fact now fact_id s).1 in
          let run : observe project_id fact now fact_id s ≡ (ok r, t) = ap (λ x. (x, t)) returned in
          let (p, o, prepared, observed) = observe-ok project_id now fact_id s fact r t run in
          observe_on_connection-IsAgreed project_id now fact_id s p o t whole observed
    ]
