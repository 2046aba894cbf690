-- ===== src/Facts/Observe/Newest.antt =====
-- A newer observation decides the content of the current facts.
use project_memory_hub.Common.{
  ℕ, ◌<◌, map, map-In, Bool, if◌then◌else◌, In-append_right, ◌≡◌, refl, inl, inr, true, false, ◌&&◌,
  some, List, [], ◌∷◌, ◌==◌, In, arith, Option-cases, In-select, subst, sym, ◌∙◌, lt→ltb, ap, not,
}
use project_memory_hub.Common.Order.{nat_order, pair_order}
use project_memory_hub.Common.Order.Sort.{first-some}
use project_memory_hub.Common.Exec.{ok, same_ok, guard, value_error, then_pure-eq-ok}
use project_memory_hub.Text.{Text, is_empty, strip}
use project_memory_hub.Text.Strip.{strip-strip}
use project_memory_hub.Domain.{Uuid, Instant, ProjectFactInput, FactRecord}
use project_memory_hub.Database.{Db, FactRow}
use project_memory_hub.Facts.Observe.{
  Observed, observe, prepare_fact, required_field, record_observation,
}
use project_memory_hub.Facts.Rows.{
  names, make_stale, set_stale, refreshed, observed_row, exact_row, rows_to_stale, winning_content,
  same_fact, is_current, same_subject, active_rows, current_winner, newest_time, incoming_wins,
}
use project_memory_hub.Text.Equal.{text_eq→eq}
use project_memory_hub.Facts.Observe.Steps.{insert_observed-ok, update_exact-ok, exact_row-some}
use project_memory_hub.Facts.Observe.Laws.{IsAbout, same_subject→IsAbout, wins-content}
use project_memory_hub.Facts.Observe.Agreement.{IsAgreed}
use project_memory_hub.Facts.Observe.Settled.{
  observe-ok, observe_on_connection-ok, record_observation-IsSettled,
}

current_winner-In :
    (rows : List FactRow) (row : FactRow) → current_winner rows ≡ some row → In row rows
unfolding current_winner
current_winner-In rows row h =
    (In-select (λ r. r.observed_at == newest_time rows) rows row
      ((first-some (pair_order nat_order nat_order) (λ r. (r.created_at, r.fact_id)) _ row h).0)).0

required_field-again : (t u : Text) → required_field t ≡ ok u → required_field u ≡ ok u
unfolding required_field
required_field-again t u h =
    let (done, guarded, e) = then_pure-eq-ok (guard (not (is_empty (strip t))) value_error) _ u h in
    let same : strip t ≡ u = ground (arith, e) in
    let fixed : strip u ≡ u = subst (λ x. strip x ≡ x) same (strip-strip t) in
    let left : is_empty (strip u) ≡ false =
      ap is_empty (fixed ∙ sym same) ∙ not_empty (strip t) done guarded in
    rw (left, fixed) refl
  where
    not_empty :
        (x : Text) (done : Unit {0})
        → guard (not (is_empty x)) value_error ≡ ok done
        → is_empty x ≡ false
    not_empty [] done h = cc
    not_empty (c ∷ x) done h = refl

-- A prepared fact is prepared.
pub prepare_fact-again :
    (fact p : ProjectFactInput) → prepare_fact fact ≡ ok p → prepare_fact p ≡ ok p
unfolding prepare_fact
prepare_fact-again fact p h =
    let (c, ec, h1) = then_pure-eq-ok (required_field fact.category) _ p h in
    let (n, en, h2) = then_pure-eq-ok (required_field fact.normalized_content) _ p h1 in
    let (t, et, h3) = then_pure-eq-ok (required_field fact.evidence_type) _ p h2 in
    let (r, er, h4) = then_pure-eq-ok (required_field fact.evidence_reference) _ p h3 in
    let e : record fact {
      category = c;
      normalized_content = n;
      evidence_type = t;
      evidence_reference = r;
    }
        ≡ p =
      ground arith in
    rw⁻¹ e (
      rw
        (
          required_field-again fact.category c ec,
          required_field-again fact.normalized_content n en,
          required_field-again fact.evidence_type t et,
          required_field-again fact.evidence_reference r er,
        )
        refl)

-- Every current row about the same is older.
abbrev pub IsNewest : Uuid → ProjectFactInput → List FactRow → Type 0
IsNewest project_id fact rows =
    (row : FactRow)
    → In row rows
    → is_current row ≡ true
    → IsAbout project_id fact row
    → row.observed_at < fact.observed_at

newest-wins :
    (project_id : Uuid) (fact : ProjectFactInput) (s : Db)
    → IsNewest project_id fact s.facts
    → incoming_wins fact (current_winner (active_rows project_id fact s)) ≡ true
unfolding active_rows incoming_wins
newest-wins project_id fact s newest =
    elim (Option-cases (current_winner (active_rows project_id fact s))) [
      | inl nobody ↦ rw nobody refl
      | inr (row, e) ↦
          let (stored, test) =
            In-select (λ r. same_subject project_id fact r && is_current r) s.facts row
              (current_winner-In (active_rows project_id fact s) row e) in
          let later =
            newest row stored (ground arith)
              (same_subject→IsAbout project_id fact row (ground arith)) in
          rw e (ground (arith, lt→ltb row.observed_at fact.observed_at later))
    ]

-- A current row about the same has the content.
abbrev pub Decides : Uuid → ProjectFactInput → FactRow → Type 0
Decides project_id fact row =
    (is_current row ≡ true)
    × IsAbout project_id fact row
    × (row.normalized_content ≡ fact.normalized_content)

observed_row-Decides :
    (wins : Bool) (project_id : Uuid) (fact : ProjectFactInput) (rows : List FactRow)
    (now : Instant) (fact_id : Uuid)
    → wins ≡ true
    → Decides project_id fact (observed_row wins project_id fact rows now fact_id)
unfolding observed_row
observed_row-Decides wins project_id fact rows now fact_id won =
    (ground arith, record { project = refl; category = refl; reference = refl }, refl)

refreshed-Decides :
    (wins : Bool) (project_id : Uuid) (fact : ProjectFactInput) (rows : List FactRow)
    (now : Instant) (exact row : FactRow)
    → wins ≡ true
    → same_fact project_id fact row ≡ true
    → Decides project_id fact (refreshed wins fact rows now exact row)
unfolding refreshed same_fact
refreshed-Decides wins project_id fact rows now exact row won same =
    let about = same_subject→IsAbout project_id fact row (ground arith) in
    (
      ground arith,
      record { project = about.project; category = about.category; reference = about.reference },
      text_eq→eq row.normalized_content fact.normalized_content (ground arith),
    )

eq→nat : (a b : ℕ) → a ≡ b → (a == b) ≡ true
eq→nat a b h = ground arith

if-same : {A : Type 0} {c : Bool} (x y : A) → c ≡ true → (if c then x else y) ≡ x
if-same x y h = rw h refl

stale-same_fact :
    (b : Bool) (project_id : Uuid) (fact : ProjectFactInput) (now : Instant) (row : FactRow)
    → same_fact project_id fact (if b then set_stale now row else row)
      ≡ same_fact project_id fact row
unfolding same_fact same_subject
stale-same_fact true project_id fact now row = refl
stale-same_fact false project_id fact now row = refl

stale-id :
    (b : Bool) (now : Instant) (row : FactRow)
    → (if b then set_stale now row else row).fact_id ≡ row.fact_id
stale-id true now row = refl
stale-id false now row = refl

-- An observation that wins leaves a current row with its content.
record_observation-Decides :
    (project_id : Uuid) (fact : ProjectFactInput) (now : Instant) (fact_id : Uuid) (s t : Db)
    (o : Observed)
    → incoming_wins fact (current_winner (active_rows project_id fact s)) ≡ true
    → record_observation project_id fact now fact_id s ≡ (ok o, t)
    → (row : FactRow) × In row t.facts × Decides project_id fact row
unfolding record_observation make_stale
record_observation-Decides project_id fact now fact_id s t o won h =
    let winner = current_winner (active_rows project_id fact s) in
    let wins = incoming_wins fact winner in
    let stale = rows_to_stale (winning_content fact winner) (active_rows project_id fact s) in
    let mid = record s { facts = make_stale now stale s.facts } in
    elim (Option-cases (exact_row project_id fact s)) [
      | inl new ↦
          let (fresh, e) =
            insert_observed-ok wins project_id fact stale now fact_id mid t o
              (rw (new, record_observation) at h) in
          let row = observed_row wins project_id fact stale now fact_id in
          (
            row,
            subst (λ (d : Db). In row d.facts) (sym e)
                (In-append_right mid.facts (row ∷ []) row (inl refl)),
            observed_row-Decides wins project_id fact stale now fact_id won,
          )
      | inr (exact, old) ↦
          let (found, same) = exact_row-some project_id fact s exact old in
          let e =
            update_exact-ok wins fact stale now exact mid t o (rw (old, record_observation) at h) in
          let b = names stale exact && is_current exact in
          let kept = if b then set_stale now exact else exact in
          let row = refreshed wins fact stale now exact kept in
          let change = λ (r : FactRow).
            if r.fact_id == exact.fact_id then refreshed wins fact stale now exact r else r in
          let place : In kept mid.facts =
            map-In (λ (r : FactRow). if names stale r && is_current r then set_stale now r else r)
              s.facts exact found in
          (
            row,
            subst (λ (d : Db). In row d.facts) (sym e)
                (subst (λ r. In r (map change mid.facts))
                  (if-same _ _ (eq→nat kept.fact_id exact.fact_id (stale-id b now exact)))
                  (map-In change mid.facts kept place)),
            refreshed-Decides wins project_id fact stale now exact kept won
                (stale-same_fact b project_id fact now exact ∙ same),
          )
    ]

-- After an observation that is later than every current fact of the project about the same category
-- and evidence reference, some row about them is current, and every one that is has the content of
-- the observation, stripped.
pub observe-newest :
    (project_id : Uuid) (fact : ProjectFactInput) (now : Instant) (fact_id : Uuid) (s t : Db)
    (r : FactRecord) (p : ProjectFactInput)
    → IsAgreed s.facts
    → prepare_fact fact ≡ ok p
    → IsNewest project_id p s.facts
    → observe project_id fact now fact_id s ≡ (ok r, t)
    → ((row : FactRow) × In row t.facts × Decides project_id p row)
      × ((row : FactRow)
          → In row t.facts
          → is_current row ≡ true
          → IsAbout project_id p row
          → row.normalized_content ≡ p.normalized_content)
observe-newest project_id fact now fact_id s t r p whole prepared newest run =
    let (q, o, first_time, observed) = observe-ok project_id now fact_id s fact r t run in
    let (u, second_time, recorded) =
      observe_on_connection-ok project_id now fact_id s q o t observed in
    let qp : q ≡ p = same_ok (sym first_time ∙ prepared) in
    let up : u ≡ p =
      same_ok (sym second_time ∙ ap prepare_fact qp ∙ prepare_fact-again fact p prepared) in
    let recorded_p =
      subst (λ v. record_observation project_id v now fact_id s ≡ (ok o, t)) up recorded in
    let (agreed, classified) =
      record_observation-IsSettled project_id p now fact_id s o t whole recorded_p in
    let wins = newest-wins project_id p s newest in
    let winner = current_winner (active_rows project_id p s) in
    (
      record_observation-Decides project_id p now fact_id s t o wins recorded_p,
      λ row m h about. elim (classified row m h) [
        | inl (old, held, same) ↦ same about ∙ wins-content p winner wins
        | inr (won, about_it, same) ↦ same
      ],
    )
