-- ===== src/Facts/Observe/Agreement.antt =====
-- Every observation keeps the current facts of a subject in agreement.
use project_memory_hub.Common.{
  ◌≡◌, inl, inr, Bool, true, false, List, [], ◌∷◌, ◌++◌, ◌==◌, map, In, arith, sym, ap, ◌∙◌, In-map,
  In-append, In-any,
}
use project_memory_hub.Text.{Text}
use project_memory_hub.Domain.{Uuid, Instant, ProjectFactInput}
use project_memory_hub.Database.{Db, FactRow}
use project_memory_hub.Facts.Rows.{is_current, names}
use project_memory_hub.Facts.Observe.Laws.{IsAbout}
use project_memory_hub.Facts.Observe.Classify.{IsUnique, Classified, AllClassified}

-- Ids name one row, and current rows of the same project, category and evidence agree.
pub record IsAgreed (rows : List FactRow) : Type 0 where
  pub unique : IsUnique rows
  pub agreed :
      (a b : FactRow)
      → In a rows
      → In b rows
      → is_current a ≡ true
      → is_current b ≡ true
      → IsAbout b.project_id b.input a
      → a.normalized_content ≡ b.normalized_content

IsAbout-trans :
    (project_id : Uuid) (fact : ProjectFactInput) (a b : FactRow)
    → IsAbout b.project_id b.input a
    → IsAbout project_id fact b
    → IsAbout project_id fact a
IsAbout-trans project_id fact a b h k = record {
  project = h.project ∙ k.project;
  category = h.category ∙ k.category;
  reference = h.reference ∙ k.reference;
}

IsAbout-back :
    (project_id : Uuid) (fact : ProjectFactInput) (a b : FactRow)
    → IsAbout b.project_id b.input a
    → IsAbout project_id fact a
    → IsAbout project_id fact b
IsAbout-back project_id fact a b h k = record {
  project = sym h.project ∙ k.project;
  category = sym h.category ∙ k.category;
  reference = sym h.reference ∙ k.reference;
}

module _ (project_id : Uuid) (fact : ProjectFactInput) (now : Instant) (fact_id : Uuid) (db : Db)
    (wins : Bool) (content : Text) where
  Classified-agree :
      (a b : FactRow)
      → IsAgreed db.facts
      → (wins ≡ true → content ≡ fact.normalized_content)
      → IsAbout b.project_id b.input a
      → Classified project_id fact now fact_id db wins content a
      → Classified project_id fact now fact_id db wins content b
      → a.normalized_content ≡ b.normalized_content
  Classified-agree a b whole won same (inl (m, h, p)) (inl (n, k, q)) =
      whole.agreed a b m n h k same
  Classified-agree a b whole won same (inl (m, h, p)) (inr (w, about, q)) =
      p (IsAbout-trans project_id fact a b same about) ∙ won w ∙ sym q
  Classified-agree a b whole won same (inr (w, about, p)) (inl (n, k, q)) =
      p ∙ sym (won w) ∙ sym (q (IsAbout-back project_id fact a b same about))
  Classified-agree a b whole won same (inr (w, about, p)) (inr (v, also, q)) = p ∙ sym q

  pub AllClassified-IsAgreed :
      (rows : List FactRow)
      → IsAgreed db.facts
      → (wins ≡ true → content ≡ fact.normalized_content)
      → IsUnique rows
      → AllClassified project_id fact now fact_id db wins content rows
      → IsAgreed rows
  AllClassified-IsAgreed rows whole won distinct h = record {
    unique = distinct;
    agreed = λ a b m n p q same. Classified-agree a b whole won same (h a m p) (h b n q);
  }

pub map-IsUnique :
    (f : FactRow → FactRow) (rows : List FactRow)
    → ((r : FactRow) → (f r).fact_id ≡ r.fact_id)
    → IsUnique rows
    → IsUnique (map f rows)
map-IsUnique f rows keeps distinct a b m n e =
    let (x, i, p) = In-map f rows a m in
    let (y, j, q) = In-map f rows b n in
    let id = λ (r : FactRow). r.fact_id in
    let same : x ≡ y = distinct x y i j (sym (keeps x) ∙ sym (ap id p) ∙ e ∙ ap id q ∙ keeps y) in
    p ∙ ap f same ∙ sym q

pub append-IsUnique :
    (rows : List FactRow) (row : FactRow)
    → names rows row ≡ false
    → IsUnique rows
    → IsUnique (rows ++ row ∷ [])
append-IsUnique rows row fresh distinct a b m n e = elim (In-append rows (row ∷ []) a m) [
  | inl i ↦ elim (In-append rows (row ∷ []) b n) [
    | inl j ↦ distinct a b i j e
    | inr (inl q) ↦ absurd (clash a i (e ∙ ap (λ (r : FactRow). r.fact_id) q))
    | inr (inr gone) ↦ absurd gone
  ]
  | inr (inl p) ↦ elim (In-append rows (row ∷ []) b n) [
    | inl j ↦ absurd (clash b j (sym e ∙ ap (λ (r : FactRow). r.fact_id) p))
    | inr (inl q) ↦ p ∙ sym q
    | inr (inr gone) ↦ absurd gone
  ]
  | inr (inr gone) ↦ absurd gone
]
  where
    clash : (c : FactRow) → In c rows → ¬ (c.fact_id ≡ row.fact_id)
    clash c i p = cc (fresh, In-any (λ other. other.fact_id == row.fact_id) rows c i (ground arith))
