-- ===== src/Recall/Service/Records.antt =====
-- Where a record of the merged searches comes from.
use project_memory_hub.Common.{
  ◌≡◌, refl, ◌⊎◌, inl, inr, List, [], ◌∷◌, ◌++◌, ◌==◌, any, In, arith, Bool-cases, subst, sym,
  In-append,
}
use project_memory_hub.Common.Exec.{Result, ok, err, then_pure}
use project_memory_hub.Domain.{Uuid}
use project_memory_hub.Recall.Service.{put_record, put_records, add_missing, merge_records}

module _ {A : Type 0} (id_of : A → Uuid) where
  In-put_record :
      (row : A) (rows : List A) (a : A) → In a (put_record id_of row rows) → (a ≡ row) ⊎ In a rows
  unfolding put_record
  In-put_record row [] a m = m
  In-put_record row (other ∷ rest) a m = ground (arith, In-put_record row rest a)

  In-put_records :
      (rows records : List A) (a : A)
      → In a (put_records id_of rows records)
      → In a rows ⊎ In a records
  unfolding put_records
  In-put_records [] records a m = inr m
  In-put_records (row ∷ rows) records a m =
      elim (In-put_records rows (put_record id_of row records) a m) [
        | inl l ↦ inl (inr l)
        | inr r ↦ elim (In-put_record row records a r) [ inl e ↦ inl (inl e) | inr k ↦ inr k ]
      ]

  In-add_missing :
      (rows records : List A) (a : A)
      → In a (add_missing id_of rows records)
      → In a rows ⊎ In a records
  unfolding add_missing
  In-add_missing [] records a m = inr m
  In-add_missing (row ∷ rows) records a m =
      elim (Bool-cases (any (λ other. id_of other == id_of row) records)) [
        | inl t ↦ elim (In-add_missing rows records a (rw t at m)) [
          | inl l ↦ inl (inr l)
          | inr r ↦ inr r
        ]
        | inr f ↦ elim (In-add_missing rows (records ++ row ∷ []) a (rw f at m)) [
          | inl l ↦ inl (inr l)
          | inr r ↦ elim (In-append records (row ∷ []) a r) [
            | inl k ↦ inr k
            | inr (inl e) ↦ inl (inl e)
            | inr (inr gone) ↦ absurd gone
          ]
        ]
      ]

  In-merge_records :
      (first second : List A) (a : A)
      → In a (merge_records id_of first second)
      → In a first ⊎ In a second
  unfolding merge_records
  In-merge_records first second a m =
      elim (In-add_missing second (put_records id_of first []) a m) [
        | inl l ↦ inr l
        | inr r ↦ elim (In-put_records first [] a r) [ inl k ↦ inl k | inr gone ↦ absurd gone ]
      ]

  -- Two searches, one after the other, and what they find together.
  pub In-merged :
      (r1 r2 : Result (List A)) (rows : List A) (a : A)
      → then_pure r1 (λ first. then_pure r2 λ second. ok (merge_records id_of first second))
        ≡ ok rows
      → In a rows
      → ((first : List A) × (r1 ≡ ok first) × In a first)
        ⊎ ((second : List A) × (r2 ≡ ok second) × In a second)
  In-merged (ok first) (ok second) rows a h m =
      let e : merge_records id_of first second ≡ rows = ground arith in
      elim (In-merge_records first second a (subst (In a) (sym e) m)) [
        | inl l ↦ inl (first, refl, l)
        | inr r ↦ inr (second, refl, r)
      ]
  In-merged (ok first) (err e) rows a h m = cc
  In-merged (err e) r2 rows a h m = cc
