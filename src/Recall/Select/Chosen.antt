-- ===== src/Recall/Select/Chosen.antt =====
-- What `_select_candidates` chooses is among the candidates.
use project_memory_hub.Common.{
  ◌+◌, ◌≡◌, refl, inl, inr, Bool, true, false, not, List, [], ◌∷◌, ◌++◌, select, length, In, arith,
  Bool-cases, In-select, In-append, In-append_left, In-append_right, subst, length-append,
  append_assoc,
}
use project_memory_hub.Common.Order.Sort.{sort, In-sort, length-sort}
use project_memory_hub.Recall.{Candidate}
use project_memory_hub.Recall.Rank.{ranking_order, ranking_key}
use project_memory_hub.Recall.Counter.{SafeTokenCounter, Counting}
use project_memory_hub.Recall.Render.{Overrides}
use project_memory_hub.Recall.Fit.{Fitted, limit_fits, fit_mandatory}
use project_memory_hub.Recall.Fit.Laws.{IsPartOf, IsPartOf-refl, fit_mandatory-IsPartOf}
use project_memory_hub.Recall.Select.{
  Selection, select_mandatory, add_optional, select_candidates, mandatory_of, optional_of, extended,
  is_empty_list,
}

IsPartOf-nil : (rows : List Candidate) → IsPartOf rows (rows ++ [])
IsPartOf-nil rows = (omega (arith, length-append rows []), λ a m. In-append_left rows [] a m)

IsPartOf-extended :
    (kept rows optional : List Candidate) (candidate : Candidate)
    → IsPartOf kept ((rows ++ candidate ∷ []) ++ optional)
    → IsPartOf kept (rows ++ candidate ∷ optional)
IsPartOf-extended kept rows optional candidate h =
    subst (IsPartOf kept) (append_assoc rows (candidate ∷ []) optional) h

IsPartOf-skipped :
    (kept rows optional : List Candidate) (candidate : Candidate)
    → IsPartOf kept (rows ++ optional)
    → IsPartOf kept (rows ++ candidate ∷ optional)
IsPartOf-skipped kept rows optional candidate h = (
  omega (arith, h.0, length-append rows optional, length-append rows (candidate ∷ optional)),
  λ a m. elim (In-append rows optional a (h.1 a m)) [
    | inl l ↦ In-append_left rows (candidate ∷ optional) a l
    | inr r ↦ In-append_right rows (candidate ∷ optional) a (inr r)
  ],
)

module _ (test : List Candidate → Overrides → Counting Bool) where
  pub select_mandatory-fit :
      (mandatory : List Candidate) (s : SafeTokenCounter)
      → (test mandatory [] s).0 ≡ true
      → select_mandatory test mandatory s ≡ (
        record { selected = mandatory; overrides = []; shortened = false },
        (test mandatory [] s).1,
      )
  unfolding select_mandatory
  select_mandatory-fit mandatory s h = rw (h, select_mandatory) refl

  abbrev pub cut_down : Fitted → Selection
  cut_down fitted = record {
    selected = fitted.0;
    overrides = fitted.1;
    shortened = not (is_empty_list fitted.0);
  }

  pub select_mandatory-over :
      (mandatory : List Candidate) (s : SafeTokenCounter)
      → (test mandatory [] s).0 ≡ false
      → select_mandatory test mandatory s ≡ (
        cut_down (fit_mandatory (limit_fits test) mandatory (test mandatory [] s).1).0,
        (fit_mandatory (limit_fits test) mandatory (test mandatory [] s).1).1,
      )
  unfolding select_mandatory
  select_mandatory-over mandatory s h = rw (h, select_mandatory) refl

  pub select_mandatory-IsPartOf :
      (mandatory : List Candidate) (s : SafeTokenCounter)
      → IsPartOf (select_mandatory test mandatory s).0.selected mandatory
  select_mandatory-IsPartOf mandatory s = elim (Bool-cases (test mandatory [] s).0) [
    | inl t ↦ rw (select_mandatory-fit mandatory s t) (IsPartOf-refl mandatory)
    | inr f ↦
        rw (select_mandatory-over mandatory s f)
          (fit_mandatory-IsPartOf (limit_fits test) mandatory (test mandatory [] s).1)
  ]

  -- The answer for the next optional candidate.
  pub attempt : Candidate → Selection → SafeTokenCounter → Bool × SafeTokenCounter
  attempt candidate chosen s = test (chosen.selected ++ candidate ∷ []) chosen.overrides s

  pub add-fit :
      (candidate : Candidate) (optional : List Candidate) (chosen : Selection)
      (s : SafeTokenCounter)
      → (attempt candidate chosen s).0 ≡ true
      → add_optional test (candidate ∷ optional) chosen s
        ≡ add_optional test optional (extended test chosen candidate) (attempt candidate chosen s).1
  unfolding add_optional attempt
  add-fit candidate optional chosen s h = rw (h, add_optional) refl

  pub add-over :
      (candidate : Candidate) (optional : List Candidate) (chosen : Selection)
      (s : SafeTokenCounter)
      → (attempt candidate chosen s).0 ≡ false
      → add_optional test (candidate ∷ optional) chosen s
        ≡ add_optional test optional chosen (attempt candidate chosen s).1
  unfolding add_optional attempt
  add-over candidate optional chosen s h = rw (h, add_optional) refl

  add_optional-IsPartOf :
      (optional : List Candidate) (chosen : Selection) (s : SafeTokenCounter)
      → IsPartOf (add_optional test optional chosen s).0.selected (chosen.selected ++ optional)
  unfolding add_optional
  add_optional-IsPartOf [] chosen s = IsPartOf-nil chosen.selected
  add_optional-IsPartOf (candidate ∷ optional) chosen s =
      let next = (attempt candidate chosen s).1 in
      elim (Bool-cases (attempt candidate chosen s).0) [
        | inl t ↦ rw (add-fit candidate optional chosen s t) (
            IsPartOf-extended _ chosen.selected optional candidate
              (add_optional-IsPartOf optional (extended test chosen candidate) next))
        | inr f ↦ rw (add-over candidate optional chosen s f) (
            IsPartOf-skipped _ chosen.selected optional candidate
              (add_optional-IsPartOf optional chosen next))
      ]

-- The two parts of the candidates, sorted, hold as many.
length-parts :
    (candidates : List Candidate)
    → length (select (λ c. c.mandatory) candidates)
        + length (select (λ c. not c.mandatory) candidates)
      ≡ length candidates
length-parts [] = refl
length-parts (candidate ∷ candidates) = ground (arith, length-parts candidates)

pub In-part :
    (p : Candidate → Bool) (candidates : List Candidate) (a : Candidate)
    → In a (sort ranking_order ranking_key (select p candidates))
    → In a candidates
In-part p candidates a m =
    (In-select p candidates a (In-sort ranking_order ranking_key (select p candidates) a m)).0

-- What is selected are candidates, no more than there are, whatever the counter answers.
pub select_candidates-IsPartOf :
    (test : List Candidate → Overrides → Counting Bool) (candidates : List Candidate)
    (s : SafeTokenCounter)
    → IsPartOf (select_candidates test candidates s).0.selected candidates
unfolding select_candidates
select_candidates-IsPartOf test candidates s =
    let chosen = select_mandatory test (mandatory_of candidates) s in
    let first = select_mandatory-IsPartOf test (mandatory_of candidates) s in
    let whole = add_optional-IsPartOf test (optional_of candidates) chosen.0 chosen.1 in
    (
      omega (
        arith,
        whole.0,
        first.0,
        length-append chosen.0.selected (optional_of candidates),
        length-sort ranking_order ranking_key (select (λ c. c.mandatory) candidates),
        length-sort ranking_order ranking_key (select (λ c. not c.mandatory) candidates),
        length-parts candidates,
      ),
      λ a m. elim (In-append chosen.0.selected (optional_of candidates) a (whole.1 a m)) [
        | inl l ↦ In-part (λ c. c.mandatory) candidates a (first.1 a l)
        | inr r ↦ In-part (λ c. not c.mandatory) candidates a r
      ],
    )
