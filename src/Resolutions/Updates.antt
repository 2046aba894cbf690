-- ===== src/Resolutions/Updates.antt =====
-- The updates of a declaration's issues, one by one, are one update of all of them.
use project_memory_hub.Common.{
  All, All-In, In-All, In-any, In-append, In-append_right, ◌+◌, ◌≡◌, refl, inl, inr, Bool, true,
  false, ◌&&◌, Option, some, List, [], ◌∷◌, ◌++◌, ◌==◌, ap, ◌∙◌, sym, arith, length, any, ap₂,
  subst, ◌≢◌, In, Bool-cases, any-append, length-append,
}
use project_memory_hub.Common.Exec.{Error, Result, ok, bind-ok, bind_lift-ok, guard, runtime_error}
use project_memory_hub.Text.{Text}
use project_memory_hub.Domain.Equal.{eq→same_namespace}
use project_memory_hub.Domain.{same_namespace, Uuid, archived, BehaviorMemoryRecord}
use project_memory_hub.Database.{Db, ResolutionRow}
use project_memory_hub.Memories.Lifecycle.{set_state, updated}
use project_memory_hub.Memories.Rows.{change, In-set_state, set_state-same}
use project_memory_hub.Memories.Search.{in_scope}
use project_memory_hub.Memories.Sources.{holds}
use project_memory_hub.Resolutions.{
  is_id, Capture, is_open, is_opened, clash_resolution, insert_resolution, resolution_row,
  resolve_target, resolve_batch,
}

guard-ok : (b : Bool) (e : Error) (u : Unit {0}) → guard b e ≡ ok u → b ≡ true
guard-ok true e u h = refl
guard-ok false e u h = cc

module _ (eligible : BehaviorMemoryRecord → Bool)
    (shut : (row : BehaviorMemoryRecord)
      → eligible (record row { lifecycle_state = archived }) ≡ false) where
  abbrev named : List Uuid → BehaviorMemoryRecord → Bool
  named ms row = holds ms row.memory_id && eligible row

  shut-nil :
      (rows : List BehaviorMemoryRecord)
      → (set_state (named []) archived rows ≡ rows) × (updated (named []) rows ≡ 0)
  unfolding set_state updated
  shut-nil [] = (refl, refl)
  shut-nil (row ∷ rows) = ground (arith, shut-nil rows)

  shut-shut :
      (xs ys : List Uuid) (rows : List BehaviorMemoryRecord)
      → (set_state (named ys) archived (set_state (named xs) archived rows)
          ≡ set_state (named (xs ++ ys)) archived rows)
        × (updated (named xs) rows + updated (named ys) (set_state (named xs) archived rows)
            ≡ updated (named (xs ++ ys)) rows)
  unfolding set_state updated
  shut-shut xs ys [] = (refl, refl)
  shut-shut xs ys (row ∷ rows) =
      ground (arith, shut row, shut-shut xs ys rows, any-append (λ y. row.memory_id == y) xs ys)

  open-shut :
      (ms : List Uuid) (rows : List BehaviorMemoryRecord)
      → updated eligible (set_state (named ms) archived rows) + updated (named ms) rows
        ≡ updated eligible rows
  unfolding set_state updated
  open-shut ms [] = refl
  open-shut ms (row ∷ rows) = ground (arith, shut row, open-shut ms rows)

-- What stands among the resolutions stays there.
abbrev pub Grows : Db → Db → Type 0
Grows s t = (p : ResolutionRow → Bool) → any p s.resolutions ≡ true → any p t.resolutions ≡ true

pub Grows-snoc :
    (row : ResolutionRow) (s : Db) → Grows s (record s { resolutions = s.resolutions ++ row ∷ [] })
Grows-snoc row s p h = ground (arith, any-append p s.resolutions (row ∷ []))

module _ (capture : Capture) where
  -- The row tells of the resolution of the memory in the capture's project and namespace.
  abbrev pub reports : Uuid → ResolutionRow → Bool
  reports memory_id resolution =
      resolution.project_id == capture.project_id
      && same_namespace resolution.namespace capture.namespace
      && is_id memory_id resolution.target_memory_id

  abbrev pub IsReported : Db → Uuid → Type 0
  IsReported t memory_id = any (reports memory_id) t.resolutions ≡ true

  reports-resolution_row :
      (hash : Text) (resolution_id target_id : Uuid)
      → reports target_id (resolution_row capture hash resolution_id (some target_id)) ≡ true
  reports-resolution_row hash resolution_id target_id =
      ground (arith, eq→same_namespace capture.namespace capture.namespace refl)

  snoc-IsReported :
      (hash : Text) (resolution_id target_id : Uuid) (s t : Db)
      → t.resolutions
        ≡ s.resolutions ++ resolution_row capture hash resolution_id (some target_id) ∷ []
      → IsReported t target_id
  snoc-IsReported hash resolution_id target_id s t e =
      let new = resolution_row capture hash resolution_id (some target_id) in
      rw e (
        In-any (reports target_id) (s.resolutions ++ new ∷ []) new
          (In-append_right s.resolutions (new ∷ []) new (inl refl))
          (reports-resolution_row hash resolution_id target_id))

  pub is_open-archived :
      (row : BehaviorMemoryRecord)
      → is_open capture (record row { lifecycle_state = archived }) ≡ false
  is_open-archived row = ground arith

  abbrev pub is_named : List Uuid → BehaviorMemoryRecord → Bool
  is_named ms row = holds ms row.memory_id && is_open capture row

  abbrev pub archive : List Uuid → List BehaviorMemoryRecord → List BehaviorMemoryRecord
  archive ms rows = set_state (is_named ms) archived rows

  -- Every row made archived was an open issue.
  pub open-archive :
      (ms : List Uuid) (rows : List BehaviorMemoryRecord)
      → updated (is_open capture) (archive ms rows) + updated (is_named ms) rows
        ≡ updated (is_open capture) rows
  open-archive ms rows = open-shut (is_open capture) is_open-archived ms rows

  closed :
      (ms : List Uuid) (b : BehaviorMemoryRecord)
      → is_named ms b ≡ true
      → is_open capture (change (is_named ms) archived b) ≢ true
  unfolding in_scope
  closed ms b t e = ground arith

  kept :
      (ms : List Uuid) (b : BehaviorMemoryRecord)
      → is_named ms b ≡ false
      → b ≡ change (is_named ms) archived b
  unfolding in_scope
  kept ms b f = ground arith

  -- A row that is still open has not been changed.
  pub In-archive :
      (ms : List Uuid) (rows : List BehaviorMemoryRecord) (r : BehaviorMemoryRecord)
      → In r (archive ms rows)
      → is_open capture r ≡ true
      → In r rows
  unfolding in_scope
  In-archive ms rows r m e =
      let (b, place, same) = In-set_state (is_named ms) archived rows r m in
      elim (Bool-cases (is_named ms b)) [
        | inl t ↦ absurd (closed ms b t (subst (λ x. is_open capture x ≡ true) same e))
        | inr f ↦ subst (λ x. In x rows) (kept ms b f ∙ sym same) place
      ]

  -- Exactly the open rows that the ids name are archived, one for each id.
  pub record Archived (ms : List Uuid) (s t : Db) : Type 0 where
    pub memories : t.memories ≡ archive ms s.memories
    pub counted : updated (is_named ms) s.memories ≡ length ms
    pub sources : t.source_refs ≡ s.source_refs
    pub recorded : length t.resolutions ≡ length s.resolutions + length ms
    pub grows : Grows s t
    pub reported : All (IsReported t) ms

  pub Archived-nil : (s : Db) → Archived [] s s
  Archived-nil s = record {
    memories = sym ((shut-nil (is_open capture) is_open-archived s.memories).0);
    counted = (shut-nil (is_open capture) is_open-archived s.memories).1;
    sources = refl;
    recorded = omega arith;
    grows = λ p e. e;
    reported = tt;
  }

  pub Archived-append :
      (xs ys : List Uuid) (s mid t : Db)
      → Archived xs s mid
      → Archived ys mid t
      → Archived (xs ++ ys) s t
  Archived-append xs ys s mid t g h =
      let (same, sum) = shut-shut (is_open capture) is_open-archived xs ys s.memories in
      record {
        memories = h.memories ∙ ap (archive ys) g.memories ∙ same;
        counted =
            sym sum
            ∙ ap₂ ◌+◌ g.counted (ap (updated (is_named ys)) (sym g.memories) ∙ h.counted)
            ∙ sym (length-append xs ys);
        sources = h.sources ∙ g.sources;
        recorded = omega (arith, g.recorded, h.recorded, length-append xs ys);
        grows = λ p e. h.grows p (g.grows p e);
        reported = In-All (IsReported t) (xs ++ ys) λ m i. elim (In-append xs ys m i) [
          | inl l ↦ h.grows (reports m) (All-In (IsReported mid) xs m g.reported l)
          | inr r ↦ All-In (IsReported t) ys m h.reported r
        ];
      }

  module _ (hash : Text) where
    insert_resolution-ok :
        (row : ResolutionRow) (s t : Db)
        → insert_resolution row s ≡ (ok tt, t)
        → t ≡ record s { resolutions = s.resolutions ++ row ∷ [] }
    unfolding insert_resolution
    insert_resolution-ok row s t h = elim (Bool-cases (any (clash_resolution row) s.resolutions)) [
      | inl e ↦ absurd (cc (rw (e, insert_resolution) at h))
      | inr e ↦ ap (λ (p : Result (Unit {0}) × Db). p.1) (sym (rw (e, insert_resolution) at h))
    ]

    resolve_target-Archived :
        (resolution_id target_id : Uuid) (s t : Db)
        → resolve_target capture hash resolution_id target_id s ≡ (ok tt, t)
        → Archived (target_id ∷ []) s t
    unfolding resolve_target
    resolve_target-Archived resolution_id target_id s t h =
        let test = is_opened capture target_id in
        let count = updated test s.memories in
        let mid = record s { memories = set_state test archived s.memories } in
        let (ended, one, rest) = bind_lift-ok (guard (count == 1) runtime_error) _ mid t tt h in
        let after =
          insert_resolution-ok (resolution_row capture hash resolution_id (some target_id)) mid t
            rest in
        let (named_one, as_many) =
          set_state-same test (is_named (target_id ∷ [])) archived s.memories
            (λ r m. ground arith) in
        record {
          memories = ap (λ (d : Db). d.memories) after ∙ named_one;
          counted = sym as_many ∙ ground (arith, guard-ok (count == 1) runtime_error ended one);
          sources = ap (λ (d : Db). d.source_refs) after;
          recorded = ap (λ (d : Db). length d.resolutions) after ∙ length-append s.resolutions _;
          grows = λ p e.
              subst (λ (d : Db). any p d.resolutions ≡ true) (sym after)
                (Grows-snoc (resolution_row capture hash resolution_id (some target_id)) mid p e);
          reported = (
            snoc-IsReported hash resolution_id target_id mid t
                (ap (λ (d : Db). d.resolutions) after),
            tt,
          );
        }

    pub resolve_batch-Archived :
        (drawn : Option Uuid → Uuid) (ms : List Uuid) (s t : Db)
        → resolve_batch capture hash drawn ms s ≡ (ok tt, t)
        → Archived ms s t
    unfolding resolve_batch
    resolve_batch-Archived drawn [] s t h =
        subst (Archived [] s) (ap (λ (p : Result (Unit {0}) × Db). p.1) h) (Archived-nil s)
    resolve_batch-Archived drawn (target_id ∷ rest) s t h =
        let (done, mid, first, others) =
          bind-ok (resolve_target capture hash (drawn (some target_id)) target_id) _ s t tt h in
        Archived-append (target_id ∷ []) rest s mid t
          (resolve_target-Archived (drawn (some target_id)) target_id s mid first)
          (resolve_batch-Archived drawn rest mid t others)
