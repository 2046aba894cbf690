-- ===== src/Resolutions/Rounds.antt =====
-- The loop of a declaration ends with no target left.
use project_memory_hub.Common.{
  ℕ, zero, suc, ◌+◌, ◌<◌, ◌≡◌, refl, true, Option, List, [], ◌∷◌, ◌++◌, ap, ◌∙◌, sym, subst, arith,
  length, select, take, In, All, In-All, All-In, In-map, In-take, In-select, length-map,
  length-append,
}
use project_memory_hub.Common.Order.{StrictOrder, nat_order, pair_order}
use project_memory_hub.Common.Order.Sort.{sort, In-sort, length-sort}
use project_memory_hub.Common.Exec.{Result, ok, bind-ok, same_ok, pure, ◌>>=◌, ◌>>◌}
use project_memory_hub.Text.{Text}
use project_memory_hub.Domain.{Uuid, BehaviorMemoryRecord}
use project_memory_hub.Database.{Db, SourceRef}
use project_memory_hub.Database.Iso.{iso_rank}
use project_memory_hub.Memories.Lifecycle.{updated}
use project_memory_hub.Resolutions.{
  Capture, is_open, is_target, target_ids, target_batch_size, resolve_batch, resolve_rounds,
  unless_empty,
}
use project_memory_hub.Resolutions.Updates.{
  open-archive, In-archive, Archived, Archived-nil, Archived-append, resolve_batch-Archived,
}

take-nil : {A : Type 0} (n : ℕ) (xs : List A) → length (take (suc n) xs) ≡ 0 → length xs ≡ 0
take-nil n [] h = refl
take-nil n (x ∷ xs) h = absurd (omega arith)

length-nil : {A : Type 0} (xs : List A) → length xs ≡ 0 → xs ≡ []
length-nil [] h = refl
length-nil (x ∷ xs) h = absurd (omega arith)

All-append : {A : Type 0} (P : A → Type 0) (xs ys : List A) → All P xs → All P ys → All P (xs ++ ys)
All-append P [] ys h k = k
All-append P (x ∷ xs) ys h k = (h.0, All-append P xs ys h.1 k)

module _ (capture : Capture) (hash declaration : Text) where
  abbrev pub IsTargetRow : List SourceRef → BehaviorMemoryRecord → Type 0
  IsTargetRow sources row = is_target capture sources hash declaration row ≡ true

  -- The id is that of a target among the rows.
  abbrev pub IsTargetId : List SourceRef → List BehaviorMemoryRecord → Uuid → Type 0
  IsTargetId sources rows m =
      (row : BehaviorMemoryRecord) × In row rows × IsTargetRow sources row × (m ≡ row.memory_id)

  -- The run archived the targets with these ids, and none is left if it had rounds enough.
  pub record Resolved (rounds count : ℕ) (ms : List Uuid) (s t : Db) : Type 0 where
    pub archived : Archived capture ms s t
    pub counted : length ms ≡ count
    pub aimed : All (IsTargetId s.source_refs s.memories) ms
    pub ended :
        updated (is_open capture) s.memories < rounds
        → select (is_target capture s.source_refs hash declaration) t.memories ≡ []

  abbrev order : StrictOrder (ℕ × ℕ)
  order = pair_order nat_order nat_order

  abbrev key : BehaviorMemoryRecord → ℕ × ℕ
  key row = (iso_rank row.created_at, row.memory_id)

  target_ids-IsTargetId :
      (s : Db) → All (IsTargetId s.source_refs s.memories) (target_ids capture hash declaration s)
  unfolding target_ids
  target_ids-IsTargetId s = In-All _ _ λ m place.
      let (row, i, same) = In-map (λ (r : BehaviorMemoryRecord). r.memory_id) _ m place in
      let sorted = In-sort order key _ row (In-take target_batch_size _ row i) in
      let (stored, hit) =
        In-select (is_target capture s.source_refs hash declaration) s.memories row sorted in
      (row, stored, hit, same)

  target_ids-nil :
      (s : Db)
      → target_ids capture hash declaration s ≡ []
      → select (is_target capture s.source_refs hash declaration) s.memories ≡ []
  unfolding target_ids
  target_ids-nil s h =
      let found = select (is_target capture s.source_refs hash declaration) s.memories in
      let id = λ (r : BehaviorMemoryRecord). r.memory_id in
      let short =
        sym (length-map id (take target_batch_size (sort order key found))) ∙ ap length h in
      length-nil found
        (sym (length-sort order key found) ∙ take-nil 255 (sort order key found) short)

  Archived-aimed :
      (xs ms : List Uuid) (s mid : Db)
      → Archived capture xs s mid
      → All (IsTargetId mid.source_refs mid.memories) ms
      → All (IsTargetId s.source_refs s.memories) ms
  Archived-aimed xs ms s mid first h = In-All _ ms λ m i.
      let (row, place, hit, same) = All-In _ ms m h i in
      (
        row,
        In-archive capture xs s.memories row (subst (In row) first.memories place) (ground arith),
        subst (λ sources. IsTargetRow sources row) first.sources hit,
        same,
      )

  Resolved-cons :
      (rounds count : ℕ) (x : Uuid) (xs ms : List Uuid) (s mid t : Db)
      → Archived capture (x ∷ xs) s mid
      → All (IsTargetId s.source_refs s.memories) (x ∷ xs)
      → Resolved rounds count ms mid t
      → Resolved (suc rounds) (length (x ∷ xs) + count) ((x ∷ xs) ++ ms) s t
  Resolved-cons rounds count x xs ms s mid t first aimed rest = record {
    archived = Archived-append capture (x ∷ xs) ms s mid t first rest.archived;
    counted = omega (arith, length-append (x ∷ xs) ms, rest.counted);
    aimed = All-append _ (x ∷ xs) ms aimed (Archived-aimed (x ∷ xs) ms s mid first rest.aimed);
    ended = λ enough.
        let fewer = ap (updated (is_open capture)) first.memories in
        subst (λ sources. select (is_target capture sources hash declaration) t.memories ≡ [])
          first.sources
          (rest.ended
            (omega (arith, open-archive capture (x ∷ xs) s.memories, first.counted, fewer)));
  }

  Resolved-nil :
      (rounds count : ℕ) (s t : Db)
      → (updated (is_open capture) s.memories < rounds
          → select (is_target capture s.source_refs hash declaration) s.memories ≡ [])
      → pure 0 s ≡ (ok count, t)
      → Resolved rounds count [] s t
  Resolved-nil rounds count s t ended h =
      let same = ap (λ (p : Result ℕ × Db). p.1) h in
      record {
        archived = subst (Archived capture [] s) same (Archived-nil capture s);
        counted = same_ok (ap (λ (p : Result ℕ × Db). p.0) h);
        aimed = tt;
        ended = λ enough.
            subst
              (λ (d : Db).
                select (is_target capture s.source_refs hash declaration) d.memories ≡ [])
              same (ended enough);
      }

  resolve_batch-Resolved :
      (drawn : Option Uuid → Uuid) (rounds count : ℕ) (batch : List Uuid) (s t : Db)
      → All (IsTargetId s.source_refs s.memories) batch
      → (batch ≡ [] → select (is_target capture s.source_refs hash declaration) s.memories ≡ [])
      → ((mid : Db) (more : ℕ)
          → resolve_rounds capture hash declaration drawn rounds mid ≡ (ok more, t)
          → (ms : List Uuid) × Resolved rounds more ms mid t)
      → unless_empty batch
          (do
            resolve_batch capture hash drawn batch
            more ← resolve_rounds capture hash declaration drawn rounds
            pure (length batch + more))
          s
        ≡ (ok count, t)
      → (ms : List Uuid) × Resolved (suc rounds) count ms s t
  resolve_batch-Resolved drawn rounds count [] s t aimed left next h =
      ([], Resolved-nil (suc rounds) count s t (λ enough. left refl) h)
  resolve_batch-Resolved drawn rounds count (x ∷ xs) s t aimed left next h =
      let (u, mid, first, others) =
        bind-ok (resolve_batch capture hash drawn (x ∷ xs)) _ s t count h in
      let (more, last, rest, end) =
        bind-ok (resolve_rounds capture hash declaration drawn rounds) _ mid t count others in
      let (ms, rest_resolved) =
        next mid more (rest ∙ ap (λ (p : Result ℕ × Db). (ok more, p.1)) end) in
      let total = same_ok (ap (λ (p : Result ℕ × Db). p.0) end) in
      (
        (x ∷ xs) ++ ms,
        subst (λ c. Resolved (suc rounds) c ((x ∷ xs) ++ ms) s t) total
            (Resolved-cons rounds more x xs ms s mid t
              (resolve_batch-Archived capture hash drawn (x ∷ xs) s mid first) aimed rest_resolved),
      )

  pub resolve_rounds-Resolved :
      (drawn : Option Uuid → Uuid) (rounds count : ℕ) (s t : Db)
      → resolve_rounds capture hash declaration drawn rounds s ≡ (ok count, t)
      → (ms : List Uuid) × Resolved rounds count ms s t
  unfolding resolve_rounds
  resolve_rounds-Resolved drawn zero count s t h =
      ([], Resolved-nil 0 count s t (λ enough. absurd (omega arith)) h)
  resolve_rounds-Resolved drawn (suc rounds) count s t h =
      resolve_batch-Resolved drawn rounds count (target_ids capture hash declaration s) s t
        (target_ids-IsTargetId s) (target_ids-nil s)
        (λ mid more. resolve_rounds-Resolved drawn rounds more mid t) h
