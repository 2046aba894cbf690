-- ===== src/Compaction/Counts.antt =====
-- The counters of services/compaction.py: they saturate at 2³¹ - 1. All of its counts are natural
-- numbers, so that the test for a negative one has no case here.
use project_memory_hub.Common.{ℕ, ◌+◌, ◌≤◌, ◌≡◌, min, arith, List, [], ◌∷◌}

abbrev pub max_count : ℕ
max_count = 2147483647

unfoldable pub bounded_count : ℕ → ℕ
bounded_count value = min value max_count

unfoldable pub add_count : ℕ → ℕ → ℕ
unfolding bounded_count
add_count left right = min (bounded_count left + bounded_count right) max_count

pub record CompactionSummary : Type 0 where
  pub project_count : ℕ
  pub namespace_count : ℕ
  pub source_count : ℕ
  pub cold_count : ℕ
  pub retrospective_count : ℕ
  pub remaining_count : ℕ
  pub failure_count : ℕ

-- `CompactionSummary()`.
abbrev pub empty_summary : CompactionSummary
empty_summary = record {
  project_count = 0;
  namespace_count = 0;
  source_count = 0;
  cold_count = 0;
  retrospective_count = 0;
  remaining_count = 0;
  failure_count = 0;
}

unfoldable pub merge_summaries : CompactionSummary → CompactionSummary → CompactionSummary
unfolding add_count
merge_summaries left right = record {
  project_count = add_count left.project_count right.project_count;
  namespace_count = add_count left.namespace_count right.namespace_count;
  source_count = add_count left.source_count right.source_count;
  cold_count = add_count left.cold_count right.cold_count;
  retrospective_count = add_count left.retrospective_count right.retrospective_count;
  remaining_count = add_count left.remaining_count right.remaining_count;
  failure_count = add_count left.failure_count right.failure_count;
}

-- The sum of all parts, kept below the limit once.
abbrev pub total : (CompactionSummary → ℕ) → List CompactionSummary → ℕ
total field [] = 0
total field (s ∷ ss) = field s + total field ss

abbrev pub merge_all : CompactionSummary → List CompactionSummary → CompactionSummary
merge_all totals [] = totals
merge_all totals (s ∷ ss) = merge_all (merge_summaries totals s) ss

-- Every counter of the summary, by one test.
pub record Counter (field : CompactionSummary → ℕ) : Type 0 where
  pub merged :
      (a b : CompactionSummary) → field (merge_summaries a b) ≡ min (field a + field b) max_count

project-Counter : Counter (λ s. s.project_count)
unfolding merge_summaries
project-Counter = record { merged = λ a b. omega arith }

namespace-Counter : Counter (λ s. s.namespace_count)
unfolding merge_summaries
namespace-Counter = record { merged = λ a b. omega arith }

source-Counter : Counter (λ s. s.source_count)
unfolding merge_summaries
source-Counter = record { merged = λ a b. omega arith }

cold-Counter : Counter (λ s. s.cold_count)
unfolding merge_summaries
cold-Counter = record { merged = λ a b. omega arith }

retrospective-Counter : Counter (λ s. s.retrospective_count)
unfolding merge_summaries
retrospective-Counter = record { merged = λ a b. omega arith }

remaining-Counter : Counter (λ s. s.remaining_count)
unfolding merge_summaries
remaining-Counter = record { merged = λ a b. omega arith }

failure-Counter : Counter (λ s. s.failure_count)
unfolding merge_summaries
failure-Counter = record { merged = λ a b. omega arith }

merge_all-Counter :
    (field : CompactionSummary → ℕ) (c : Counter field) (totals : CompactionSummary)
    (ss : List CompactionSummary)
    → field totals ≤ max_count
    → field (merge_all totals ss) ≡ min (field totals + total field ss) max_count
merge_all-Counter field c totals [] h = omega arith
merge_all-Counter field c totals (s ∷ ss) h = omega (
  arith,
  c.merged totals s,
  merge_all-Counter field c (merge_summaries totals s) ss (omega (arith, c.merged totals s)),
)

-- The counter of the merged report is the sum of that counter of all of them, or the limit if the
-- sum is beyond it.
abbrev pub AddsUp : (CompactionSummary → ℕ) → CompactionSummary → List CompactionSummary → Type 0
AddsUp field totals ss = field (merge_all totals ss) ≡ min (field totals + total field ss) max_count

-- A summary whose counters are within the limit.
pub record IsBounded (s : CompactionSummary) : Type 0 where
  pub project_count : s.project_count ≤ max_count
  pub namespace_count : s.namespace_count ≤ max_count
  pub source_count : s.source_count ≤ max_count
  pub cold_count : s.cold_count ≤ max_count
  pub retrospective_count : s.retrospective_count ≤ max_count
  pub remaining_count : s.remaining_count ≤ max_count
  pub failure_count : s.failure_count ≤ max_count

-- Merging reports one by one, from totals whose counters are within the limit, each of the seven
-- counters is the sum of that counter of all of them, or the limit if the sum is beyond it.
pub merge_summaries-total :
    (totals : CompactionSummary) (ss : List CompactionSummary)
    → IsBounded totals
    → AddsUp (λ s. s.project_count) totals ss
      × AddsUp (λ s. s.namespace_count) totals ss
      × AddsUp (λ s. s.source_count) totals ss
      × AddsUp (λ s. s.cold_count) totals ss
      × AddsUp (λ s. s.retrospective_count) totals ss
      × AddsUp (λ s. s.remaining_count) totals ss
      × AddsUp (λ s. s.failure_count) totals ss
merge_summaries-total totals ss b = (
  merge_all-Counter (λ s. s.project_count) project-Counter totals ss b.project_count,
  merge_all-Counter (λ s. s.namespace_count) namespace-Counter totals ss b.namespace_count,
  merge_all-Counter (λ s. s.source_count) source-Counter totals ss b.source_count,
  merge_all-Counter (λ s. s.cold_count) cold-Counter totals ss b.cold_count,
  merge_all-Counter (λ s. s.retrospective_count) retrospective-Counter totals ss
      b.retrospective_count,
  merge_all-Counter (λ s. s.remaining_count) remaining-Counter totals ss b.remaining_count,
  merge_all-Counter (λ s. s.failure_count) failure-Counter totals ss b.failure_count,
)
