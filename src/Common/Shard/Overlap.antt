-- ===== src/Common/Shard/Overlap.antt =====
-- get_overlap of kvstore/common/shard.cpp. `none` is the exception of the last branch.
use cs300_s23_projects_days.Prelude.{
  ℕ, ◌≤◌, ◌<◌, ◌≡◌, ◌&&◌, ◌||◌, Option, none, some, str_lt, str_le, if◌then◌else◌, arith, ◌≢◌,
  Option-cases, inl, inr,
}
use cs300_s23_projects_days.Common.Shard.{Shard, num_buckets}
use cs300_s23_projects_days.Common.Shard.Split.Tiles.{word-ltb}
use cs300_s23_projects_days.Common.Shard.Split.Halves.{span}

pub data OverlapStatus : Type 0 where
  no_overlap overlap_start overlap_end completely_contains completely_contained : OverlapStatus

pub get_overlap : Shard → Shard → Option OverlapStatus
get_overlap a b =
    if str_lt a.upper b.lower || str_lt b.upper a.lower
    then some no_overlap
    else if str_le b.lower a.lower && str_le a.upper b.upper
    then some completely_contained
    else if str_lt a.lower b.lower && str_lt b.upper a.upper
    then some completely_contains
    else if str_le b.lower a.lower && str_lt b.upper a.upper
    then some overlap_start
    else if str_lt a.lower b.lower && str_le a.upper b.upper
    then some overlap_end
    else none

-- What each status says of two ranges of buckets, [al, au] relative to [bl, bu].
abbrev pub Means : OverlapStatus → ℕ → ℕ → ℕ → ℕ → Type 0
Means no_overlap al au bl bu = (k : ℕ) → al ≤ k → k ≤ au → bl ≤ k → k ≤ bu → ⊥
Means completely_contained al au bl bu = (k : ℕ) → al ≤ k → k ≤ au → (bl ≤ k) × (k ≤ bu)
Means completely_contains al au bl bu = (al < bl) × (bl ≤ bu) × (bu < au)
Means overlap_start al au bl bu = (bl ≤ al) × (al ≤ bu) × (bu < au)
Means overlap_end al au bl bu = (al < bl) × (bl ≤ au) × (au ≤ bu)

get_overlap-ne-none : (a b : Shard) → get_overlap a b ≢ none
unfolding get_overlap
get_overlap-ne-none a b = ground arith

-- The final branch is unreachable, whatever the bounds are: get_overlap never throws.
pub get_overlap_total : (a b : Shard) → (o : OverlapStatus) × (get_overlap a b ≡ some o)
get_overlap_total a b = elim (Option-cases (get_overlap a b)) [
  | inl e ↦ absurd (get_overlap-ne-none a b e)
  | inr r ↦ r
]

module _ (g al au bl bu : ℕ) (a_ordered : al ≤ au) (b_ordered : bl ≤ bu)
    (a_inside : au < num_buckets g) (b_inside : bu < num_buckets g) where
  status-Means :
      (o : OverlapStatus) → get_overlap (span g al au) (span g bl bu) ≡ some o → Means o al au bl bu
  unfolding get_overlap
  status-Means no_overlap e = λ k p q r s. ground (
    arith,
    word-ltb g au bl a_inside (omega arith),
    word-ltb g bu al b_inside (omega arith),
    word-ltb g al bl (omega arith) (omega arith),
    word-ltb g bu au b_inside a_inside,
  )
  status-Means completely_contained e = λ k p q. ground (
    arith,
    word-ltb g au bl a_inside (omega arith),
    word-ltb g bu al b_inside (omega arith),
    word-ltb g al bl (omega arith) (omega arith),
    word-ltb g bu au b_inside a_inside,
  )
  status-Means completely_contains e = ground (
    arith,
    word-ltb g au bl a_inside (omega arith),
    word-ltb g bu al b_inside (omega arith),
    word-ltb g al bl (omega arith) (omega arith),
    word-ltb g bu au b_inside a_inside,
  )
  status-Means overlap_start e = ground (
    arith,
    word-ltb g au bl a_inside (omega arith),
    word-ltb g bu al b_inside (omega arith),
    word-ltb g al bl (omega arith) (omega arith),
    word-ltb g bu au b_inside a_inside,
  )
  status-Means overlap_end e = ground (
    arith,
    word-ltb g au bl a_inside (omega arith),
    word-ltb g bu al b_inside (omega arith),
    word-ltb g al bl (omega arith) (omega arith),
    word-ltb g bu au b_inside a_inside,
  )

  -- On two shards that are ranges of buckets of one granularity, get_overlap returns a status
  -- that means what its name says for the buckets in the ranges.
  pub get_overlap-Means :
      (o : OverlapStatus) × (get_overlap (span g al au) (span g bl bu) ≡ some o)
      × Means o al au bl bu
  get_overlap-Means =
      let (o, e) = get_overlap_total (span g al au) (span g bl bu) in (o, e, status-Means o e)
