-- ===== src/Tests/Dmalloc.antt =====
-- Tests of the debugging allocator of dmalloc, over a base allocator that never reuses a block.
use cs300_s23_projects_days.Prelude.{
  ℕ, ◌+◌, ◌*◌, ◌/◌, ◌%◌, ◌≤◌, ◌<◌, ◌≡◌, refl, ltb, leb, ◌==◌, if◌then◌else◌, word_mod, add64, sub64,
  arith, some, none, [], ◌∷◌,
}
use cs300_s23_projects_days.Dmalloc.{
  Allocator, Heap, Ending, Report, dmalloc, dfree, dcalloc, fail, zeroed, print_leak_report,
  write_header, leaks_from, allocated,
}
use cs300_s23_projects_days.Dmalloc.Base.{Malloc, base_allocator}
use cs300_s23_projects_days.Dmalloc.Base.Regions.{IsMalloc}
use cs300_s23_projects_days.Dmalloc.Base.Contract.{IsFine, IsActive, base_allocator-IsBase}
use cs300_s23_projects_days.Dmalloc.Pointers.{find, insert}
use cs300_s23_projects_days.Dmalloc.Invariant.{IsHeap}
use cs300_s23_projects_days.Dmalloc.Programs.{IsBase, Step, Steps, no_blocks}
use cs300_s23_projects_days.Dmalloc.Runs.{dfree-dfree}
use cs300_s23_projects_days.Dmalloc.Exact.{serve, dmalloc-exact}
use cs300_s23_projects_days.Dmalloc.Safety.{Steps-IsHeap}

-- The state is the first free address.
bump_malloc : ℕ → ℕ → ℕ × ℕ
bump_malloc n top = if ltb (top + n + 8) word_mod then (top, (top + n + 7) / 8 * 8) else (0, top)

abbrev bump : Allocator ℕ
bump = record { base_malloc = bump_malloc; base_free = λ p top. top }

abbrev IsBump : ℕ → Type 0
IsBump top = (0 < top) × (top % 8 ≡ 0)

abbrev IsBelow : ℕ → ℕ → ℕ → Type 0
IsBelow top p m = p + m ≤ top

bump-IsBase : IsBase bump IsBump IsBelow
unfolding bump_malloc
bump-IsBase = record {
  malloc_good = λ n top g. (ground arith, ground arith);
  free_good = λ p top g. g;
  malloc_keeps = λ n p m top g h. ground arith;
  free_keeps = λ r p m top g ne h. h;
  served = λ n p top g e ne. (ground arith, ground arith, ground arith, λ r m h. ground arith);
}

abbrev empty_heap : Heap ℕ
empty_heap = no_blocks 4096 (λ a. 7)

abbrev one_block : Heap ℕ
one_block = (dmalloc bump 20 1 5 empty_heap).1

to_one_block : Steps bump empty_heap one_block
to_one_block = Steps.next Steps.here (Step.malloc 20 1 5 empty_heap (omega arith) (omega arith))

Steps-IsHeap_example : IsHeap one_block
Steps-IsHeap_example =
    Steps-IsHeap bump IsBump IsBelow bump-IsBase 4096 (λ a. 7) one_block (omega arith, refl)
      to_one_block

one_block-find : find 4128 one_block.pointer_map ≡ some 20
unfolding dmalloc allocated find insert bump_malloc add64
one_block-find = refl

one_block-leaks : print_leak_report one_block ≡ (1, 5, 4128, 20) ∷ []
unfolding dmalloc allocated find insert bump_malloc print_leak_report leaks_from write_header add64
    sub64
one_block-leaks = refl

dfree-dfree_example :
    (h' : Heap ℕ) × (dfree bump 4128 one_block ≡ Ending.returned h')
    × IsHeap h'
    × ((q : ℕ) → find q h'.pointer_map ≡ (if 4128 == q then none else find q one_block.pointer_map))
    × (dfree bump 4128 h' ≡ Ending.aborted Report.double_free)
dfree-dfree_example = dfree-dfree bump 4128 20 one_block Steps-IsHeap_example one_block-find

dmalloc-exact_example : dmalloc bump 18446744073709551600 1 5 one_block ≡ (
    if leb word_mod (32 + 18446744073709551600)
    then (0, fail 18446744073709551600 one_block)
    else serve bump 18446744073709551600 1 5 one_block
        (bump.base_malloc (32 + 18446744073709551600) one_block.base))
dmalloc-exact_example = dmalloc-exact bump 18446744073709551600 1 5 one_block (omega arith)

abbrev cleared : Heap ℕ
cleared = record (dmalloc bump 16 1 5 empty_heap).1 {
  memory = zeroed 4128 16 (dmalloc bump 16 1 5 empty_heap).1.memory;
}

runs_cleared : dcalloc bump 2 8 1 5 empty_heap ≡ Ending.returned (4128, cleared)
unfolding dcalloc dmalloc allocated bump_malloc add64
runs_cleared = refl

-- A malloc that gives out the memory behind the last region.
next_malloc : ℕ → ℕ → ℕ × ℕ
next_malloc n top =
    let p = (top + 7) / 8 * 8 in if ltb (p + n + 8) word_mod then (p, p + n) else (0, top)

abbrev next_os : Malloc ℕ
next_os = record { malloc = next_malloc; free = λ p top. top }

next_os-IsMalloc : IsMalloc next_os IsBelow
unfolding next_malloc
next_os-IsMalloc = record {
  keeps = λ n s z m g. ground arith;
  free_null = λ m. refl;
  gives = λ n m pos ne. (ground arith, ground arith, ground arith, λ s z g. ground arith);
}

base_allocator-IsBase_example :
    IsBase
      (base_allocator next_os)
      (IsFine next_os IsBelow next_os-IsMalloc)
      (IsActive next_os IsBelow next_os-IsMalloc)
base_allocator-IsBase_example = base_allocator-IsBase next_os IsBelow next_os-IsMalloc
