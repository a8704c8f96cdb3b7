-- ===== src/Dmalloc.antt =====
-- dmalloc/dmalloc.hh and dmalloc.cc: the debugging allocator. Memory is a function from the address
-- of a word of eight bytes to the word. A pointer is a number, 0 for nullptr; the name of a file is
-- its pointer. base_malloc and base_free are an interface.
pub mod Pointers
pub mod Invariant
pub mod Allocation
pub mod Release
pub mod Writes
pub mod Runs
pub mod Exact
pub mod Base
pub mod Programs
pub mod Safety
use cs300_s23_projects_days.Prelude.{
  ℕ, ◌+◌, ◌-◌, ◌*◌, ◌/◌, ◌%◌, ◌^◌, Bool, true, false, not, ◌&&◌, ◌||◌, Option, none, some, List, [],
  ◌∷◌, length, ltb, leb, ◌==◌, if◌then◌else◌, update, add64, sub64, word_mod,
}
use cs300_s23_projects_days.Dmalloc.Pointers.{PointerMap}

-- A pointer and the new state; base_free answers the new state.
pub record Allocator (B : Type 0) : Type 0 where
  pub base_malloc : ℕ → B → ℕ × B
  pub base_free : ℕ → B → B

pub record DmallocStats : Type 0 where
  pub nactive : ℕ
  pub active_size : ℕ
  pub ntotal : ℕ
  pub total_size : ℕ
  pub nfail : ℕ
  pub fail_size : ℕ
  pub heap_min : ℕ
  pub heap_max : ℕ

pub record Heap (B : Type 0) : Type 0 where
  pub base : B
  pub memory : ℕ → ℕ
  pub stature : DmallocStats
  pub pointer_map : PointerMap

abbrev pub no_stats : DmallocStats
no_stats = record {
  nactive = 0;
  active_size = 0;
  ntotal = 0;
  total_size = 0;
  nfail = 0;
  fail_size = 0;
  heap_min = 0;
  heap_max = 0;
}

-- struct metaData: sizeof, the offsets of its fields, and the values of ifFree.
abbrev pub header_size : ℕ
header_size = 32

abbrev pub if_free_at : ℕ → ℕ
if_free_at header = header

abbrev pub length_at : ℕ → ℕ
length_at header = header + 8

abbrev pub file_name_at : ℕ → ℕ
file_name_at header = header + 16

abbrev pub line_at : ℕ → ℕ
line_at header = header + 24

abbrev pub in_use : ℕ
in_use = 2

abbrev pub freed : ℕ
freed = 3

-- What is printed before abort(): the offset in the region and the size of the region, and the line
-- of its allocation, if the pointer lies in the region below it.
pub record Inside : Type 0 where
  pub line : ℕ
  pub offset : ℕ
  pub size : ℕ

pub data Report : Type 0 where
  not_in_heap : Report
  not_allocated : Option Inside → Report
  double_free : Report

-- A call returns, prints a report and aborts, or does what C++ leaves undefined.
pub data Ending (A : Type 0) : Type 0 where
  returned : A → Ending A
  aborted : Report → Ending A
  undefined : Ending A

-- The header at the address that base_malloc gave.
unfoldable pub write_header : ℕ → ℕ → ℕ → ℕ → (ℕ → ℕ) → ℕ → ℕ
write_header p sz file line memory =
    update
      (update (update (update memory (length_at p) sz) (if_free_at p) in_use) (file_name_at p) file)
      (line_at p) line

pub new_min : ℕ → ℕ → ℕ
new_min old q = if old == 0 then q else if ltb q old then q else old

pub new_max : ℕ → ℕ → ℕ → ℕ
new_max old q sz =
    let current_max = add64 (add64 q 8) sz in if ltb old current_max then current_max else old

-- memset(ptr, 0, n) for a pointer to a word: the low bytes of a word that it covers in part.
unfoldable pub zeroed : ℕ → ℕ → (ℕ → ℕ) → ℕ → ℕ
zeroed ptr n memory a =
    if ltb a ptr || leb (ptr + n) a
    then memory a
    else if leb (a + 8) (ptr + n)
    then 0
    else memory a / 2 ^ (8 * (ptr + n - a)) * 2 ^ (8 * (ptr + n - a))

-- Each line of print_leak_report: file, line, pointer and size of an active block.
unfoldable pub leaks_from : (ℕ → ℕ) → PointerMap → List (ℕ × ℕ × ℕ × ℕ)
leaks_from memory [] = []
leaks_from memory ((q, sz) ∷ m) =
    let header = sub64 q header_size in
    (memory (file_name_at header), memory (line_at header), q, memory (length_at header))
    ∷ leaks_from memory m

module _ {B : Type 0} where
  -- The two branches of dmalloc that fail.
  pub fail : ℕ → Heap B → Heap B
  fail sz h = record h {
    stature = record h.stature {
      fail_size = add64 h.stature.fail_size sz;
      nfail = add64 h.stature.nfail 1;
    };
  }

  -- The branch of dmalloc with a block at p; q is the pointer behind the header.
  unfoldable pub allocated : ℕ → ℕ → ℕ → ℕ → Heap B → ℕ × Heap B
  allocated p sz file line h =
      let q = add64 p header_size in
      (
        q,
        record h {
          memory = write_header p sz file line h.memory;
          stature = record h.stature {
            nactive = add64 h.stature.nactive 1;
            active_size = add64 h.stature.active_size sz;
            ntotal = add64 h.stature.ntotal 1;
            total_size = add64 h.stature.total_size sz;
            heap_min = new_min h.stature.heap_min q;
            heap_max = new_max h.stature.heap_max q sz;
          };
          pointer_map = Pointers.insert q sz h.pointer_map;
        },
      )

  unfoldable pub dmalloc : Allocator B → ℕ → ℕ → ℕ → Heap B → ℕ × Heap B
  unfolding fail allocated
  dmalloc allocator sz file line h =
      let total = add64 header_size sz in
      if ltb header_size sz && ltb total header_size
      then (0, fail sz h)
      else (let (p, base') = allocator.base_malloc total h.base in
          let h' = record h { base = base' } in
          if p == 0 then (0, fail sz h') else allocated p sz file line h')

  -- What is said of a pointer into or behind the last region that starts at or below it; `line` of
  -- that region's pointer. iter-- at the first entry is undefined.
  pub describe : ℕ → (ℕ → ℕ) → Option (ℕ × ℕ) → Ending (Heap B)
  describe ptr line none = undefined
  describe ptr line (some (big, wide)) = aborted (
      not_allocated (
        if leb ptr (add64 big wide)
        then some (record { line = line big; offset = sub64 ptr big; size = wide })
        else none))

  -- The same for a pointer whose header is not aligned: the format has one conversion more than there
  -- are arguments, which is undefined.
  pub describe_unaligned : ℕ → Option (ℕ × ℕ) → Ending (Heap B)
  describe_unaligned ptr none = undefined
  describe_unaligned ptr (some (big, wide)) =
      if leb ptr (add64 big wide) then undefined else aborted (not_allocated none)

  -- The branch of dfree with a header that is in use.
  pub released : Allocator B → ℕ → ℕ → Heap B → Ending (Heap B)
  released allocator ptr header h = elim (Pointers.find ptr h.pointer_map) [
    | none ↦ undefined
    | some size ↦ returned (record h {
      base = allocator.base_free ptr h.base;
      memory = update h.memory (if_free_at header) freed;
      stature = record h.stature {
        active_size = sub64 h.stature.active_size (h.memory (length_at header));
        nactive = sub64 h.stature.nactive 1;
      };
      pointer_map = Pointers.erase ptr h.pointer_map;
    })
  ]

  pub dfree : Allocator B → ℕ → Heap B → Ending (Heap B)
  unfolding describe describe_unaligned released
  dfree allocator ptr h =
      let header = sub64 ptr header_size in
      let flag = h.memory (if_free_at header) in
      let below = Pointers.last_up_to ptr h.pointer_map in
      if ptr == 0
      then returned h
      else if ltb ptr h.stature.heap_min || ltb h.stature.heap_max ptr
      then aborted not_in_heap
      else if not (header % 8 == 0)
      then describe_unaligned ptr below
      else if not (flag == in_use) && not (flag == freed)
      then describe ptr (λ big. h.memory (line_at (sub64 big header_size))) below
      else if flag == freed
      then aborted double_free
      else released allocator ptr header h

  -- Division by zero is undefined.
  unfoldable pub dcalloc : Allocator B → ℕ → ℕ → ℕ → ℕ → Heap B → Ending (ℕ × Heap B)
  unfolding fail zeroed dmalloc
  dcalloc allocator nmemb sz file line h =
      let total = nmemb * sz % word_mod in
      if nmemb == 0
      then undefined
      else if not (total / nmemb == sz)
      then returned (0, fail total h)
      else (let (ptr, h') = dmalloc allocator total file line h in
          returned
            (ptr, (if ptr == 0 then h' else record h' { memory = zeroed ptr total h'.memory })))

  pub get_statistics : Heap B → DmallocStats
  get_statistics h = h.stature

  unfoldable pub print_leak_report : Heap B → List (ℕ × ℕ × ℕ × ℕ)
  print_leak_report h = leaks_from h.memory h.pointer_map
