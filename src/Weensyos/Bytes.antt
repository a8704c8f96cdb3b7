-- ===== src/Weensyos/Bytes.antt =====
-- weensyos/lib.cc and lib.hh: blocks of memory and C strings, byte by byte. A pointer is an
-- address, a memory the byte at each address. Where the source returns a pointer or nullptr, the
-- result is an Option. The loops that end at a NUL take fuel, and none means that it ran out.
pub mod Copy
pub mod Order
use Prim.Native.Nat.{compare, Ordering}
use cs300_s23_projects_days.Prelude.{
  ℕ, zero, suc, ◌+◌, ◌-◌, ◌%◌, ◌<◌, ◌≡◌, Bool, not, ◌&&◌, ◌||◌, Option, none, some, List, [], ◌∷◌,
  ltb, leb, ◌==◌, if◌then◌else◌, update,
}

abbrev pub Memory : Type 0
Memory = ℕ → ℕ

-- Also the loop of memmove that goes up.
unfoldable pub memcpy : ℕ → ℕ → ℕ → Memory → Memory
memcpy dst src zero m = m
memcpy dst src (suc n) m = memcpy (dst + 1) (src + 1) n (update m dst (m src))

-- The loop of memmove that goes down, from the ends of the two blocks.
unfoldable pub move_down : ℕ → ℕ → ℕ → Memory → Memory
move_down d s zero m = m
move_down d s (suc n) m = move_down (d - 1) (s - 1) n (update m (d - 1) (m (s - 1)))

unfoldable pub memmove : ℕ → ℕ → ℕ → Memory → Memory
memmove dst src n m =
    if ltb src dst && ltb dst (src + n)
    then move_down (dst + n) (src + n) n m
    else memcpy dst src n m

-- (a > b) - (a < b): lt for -1, eq for 0, gt for 1.
abbrev pub sign : ℕ → ℕ → Ordering
sign a b = compare a b

unfoldable pub memcmp : ℕ → ℕ → ℕ → Memory → Ordering
memcmp a b zero m = Ordering.eq
memcmp a b (suc n) m =
    let rest = memcmp (a + 1) (b + 1) n m in if not (m a == m b) then sign (m a) (m b) else rest

unfoldable pub memchr : ℕ → ℕ → ℕ → Memory → Option ℕ
memchr s c zero m = none
memchr s c (suc n) m = let rest = memchr (s + 1) c n m in if m s == c % 256 then some s else rest

-- From the n counted so far.
unfoldable pub strlen : ℕ → ℕ → ℕ → Memory → Option ℕ
strlen zero n s m = none
strlen (suc fuel) n s m =
    let rest = strlen fuel (n + 1) (s + 1) m in if m s == 0 then some n else rest

-- For the left of maxlen.
unfoldable pub strnlen : ℕ → ℕ → ℕ → Memory → ℕ
strnlen zero n s m = n
strnlen (suc left) n s m = let rest = strnlen left (n + 1) (s + 1) m in if m s == 0 then n else rest

unfoldable pub strcpy : ℕ → ℕ → ℕ → Memory → Option Memory
strcpy zero d src m = none
strcpy (suc fuel) d src m =
    let m' = update m d (m src) in
    let rest = strcpy fuel (d + 1) (src + 1) m' in if m' d == 0 then some m' else rest

unfoldable pub strcmp : ℕ → ℕ → ℕ → Memory → Option Ordering
strcmp zero a b m = none
strcmp (suc fuel) a b m =
    let rest = strcmp fuel (a + 1) (b + 1) m in
    let ac = m a in
    let bc = m b in if ac == 0 || bc == 0 || not (ac == bc) then some (sign ac bc) else rest

unfoldable pub strncmp : ℕ → ℕ → ℕ → ℕ → Memory → Option Ordering
strncmp zero a b n m = none
strncmp (suc fuel) a b n m =
    let rest = strncmp fuel (a + 1) (b + 1) (n - 1) m in
    let ac = if not (n == 0) then m a else 0 in
    let bc = if not (n == 0) then m b else 0 in
    if ac == 0 || bc == 0 || not (ac == bc) then some (sign ac bc) else rest

abbrev pub isupper : ℕ → Bool
isupper c = leb b'A' c && leb c b'Z'

unfoldable pub tolower : ℕ → ℕ
tolower c = if isupper c then c + b'a' - b'A' else c

unfoldable pub strcasecmp : ℕ → ℕ → ℕ → Memory → Option Ordering
strcasecmp zero a b m = none
strcasecmp (suc fuel) a b m =
    let rest = strcasecmp fuel (a + 1) (b + 1) m in
    let ac = tolower (m a) in
    let bc = tolower (m b) in
    if ac == 0 || bc == 0 || not (ac == bc) then some (sign ac bc) else rest

unfoldable pub strncasecmp : ℕ → ℕ → ℕ → ℕ → Memory → Option Ordering
strncasecmp zero a b n m = none
strncasecmp (suc fuel) a b n m =
    let rest = strncasecmp fuel (a + 1) (b + 1) (n - 1) m in
    let ac = if not (n == 0) then tolower (m a) else 0 in
    let bc = if not (n == 0) then tolower (m b) else 0 in
    if ac == 0 || bc == 0 || not (ac == bc) then some (sign ac bc) else rest

-- The comparisons of char and (char) c are of the same bytes.
unfoldable pub strchr : ℕ → ℕ → ℕ → Memory → Option (Option ℕ)
strchr zero s c m = none
strchr (suc fuel) s c m =
    let rest = strchr fuel (s + 1) c m in
    if not (m s == 0) && not (m s == c % 256)
    then rest
    else if m s == c % 256
    then some (some s)
    else some none

-- The bytes of a block, and a string that ends with a NUL.
abbrev pub bytes : ℕ → ℕ → Memory → List ℕ
bytes a zero m = []
bytes a (suc n) m = m a ∷ bytes (a + 1) n m

abbrev pub IsString : Memory → ℕ → List ℕ → Type 0
IsString m a [] = m a ≡ 0
IsString m a (c ∷ cs) = (m a ≡ c) × (0 < c) × IsString m (a + 1) cs
