-- ===== src/Weensyos/Bytes/Copy.antt =====
-- What memcpy, memmove and strcpy of weensyos/lib.cc leave in memory.
use cs300_s23_projects_days.Prelude.{
  ℕ, zero, suc, ◌+◌, ◌-◌, ◌≤◌, ◌<◌, ◌≡◌, ◌⊎◌, inl, inr, false, ◌&&◌, some, List, [], ◌∷◌, length,
  ltb, leb, if◌then◌else◌, update, arith, Bool-cases,
}
use cs300_s23_projects_days.Weensyos.Bytes.{Memory, memcpy, move_down, memmove, strcpy, IsString}

-- The memory with the old block at src written to dst.
abbrev pub copied : ℕ → ℕ → ℕ → Memory → Memory
copied dst src n m a = if leb dst a && ltb a (dst + n) then m (src + (a - dst)) else m a

pub memcpy-copied :
    (dst src n : ℕ) (m : Memory) (a : ℕ)
    → (dst ≤ src) ⊎ (src + n ≤ dst)
    → memcpy dst src n m a ≡ copied dst src n m a
unfolding memcpy
memcpy-copied dst src zero m a h = ground arith
memcpy-copied dst src (suc n) m a h =
    ground (arith, memcpy-copied (dst + 1) (src + 1) n (update m dst (m src)) a)

pub move_down-copied :
    (dst src n : ℕ) (m : Memory) (a : ℕ)
    → src ≤ dst
    → move_down (dst + n) (src + n) n m a ≡ copied dst src n m a
unfolding move_down
move_down-copied dst src zero m a h = ground arith
move_down-copied dst src (suc n) m a h =
    let d : dst + suc n - 1 ≡ dst + n = omega arith in
    let s : src + suc n - 1 ≡ src + n = omega arith in
    rw (d, s) (ground (arith, move_down-copied dst src n (update m (dst + n) (m (src + n))) a))

apart : (dst src n : ℕ) → (ltb src dst && ltb dst (src + n)) ≡ false → (dst ≤ src) ⊎ (src + n ≤ dst)
apart dst src n up = elim (Bool-cases (leb dst src)) [
  | inl below ↦ inl (ground arith)
  | inr above ↦ inr (ground arith)
]

-- For any two blocks of one length, also where they overlap on either side: after memmove each
-- byte of the destination is the byte that stood in the source before the call, and no other byte
-- has changed.
pub memmove-copied :
    (dst src n : ℕ) (m : Memory) (a : ℕ) → memmove dst src n m a ≡ copied dst src n m a
unfolding memmove
memmove-copied dst src n m a = elim (Bool-cases (ltb src dst && ltb dst (src + n))) [
  | inl down ↦ rw (down) (move_down-copied dst src n m a (ground arith))
  | inr up ↦ rw (up) (memcpy-copied dst src n m a (apart dst src n up))
]

-- A write outside of a string and its NUL.
update-IsString :
    (m : Memory) (a : ℕ) (cs : List ℕ) (d v : ℕ)
    → (d < a) ⊎ (a + length cs < d)
    → IsString m a cs
    → IsString (update m d v) a cs
update-IsString m a [] d v away h = ground arith
update-IsString m a (c ∷ cs) d v away h = (
  ground arith,
  h.1,
  update-IsString m (a + 1) cs d v
      (elim away [ inl l ↦ inl (omega arith) | inr r ↦ inr (omega arith) ]) h.2,
)

-- strcpy is memcpy of the string and its NUL.
strcpy-memcpy :
    (f dst src : ℕ) (m : Memory) (cs : List ℕ)
    → (dst ≤ src) ⊎ (src + length cs < dst)
    → IsString m src cs
    → length cs < f
    → strcpy f dst src m ≡ some (memcpy dst src (length cs + 1) m)
unfolding strcpy memcpy
strcpy-memcpy zero dst src m cs away h l = absurd (omega arith)
strcpy-memcpy (suc f) dst src m [] away h l = ground arith
strcpy-memcpy (suc f) dst src m (c ∷ cs) away h l =
    let away' : (dst < src + 1) ⊎ (src + 1 + length cs < dst) = elim away [
      | inl e ↦ inl (omega arith)
      | inr r ↦ inr (omega arith)
    ] in
    let kept = update-IsString m (src + 1) cs dst (m src) away' h.2 in
    let next : (dst + 1 ≤ src + 1) ⊎ (src + 1 + length cs < dst + 1) = elim away [
      | inl e ↦ inl (omega arith)
      | inr r ↦ inr (omega arith)
    ] in
    let ih =
      strcpy-memcpy f (dst + 1) (src + 1) (update m dst (m src)) cs next kept (omega arith) in
    let one : suc (length cs) + 1 ≡ suc (length cs + 1) = omega arith in
    rw (one) (ground (arith, ih))

-- strcpy of a string that does not lie in front of the destination within it.
pub strcpy-copied :
    (f dst src : ℕ) (m : Memory) (cs : List ℕ)
    → (dst ≤ src) ⊎ (src + length cs < dst)
    → IsString m src cs
    → length cs < f
    → (m' : Memory) × (strcpy f dst src m ≡ some m')
      × ((a : ℕ) → m' a ≡ copied dst src (length cs + 1) m a)
strcpy-copied f dst src m cs away h l = (
  memcpy dst src (length cs + 1) m,
  strcpy-memcpy f dst src m cs away h l,
  λ a.
      memcpy-copied dst src (length cs + 1) m a
        (elim away [ inl e ↦ inl e | inr r ↦ inr (omega arith) ]),
)
