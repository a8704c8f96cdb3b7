-- ===== src/Dmalloc/Exact.antt =====
-- The overflow tests of dmalloc and dcalloc in dmalloc/dmalloc.cc.
use native.Mathlib.Nat.{mul-div_right, mul-div-le}
use cs300_s23_projects_days.Prelude.{
  ℕ, ◌+◌, ◌-◌, ◌*◌, ◌/◌, ◌%◌, ◌≤◌, ◌<◌, ◌≡◌, refl, subst, Bool, true, false, ltb, leb, ◌==◌,
  if◌then◌else◌, add64, add64-eq, word_mod, arith, Bool-cases, ==_ne, ==_self, not, ◌&&◌, lt→ltb,
  le→ltb, inl, inr,
}
use cs300_s23_projects_days.Dmalloc.{
  Allocator, Heap, Ending, dmalloc, dcalloc, allocated, fail, zeroed,
}

leb→le : (a b : ℕ) → leb a b ≡ true → a ≤ b
leb→le a b h = ground arith

leb→lt : (a b : ℕ) → leb a b ≡ false → b < a
leb→lt a b h = ground arith

wraps : (sz : ℕ) → sz < word_mod → word_mod ≤ 32 + sz → add64 32 sz ≡ 32 + sz - word_mod
unfolding add64
wraps sz small over = omega arith

and_false : (b : Bool) → (b && false) ≡ false
and_false true = refl
and_false false = refl

-- The product of two sizes is exact when the division by one of them gives the other back.
exact_product : (n s : ℕ) → 0 < n → (n * s % word_mod / n == s) ≡ not (leb word_mod (n * s))
exact_product n s pos = elim (Bool-cases (leb word_mod (n * s))) [
  | inl d ↦
      let over : word_mod ≤ n * s = leb→le word_mod (n * s) d in
      let below : n * (n * s % word_mod / n) ≤ n * s % word_mod = mul-div-le (n * s % word_mod) n in
      rw (d) (
        ==_ne (n * s % word_mod / n) s (λ c.
          let below' : n * s ≤ n * s % word_mod = subst (λ x. n * x ≤ n * s % word_mod) c below in
          omega (arith, below')))
  | inr d ↦
      let fits : n * s < word_mod = leb→lt word_mod (n * s) d in
      let e : n * s % word_mod ≡ n * s = omega arith in rw (d, e, mul-div_right s pos) (==_self s)
]

module _ {B : Type 0} (allocator : Allocator B) where
  -- What is done with the answer of base_malloc.
  unfoldable pub serve : ℕ → ℕ → ℕ → Heap B → ℕ × B → ℕ × Heap B
  serve sz file line h (p, b) =
      if p == 0
      then (0, fail sz (record h { base = b }))
      else allocated p sz file line (record h { base = b })

  -- For a size below 2^64, dmalloc fails without calling base_malloc if the size and the header
  -- together do not fit in 64 bits. Otherwise it asks base_malloc for exactly 32 bytes more than
  -- the size, fails if there is no pointer, and else makes the block.
  pub dmalloc-exact :
      (sz file line : ℕ) (h : Heap B)
      → sz < word_mod
      → dmalloc allocator sz file line h ≡ (
          if leb word_mod (32 + sz)
          then (0, fail sz h)
          else serve sz file line h (allocator.base_malloc (32 + sz) h.base))
  unfolding dmalloc serve
  dmalloc-exact sz file line h small = elim (Bool-cases (leb word_mod (32 + sz))) [
    | inl d ↦
        let over : word_mod ≤ 32 + sz = ground arith in
        let e : add64 32 sz ≡ 32 + sz - word_mod = wraps sz small over in
        rw (d, e, lt→ltb 32 sz (omega arith), lt→ltb (32 + sz - word_mod) 32 (omega arith)) refl
    | inr d ↦
        let fits : 32 + sz < word_mod = ground arith in
        rw (d, add64-eq 32 sz fits, le→ltb (32 + sz) 32 (omega arith), and_false (ltb 32 sz)) refl
  ]

  -- For at least one element, dcalloc fails exactly if the product of its two arguments does not
  -- fit in 64 bits. Otherwise it is dmalloc of the exact product, with the bytes of the block set
  -- to zero if there is one.
  pub dcalloc-exact :
      (nmemb sz file line : ℕ) (h : Heap B)
      → 0 < nmemb
      → dcalloc allocator nmemb sz file line h
        ≡ Ending.returned (
            if leb word_mod (nmemb * sz)
            then (0, fail (nmemb * sz % word_mod) h)
            else (let (ptr, h') = dmalloc allocator (nmemb * sz) file line h in
                (
                  ptr,
                  (if ptr == 0
                      then h'
                      else record h' { memory = zeroed ptr (nmemb * sz) h'.memory }),
                )))
  unfolding dcalloc
  dcalloc-exact nmemb sz file line h pos = elim (Bool-cases (leb word_mod (nmemb * sz))) [
    | inl d ↦ rw (==_ne nmemb 0 (omega arith), exact_product nmemb sz pos, d) refl
    | inr d ↦
        let fits : nmemb * sz < word_mod = leb→lt word_mod (nmemb * sz) d in
        let e : nmemb * sz % word_mod ≡ nmemb * sz = omega arith in
        rw (==_ne nmemb 0 (omega arith), exact_product nmemb sz pos, d, e) refl
  ]

  returned_inj : {A : Type 0} (x y : A) → Ending.returned x ≡ Ending.returned y → x ≡ y
  returned_inj x y e = cc

  pub dcalloc-over :
      (nmemb sz file line p : ℕ) (h h' : Heap B)
      → 0 < nmemb
      → leb word_mod (nmemb * sz) ≡ true
      → dcalloc allocator nmemb sz file line h ≡ Ending.returned (p, h')
      → (0 ≡ p) × (fail (nmemb * sz % word_mod) h ≡ h')
  dcalloc-over nmemb sz file line p h h' pos d =
      rw (dcalloc-exact nmemb sz file line h pos, d)
        (λ r.
          let e : (0, fail (nmemb * sz % word_mod) h) ≡ (p, h') = returned_inj _ _ r in
          (λ i. (e i).0, λ i. (e i).1))

  pub dcalloc-fits :
      (nmemb sz file line p : ℕ) (h h' : Heap B)
      → 0 < nmemb
      → leb word_mod (nmemb * sz) ≡ false
      → dcalloc allocator nmemb sz file line h ≡ Ending.returned (p, h')
      → ((dmalloc allocator (nmemb * sz) file line h).0 ≡ p)
        × ((let (ptr, i) = dmalloc allocator (nmemb * sz) file line h in
              if ptr == 0 then i else record i { memory = zeroed ptr (nmemb * sz) i.memory })
            ≡ h')
  dcalloc-fits nmemb sz file line p h h' pos d =
      rw (dcalloc-exact nmemb sz file line h pos, d)
        (λ r.
          let e : (let (ptr, i) = dmalloc allocator (nmemb * sz) file line h in
                (
                  ptr,
                  (if ptr == 0 then i else record i { memory = zeroed ptr (nmemb * sz) i.memory }),
                ))
              ≡ (p, h') =
            returned_inj _ _ r in
          (λ i. (e i).0, λ i. (e i).1))
