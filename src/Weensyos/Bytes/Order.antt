-- ===== src/Weensyos/Bytes/Order.antt =====
-- The comparisons of weensyos/lib.cc against the lexicographic order of lists of bytes.
use Prim.Native.Nat.{compare, Ordering}
use cs300_s23_projects_days.Prelude.{
  ℕ, zero, suc, ◌+◌, ◌-◌, ◌<◌, ◌≡◌, refl, ap, ◌∙◌, some, List, [], ◌∷◌, map, length, take,
  length-map, take-map, ◌==◌, if◌then◌else◌, arith,
}
use cs300_s23_projects_days.Weensyos.Bytes.{
  Memory, memcmp, strcmp, strncmp, strcasecmp, strncasecmp, tolower, bytes, IsString,
}

-- The first byte that differs decides, and a list comes before the longer ones that it begins.
pub order : List ℕ → List ℕ → Ordering
order [] [] = Ordering.eq
order [] (y ∷ ys) = Ordering.lt
order (x ∷ xs) [] = Ordering.gt
order (x ∷ xs) (y ∷ ys) = if x == y then order xs ys else compare x y

pub memcmp-order : (a b n : ℕ) (m : Memory) → memcmp a b n m ≡ order (bytes a n m) (bytes b n m)
unfolding memcmp order
memcmp-order a b zero m = refl
memcmp-order a b (suc n) m = ground (arith, memcmp-order (a + 1) (b + 1) n m)

strcmp-order :
    (f a b : ℕ) (m : Memory) (xs ys : List ℕ)
    → IsString m a xs
    → IsString m b ys
    → length xs < f
    → strcmp f a b m ≡ some (order xs ys)
unfolding strcmp order
strcmp-order zero a b m xs ys p q l = absurd (omega arith)
strcmp-order (suc f) a b m [] [] p q l = ground arith
strcmp-order (suc f) a b m [] (y ∷ ys) p q l = ground arith
strcmp-order (suc f) a b m (x ∷ xs) [] p q l = ground arith
strcmp-order (suc f) a b m (x ∷ xs) (y ∷ ys) p q l =
    ground (arith, strcmp-order f (a + 1) (b + 1) m xs ys)

strncmp-order :
    (f a b n : ℕ) (m : Memory) (xs ys : List ℕ)
    → IsString m a xs
    → IsString m b ys
    → n < f
    → strncmp f a b n m ≡ some (order (take n xs) (take n ys))
unfolding strncmp order
strncmp-order zero a b n m xs ys p q l = absurd (omega arith)
strncmp-order (suc f) a b zero m xs ys p q l = refl
strncmp-order (suc f) a b (suc n) m [] [] p q l = ground arith
strncmp-order (suc f) a b (suc n) m [] (y ∷ ys) p q l = ground arith
strncmp-order (suc f) a b (suc n) m (x ∷ xs) [] p q l = ground arith
strncmp-order (suc f) a b (suc n) m (x ∷ xs) (y ∷ ys) p q l =
    let ih = strncmp-order f (a + 1) (b + 1) n m xs ys p.2 q.2 (omega arith) in
    let one : suc n - 1 ≡ n = omega arith in rw (one) (ground (arith, ih))

-- Letters in either case are read as small letters.
abbrev pub lowered : Memory → Memory
lowered m a = tolower (m a)

strcasecmp-strcmp : (f a b : ℕ) (m : Memory) → strcasecmp f a b m ≡ strcmp f a b (lowered m)
unfolding strcasecmp strcmp
strcasecmp-strcmp zero a b m = refl
strcasecmp-strcmp (suc f) a b m = rw (strcasecmp-strcmp f (a + 1) (b + 1) m) refl

strncasecmp-strncmp :
    (f a b n : ℕ) (m : Memory) → strncasecmp f a b n m ≡ strncmp f a b n (lowered m)
unfolding strncasecmp strncmp
strncasecmp-strncmp zero a b n m = refl
strncasecmp-strncmp (suc f) a b n m = rw (strncasecmp-strncmp f (a + 1) (b + 1) (n - 1) m) refl

tolower_pos : (c : ℕ) → 0 < c → 0 < tolower c
unfolding tolower
tolower_pos c h = ground arith

tolower_zero : tolower 0 ≡ 0
unfolding tolower
tolower_zero = refl

lowered-IsString :
    (m : Memory) (a : ℕ) (xs : List ℕ) → IsString m a xs → IsString (lowered m) a (map tolower xs)
lowered-IsString m a [] h = ap tolower h ∙ tolower_zero
lowered-IsString m a (x ∷ xs) h =
    (ap tolower h.0, tolower_pos x h.1, lowered-IsString m (a + 1) xs h.2)

module _ (f a b n : ℕ) (m : Memory) (xs ys : List ℕ) (p : IsString m a xs) (q : IsString m b ys)
    (long : length xs < f) (bound : n < f) where
  -- For two strings with a NUL at the end, and with fuel above the length of the first one and
  -- the count: strcmp, strncmp, strcasecmp and strncasecmp end, and their results are the
  -- lexicographic order of the strings, of the parts that the count leaves, and of the same with
  -- small letters for capitals.
  pub comparisons-order :
      (strcmp f a b m ≡ some (order xs ys))
      × (strncmp f a b n m ≡ some (order (take n xs) (take n ys)))
      × (strcasecmp f a b m ≡ some (order (map tolower xs) (map tolower ys)))
      × (strncasecmp f a b n m ≡ some (order (map tolower (take n xs)) (map tolower (take n ys))))
  comparisons-order =
      let p' = lowered-IsString m a xs p in
      let q' = lowered-IsString m b ys q in
      (
        strcmp-order f a b m xs ys p q long,
        strncmp-order f a b n m xs ys p q bound,
        strcasecmp-strcmp f a b m
            ∙ strcmp-order f a b (lowered m) (map tolower xs) (map tolower ys) p' q'
                (omega (arith, length-map xs tolower)),
        strncasecmp-strncmp f a b n m
            ∙ strncmp-order f a b n (lowered m) (map tolower xs) (map tolower ys) p' q' bound
            ∙ rw (take-map n xs tolower, take-map n ys tolower) refl,
      )
