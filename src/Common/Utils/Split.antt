-- ===== src/Common/Utils/Split.antt =====
-- What `split` of kvstore/common/utils.cpp returns.
use mathlib.Core.List.{append-nil, append_assoc}
use cs300_s23_projects_days.Prelude.{
  ℕ, ◌≡◌, refl, ◌≢◌, true, false, List, [], ◌∷◌, ◌++◌, Str, ◌==◌, if◌then◌else◌, All, arith,
  Bool-cases, inl, inr, ap, ◌∙◌,
}
use cs300_s23_projects_days.Common.Utils.{is_empty, push_item, split_loop, split}

-- The bytes of a string other than the delimiter.
abbrev pub strip : ℕ → Str → Str
strip delim [] = []
strip delim (c ∷ cs) = if c == delim then strip delim cs else c ∷ strip delim cs

abbrev pub concat : List Str → Str
concat [] = []
concat (t ∷ ts) = t ++ concat ts

-- Items written one after the other, each followed by the delimiter.
abbrev pub join : ℕ → List Str → Str
join delim [] = []
join delim (t ∷ ts) = t ++ delim ∷ join delim ts

-- An item: not empty, and without the delimiter.
pub record IsItem (delim : ℕ) (t : Str) : Type 0 where
  pub nonempty : is_empty t ≡ false
  pub clean : All (λ c. c ≢ delim) t

concat-push_item : (t : Str) (ts : List Str) → concat (push_item t ts) ≡ t ++ concat ts
unfolding push_item
concat-push_item [] ts = refl
concat-push_item (c ∷ cs) ts = refl

concat-split_loop : (d : ℕ) (item s : Str) → concat (split_loop d item s) ≡ item ++ strip d s
unfolding split_loop
concat-split_loop d item [] = concat-push_item item []
concat-split_loop d item (c ∷ cs) = elim (Bool-cases (c == d)) [
  | inl e ↦
      rw (e, split_loop)
        (concat-push_item item (split_loop d [] cs)
          ∙ ap (λ l. item ++ l) (concat-split_loop d [] cs))
  | inr e ↦
      rw (e, split_loop)
        (concat-split_loop d (item ++ c ∷ []) cs ∙ append_assoc item (c ∷ []) (strip d cs))
]

-- The items of a split string, one after the other, are the string without the delimiters.
pub concat-split : (s : Str) (d : ℕ) → concat (split s d) ≡ strip d s
unfolding split
concat-split s d = concat-split_loop d [] s

All-snoc : (d c : ℕ) (t : Str) → All (λ x. x ≢ d) t → c ≢ d → All (λ x. x ≢ d) (t ++ c ∷ [])
All-snoc d c [] h k = (k, tt)
All-snoc d c (x ∷ t) h k = (h.0, All-snoc d c t h.1 k)

push_item-All :
    (d : ℕ) (t : Str) (ts : List Str)
    → All (λ c. c ≢ d) t
    → All (IsItem d) ts
    → All (IsItem d) (push_item t ts)
unfolding push_item
push_item-All d [] ts h k = k
push_item-All d (c ∷ cs) ts h k = (record { nonempty = refl; clean = h }, k)

split_loop-All :
    (d : ℕ) (item s : Str) → All (λ c. c ≢ d) item → All (IsItem d) (split_loop d item s)
unfolding split_loop
split_loop-All d item [] h = push_item-All d item [] h tt
split_loop-All d item (c ∷ cs) h = elim (Bool-cases (c == d)) [
  | inl e ↦
      rw (e, split_loop) (push_item-All d item (split_loop d [] cs) h (split_loop-All d [] cs tt))
  | inr e ↦
      rw (e, split_loop)
        (split_loop-All d (item ++ c ∷ []) cs (All-snoc d c item h (λ p. ground arith)))
]

-- No item of a split string is empty or has the delimiter in it.
pub split-All : (s : Str) (d : ℕ) → All (IsItem d) (split s d)
unfolding split
split-All s d = split_loop-All d [] s tt

-- An item in front of a delimiter is read whole.
split_loop-item :
    (d : ℕ) (item t rest : Str)
    → All (λ c. c ≢ d) t
    → split_loop d item (t ++ d ∷ rest) ≡ push_item (item ++ t) (split_loop d [] rest)
unfolding split_loop
split_loop-item d item [] rest h =
    let e : d == d ≡ true = ground arith in rw (e, split_loop, append-nil)
split_loop-item d item (c ∷ t) rest h =
    let e : c == d ≡ false = ground (arith, h.0) in
    rw (e, split_loop)
      (split_loop-item d (item ++ c ∷ []) t rest h.1
        ∙ ap (λ l. push_item l (split_loop d [] rest)) (append_assoc item (c ∷ []) t))

push_item-nonempty : (t : Str) (ts : List Str) → is_empty t ≡ false → push_item t ts ≡ t ∷ ts
unfolding push_item
push_item-nonempty t ts h = rw h

-- Splitting items that are not empty and do not have the delimiter in them, each followed by the
-- delimiter, gives the items back.
pub split-join : (d : ℕ) (ts : List Str) → All (IsItem d) ts → split (join d ts) d ≡ ts
unfolding split split_loop
split-join d [] h = refl
split-join d (t ∷ ts) h =
    split_loop-item d [] t (join d ts) h.0.clean
    ∙ push_item-nonempty t (split_loop d [] (join d ts)) h.0.nonempty
    ∙ ap (λ l. t ∷ l) (split-join d ts h.1)

-- The items of a split string, one after the other, are the string without the delimiters, and no
-- item is empty or has the delimiter in it.
pub split_lem : (s : Str) (d : ℕ) → (concat (split s d) ≡ strip d s) × All (IsItem d) (split s d)
split_lem s d = (concat-split s d, split-All s d)
