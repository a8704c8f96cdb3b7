-- ===== src/Dmalloc/Base/Back.antt =====
-- base_free of dmalloc/basealloc.cc keeps the blocks apart.
use cs300_s23_projects_days.Prelude.{
  ℕ, zero, suc, ◌<◌, ◌≡◌, ◌≢◌, ◌⊎◌, inl, inr, refl, sym, ap, ◌∙◌, subst, none, some, List, [], ◌∷◌,
  ◌++◌, length, get_elem?, ◌==◌, arith, Bool-cases,
}
use cs300_s23_projects_days.Dmalloc.Pointers.{
  PointerMap, find, erase, IsSorted, erase-IsSorted, find-erase,
}
use cs300_s23_projects_days.Dmalloc.Base.{Malloc, BaseState}
use cs300_s23_projects_days.Dmalloc.Base.Regions.{some_same, IsApart, IsMalloc}
use cs300_s23_projects_days.Dmalloc.Base.Stages.{Good}

turned : (f g : ℕ × ℕ) → IsApart f g → IsApart g f
turned (s, z) (t, w) (ne, inl a) = (λ c. ne (sym c), inr a)
turned (s, z) (t, w) (ne, inr a) = (λ c. ne (sym c), inl a)

pub none-some : {A : Type 0} {x : A} → none ≡ some x → ⊥
none-some e = cc

get-snoc :
    (fs : List (ℕ × ℕ)) (f g : ℕ × ℕ) (j : ℕ)
    → get_elem? (fs ++ f ∷ []) j ≡ some g
    → ((j ≡ length fs) × (f ≡ g)) ⊎ ((j < length fs) × (get_elem? fs j ≡ some g))
get-snoc [] f g zero e = inl (refl, some_same f g e)
get-snoc [] f g (suc j) e = absurd (cc)
get-snoc (h ∷ fs) f g zero e = inr (omega arith, e)
get-snoc (h ∷ fs) f g (suc j) e = elim (get-snoc fs f g j e) [
  | inl (a, c) ↦ inl (omega arith, c)
  | inr (a, c) ↦ inr (omega arith, c)
]

erased :
    (ptr s z : ℕ) (m : PointerMap)
    → IsSorted m
    → find s (erase ptr m) ≡ some z
    → (ptr ≢ s) × (find s m ≡ some z)
erased ptr s z m sorted e = elim (Bool-cases (ptr == s)) [
  | inl d ↦ absurd (none-some (sym (find-erase ptr s m sorted ∙ rw (d) refl) ∙ e))
  | inr d ↦ (λ c. ground arith, sym (find-erase ptr s m sorted ∙ rw (d) refl) ∙ e)
]

module _ {M : Type 0} (os : Malloc M) (IsGiven : M → ℕ → ℕ → Type 0)
    (works : IsMalloc os IsGiven) where
  -- A block goes to frees.
  pub freed-IsGood :
      (b : BaseState M) (ptr size : ℕ)
      → Good os IsGiven works b
      → find ptr b.allocs ≡ some size
      → Good os IsGiven works
          (record b { frees = b.frees ++ (ptr, size) ∷ []; allocs = erase ptr b.allocs })
  freed-IsGood b ptr size i here =
      let old : (s z : ℕ)
          → find s (erase ptr b.allocs) ≡ some z
          → (ptr ≢ s) × (find s b.allocs ≡ some z) =
        λ s z e. erased ptr s z b.allocs i.sorted e in
      record {
        enabled = i.enabled;
        sorted = erase-IsSorted ptr b.allocs i.sorted;
        allocs_region = λ s z e. i.allocs_region s z (old s z e).1;
        frees_region = λ j s z e. elim (get-snoc b.frees (ptr, size) (s, z) j e) [
          | inl (a, c) ↦ rw⁻¹ (ap (λ f. f.0) c, ap (λ f. f.1) c) (i.allocs_region ptr size here)
          | inr (a, c) ↦ i.frees_region j s z c
        ];
        allocs_apart = λ s z t w e f. i.allocs_apart s z t w (old s z e).1 (old t w f).1;
        both_apart = λ s z j g e f.
            let (ne, e') = old s z e in
            elim (get-snoc b.frees (ptr, size) g j f) [
              | inl (a, c) ↦
                  subst (IsApart (s, z)) c
                    (λ x. ne (sym x), i.allocs_apart s z ptr size e' here (λ x. ne (sym x)))
              | inr (a, c) ↦ i.both_apart s z j g e' c
            ];
        frees_apart = λ j l f g e e' ne. elim (get-snoc b.frees (ptr, size) f j e) [
          | inl (a, c) ↦ elim (get-snoc b.frees (ptr, size) g l e') [
            | inl (a', c') ↦ absurd (ne (a ∙ sym a'))
            | inr (a', c') ↦ subst (λ x. IsApart x g) c (i.both_apart ptr size l g here c')
          ]
          | inr (a, c) ↦ elim (get-snoc b.frees (ptr, size) g l e') [
            | inl (a', c') ↦
                subst (IsApart f) c' (turned (ptr, size) f (i.both_apart ptr size j f here c))
            | inr (a', c') ↦ i.frees_apart j l f g c c' ne
          ]
        ];
      }
