-- ===== src/Run.antt =====
-- Methods that lock: a state in, a result and a state out. A thread that waits for a lock which
-- nobody will release is `blocked`; `undefined` is undefined behaviour (an unlock of a lock that the
-- thread does not hold).
use cs300_s23_projects_days.Prelude.{◌≡◌}

pub data Run {ℓ} (A : Type ℓ) : Type ℓ where
  done : A → Run A
  blocked : Run A
  undefined : Run A

abbrev pub Act : Type 0 → Type 0 → Type 0
Act S A = S → Run (A × S)

abbrev pub pure : {S A : Type 0} → A → Act S A
pure a s = done (a, s)

infixl 5 ◌>>=◌ ◌>>◌
abbrev pub ◌>>=◌ : {S A B : Type 0} → Act S A → (A → Act S B) → Act S B
◌>>=◌ m f s = elim (m s) [ done (a, s') ↦ f a s' | blocked ↦ blocked | undefined ↦ undefined ]

abbrev pub ◌>>◌ : {S A B : Type 0} → Act S A → Act S B → Act S B
m >> n = m >>= λ _. n

-- A step that reads or writes the state and cannot block.
abbrev pub modify : {S A : Type 0} → (S → A × S) → Act S A
modify f s = done (f s)

-- A step that ends hands its result and its state to the rest.
pub >>=-done :
    {S A B : Type 0} (m : Act S A) (f : A → Act S B) (s : S) {s' : S} {a : A}
    → m s ≡ done (a, s')
    → (m >>= f) s ≡ f a s'
>>=-done m f s e = rw (e, ◌>>=◌)
