-- ===== src/Store/Spec.antt =====
-- What a key-value store promises: a partial function from keys to values.
use cs300_s23_projects_days.Prelude.{
  ◌≡◌, refl, Bool, true, false, Option, none, some, List, [], ◌∷◌, ◌++◌, Str, str_eq, if◌then◌else◌,
  arith,
}
use cs300_s23_projects_days.Run.{Run, done}
use cs300_s23_projects_days.Net.Commands.{GetResponse, DeleteResponse}

abbrev pub View : Type 0
View = Str → Option Str

abbrev pub write : Str → Str → View → View
write k v f j = if str_eq k j then some v else f j

abbrev pub remove : Str → View → View
remove k f j = if str_eq k j then none else f j

-- The value after an append.
abbrev pub appended : Str → Option Str → Str
appended v none = v
appended v (some old) = old ++ v

-- The values of all the keys in order, or nothing if one is missing.
abbrev pub lookup_all : View → List Str → Option (List Str)
lookup_all f [] = some []
lookup_all f (k ∷ ks) = elim (f k) [
  | none ↦ none
  | some v ↦ elim (lookup_all f ks) [ none ↦ none | some vs ↦ some (v ∷ vs) ]
]

abbrev pub write_all : List Str → List Str → View → View
write_all [] vs f = f
write_all (k ∷ ks) [] f = f
write_all (k ∷ ks) (v ∷ vs) f = write_all ks vs (write k v f)

-- The values that are there, and whether all are.
abbrev pub present : View → List Str → List Str
present f [] = []
present f (k ∷ ks) = elim (f k) [ none ↦ present f ks | some v ↦ v ∷ present f ks ]

abbrev pub all_present : View → List Str → Bool
all_present f [] = true
all_present f (k ∷ ks) = elim (f k) [ none ↦ false | some v ↦ all_present f ks ]

-- The values up to the first key that is missing.
abbrev pub leading : View → List Str → List Str
leading f [] = []
leading f (k ∷ ks) = elim (f k) [ none ↦ [] | some v ↦ v ∷ leading f ks ]

module _ (f : View) (k : Str) (ks : List Str) where
  pub all_present-none : f k ≡ none → all_present f (k ∷ ks) ≡ false
  all_present-none e = ground (arith, e)

  pub all_present-some : {v : Str} → f k ≡ some v → all_present f (k ∷ ks) ≡ all_present f ks
  all_present-some e = ground (arith, e)

  pub leading-none : f k ≡ none → leading f (k ∷ ks) ≡ []
  leading-none e = ground (arith, e)

  pub leading-some : {v : Str} → f k ≡ some v → leading f (k ∷ ks) ≡ v ∷ leading f ks
  leading-some e = ground (arith, e)

  pub present-none : f k ≡ none → present f (k ∷ ks) ≡ present f ks
  present-none e = ground (arith, e)

  pub present-some : {v : Str} → f k ≡ some v → present f (k ∷ ks) ≡ v ∷ present f ks
  present-some e = ground (arith, e)

pub leading-present :
    (f : View) (ks : List Str) → all_present f ks ≡ true → leading f ks ≡ present f ks
leading-present f [] h = refl
leading-present f (k ∷ ks) h = ground (arith, leading-present f ks)

-- The replies of Get and Delete, given the value of the key.
abbrev pub get_reply : Option Str → GetResponse → Bool × GetResponse
get_reply none res = (false, res)
get_reply (some v) res = (true, record { value = v })

abbrev pub delete_reply : Option Str → DeleteResponse → Bool × DeleteResponse
delete_reply none res = (false, res)
delete_reply (some v) res = (true, record { value = v })

-- A run that ends with the result a, in a state that satisfies P.
abbrev pub Ends : {A S : Type 0} → Run (A × S) → A → (S → Type 0) → Type 0
Ends {S = S} r a P = (s' : S) × (r ≡ done (a, s')) × P s'
