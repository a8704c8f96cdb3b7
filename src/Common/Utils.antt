-- ===== src/Common/Utils.antt =====
-- kvstore/common/utils.cpp: splitting, digits and letter case.
pub mod Split
use cs300_s23_projects_days.Prelude.{
  ℕ, ◌+◌, ◌-◌, Bool, true, false, ◌&&◌, List, [], ◌∷◌, ◌++◌, map, Str, leb, ◌==◌, if◌then◌else◌,
  not,
}

-- s.empty()
unfoldable pub is_empty : Str → Bool
is_empty [] = true
is_empty (c ∷ cs) = false

-- if (!item.empty()) res.push_back(item);
push_item : Str → List Str → List Str
unfolding is_empty
push_item item res = if is_empty item then res else item ∷ res

-- The loop over `std::getline`: `item` holds the bytes read since the last delimiter. At the end of
-- the stream what was read is the last item.
split_loop : ℕ → Str → Str → List Str
unfolding push_item
split_loop delim item [] = push_item item []
split_loop delim item (c ∷ cs) = elim (c == delim) [
  | true ↦ push_item item (split_loop delim [] cs)
  | false ↦ split_loop delim (item ++ c ∷ []) cs
]

unfoldable pub split : Str → ℕ → List Str
unfolding split_loop
split s delim = split_loop delim [] s

-- std::isdigit
abbrev pub isdigit : ℕ → Bool
isdigit c = leb b'0' c && leb c b'9'

-- std::accumulate(s.cbegin(), s.cend(), true, ...)
all_digits : Bool → Str → Bool
all_digits a [] = a
all_digits a (c ∷ cs) = all_digits (a && isdigit c) cs

unfoldable pub is_number : Str → Bool
unfolding all_digits is_empty
is_number s = not (is_empty s) && all_digits true s

-- std::toupper and std::tolower in the C locale.
unfoldable pub toupper : ℕ → ℕ
toupper c = if leb b'a' c && leb c b'z' then c - 32 else c

pub tolower : ℕ → ℕ
tolower c = if leb b'A' c && leb c b'Z' then c + 32 else c

unfoldable pub to_upper : Str → Str
unfolding toupper
to_upper s = map toupper s

pub to_lower : Str → Str
unfolding tolower
to_lower s = map tolower s
