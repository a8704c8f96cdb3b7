-- ===== src/Client/Sharded/Groups.antt =====
-- kvstore/client/shardkv_client.cpp: how MultiGet divides the keys among the servers.
use mathlib.Core.List.{append-nil, append_assoc}
use cs300_s23_projects_days.Prelude.{
  ◌≡◌, refl, sym, ap, ◌∙◌, Bool, true, false, ◌&&◌, Option, none, some, List, [], ◌∷◌, ◌++◌, Str,
  str_eq, str_eq_iff, if◌then◌else◌, Bool-cases, Option-cases, inl, inr,
}
use cs300_s23_projects_days.StdMap.{StdMap, find}
use cs300_s23_projects_days.StdMap.Laws.{find-put, index-none, index-some}
use cs300_s23_projects_days.Common.Config.{ShardmasterConfig, get_server}
use cs300_s23_projects_days.Common.Config.Responsible.{AllEqualSizes, get_server-Answer}
use cs300_s23_projects_days.Client.Sharded.{push_back, add_key, group_keys}

-- The keys in the group of a server.
abbrev pub group : Option (List Str) → List Str
group none = []
group (some keys) = keys

abbrev pub keys_at : Str → StdMap (List Str) → List Str
keys_at server m = group (find server m)

-- The keys that get_server gives to a server, in order, and whether every key has a server.
abbrev pub is_at : Option (Option Str) → Str → Bool
is_at none server = false
is_at (some none) server = false
is_at (some (some s)) server = str_eq s server

abbrev pub has_server : Option (Option Str) → Bool
has_server (some (some s)) = true
has_server other = false

abbrev pub keys_for : ShardmasterConfig → Str → List Str → List Str
keys_for config server [] = []
keys_for config server (key ∷ keys) =
    let rest = keys_for config server keys in
    if is_at (get_server config key) server then key ∷ rest else rest

abbrev pub all_have_server : ShardmasterConfig → List Str → Bool
all_have_server config [] = true
all_have_server config (key ∷ keys) =
    has_server (get_server config key) && all_have_server config keys

push_back-keys_at :
    (s key j : Str) (m : StdMap (List Str))
    → keys_at j (push_back s key m) ≡ keys_at j m ++ (if str_eq s j then key ∷ [] else [])
unfolding push_back
push_back-keys_at s key j m = elim (Bool-cases (str_eq s j)) [
  | inl d ↦
      let same : s ≡ j = (str_eq_iff s j).0 d in
      elim (Option-cases (find s m)) [
        | inl e ↦
            let at_j : find j m ≡ none = rw⁻¹ same e in
            rw (index-none s m [] e, find-put, d, at_j) refl
        | inr (ks, e) ↦
            let at_j : find j m ≡ some ks = rw⁻¹ same e in
            rw (index-some s m [] e, find-put, d, at_j) refl
      ]
  | inr d ↦ elim (Option-cases (find s m)) [
    | inl e ↦ rw (index-none s m [] e, find-put, find-put, d) (sym (append-nil _))
    | inr (ks, e) ↦ rw (index-some s m [] e, find-put, d) (sym (append-nil _))
  ]
]

add_key-keys_at :
    (r : Option Str) (key j : Str) (valid : Bool) (m : StdMap (List Str))
    → keys_at j (add_key r key (valid, m)).1
      ≡ keys_at j m ++ (if is_at (some r) j then key ∷ [] else [])
unfolding add_key
add_key-keys_at none key j valid m = sym (append-nil _)
add_key-keys_at (some s) key j valid m = push_back-keys_at s key j m

add_key-valid :
    (r : Option Str) (key : Str) (valid : Bool) (m : StdMap (List Str))
    → (add_key r key (valid, m)).0 ≡ (valid && has_server (some r))
unfolding add_key
add_key-valid none key true m = refl
add_key-valid none key false m = refl
add_key-valid (some s) key true m = refl
add_key-valid (some s) key false m = refl

front :
    (b : Bool) (key : Str) (start rest : List Str)
    → (start ++ (if b then key ∷ [] else [])) ++ rest ≡ start ++ (if b then key ∷ rest else rest)
front true key start rest = append_assoc start (key ∷ []) rest
front false key start rest = ap (λ l. l ++ rest) (append-nil start)

and_assoc : (a b c : Bool) → ((a && b) && c) ≡ (a && (b && c))
and_assoc true b c = refl
and_assoc false b c = refl

group_keys-step :
    (config : ShardmasterConfig) (key : Str) (keys : List Str) (groups : Bool × StdMap (List Str))
    → {r : Option Str} → get_server config key ≡ some r
    → group_keys config (key ∷ keys) groups ≡ group_keys config keys (add_key r key groups)
unfolding group_keys
group_keys-step config key keys groups e = rw (e, group_keys)

module _ (config : ShardmasterConfig) (equal : AllEqualSizes config.servers) where
  group_keys-from :
      (keys : List Str) (valid : Bool) (m : StdMap (List Str))
      → (groups : Bool × StdMap (List Str)) × (group_keys config keys (valid, m) ≡ some groups)
        × (groups.0 ≡ (valid && all_have_server config keys))
        × ((server : Str)
            → keys_at server groups.1 ≡ keys_at server m ++ keys_for config server keys)
  unfolding group_keys
  group_keys-from [] true m = ((true, m), refl, refl, λ j. sym (append-nil _))
  group_keys-from [] false m = ((false, m), refl, refl, λ j. sym (append-nil _))
  group_keys-from (key ∷ keys) valid m =
      let (r, e, _) = get_server-Answer config key equal in
      let (v, m') = add_key r key (valid, m) in
      let (groups, g, ok, at) = group_keys-from keys v m' in
      (
        groups,
        group_keys-step config key keys (valid, m) e ∙ g,
        ok
            ∙ ap (λ b. b && all_have_server config keys) (add_key-valid r key valid m)
            ∙ rw (e) (and_assoc valid (has_server (some r)) (all_have_server config keys)),
        λ j.
            at j
            ∙ ap (λ l. l ++ keys_for config j keys) (add_key-keys_at r key j valid m)
            ∙ rw (e) (front (is_at (some r) j) key (keys_at j m) (keys_for config j keys)),
      )

  -- If the bounds of each shard of the configuration have one length, the loop of the sharded
  -- client's MultiGet over the keys ends. It finds a key without a server exactly if there is
  -- one, and gives to each server the keys that get_server assigns to it, in their order.
  pub group_keys-keys_for :
      (keys : List Str)
      → (valid : Bool) × (server_keys : StdMap (List Str)) × (group_keys config keys (true, [])
          ≡ some (valid, server_keys))
        × (valid ≡ all_have_server config keys)
        × ((server : Str) → keys_at server server_keys ≡ keys_for config server keys)
  unfolding find
  group_keys-keys_for keys =
      let (groups, g, ok, at) = group_keys-from keys true [] in (groups.0, groups.1, g, ok, at)
