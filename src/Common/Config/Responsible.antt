-- ===== src/Common/Config/Responsible.antt =====
-- What get_server of kvstore/common/config.cpp finds.
use cs300_s23_projects_days.Prelude.{
  ◌≡◌, ◌⊎◌, inl, inr, Bool, true, false, Option, none, some, List, [], ◌∷◌, Str, All, arith,
  Option-cases, length, ◌≢◌,
}
use cs300_s23_projects_days.Common.Utils.{to_upper}
use cs300_s23_projects_days.Common.Shard.{Shard, contains}
use cs300_s23_projects_days.Common.Config.{
  ServerConfig, ShardmasterConfig, any_contains, find_server, get_server,
}

-- Some shard of the list contains the key.
abbrev pub HasOne : List Shard → Str → Type 0
HasOne [] key = ⊥
HasOne (s ∷ rest) key = (contains s key ≡ some true) ⊎ HasOne rest key

-- No shard of the list does.
abbrev pub Lacks : List Shard → Str → Type 0
Lacks shards key = All (λ s. contains s key ≡ some false) shards

-- The named server is the first one with a shard that contains the key.
abbrev pub FirstHolder : List ServerConfig → Str → Str → Type 0
FirstHolder [] key name = ⊥
FirstHolder (sc ∷ rest) key name =
    (HasOne sc.shards key × (sc.server ≡ name)) ⊎ (Lacks sc.shards key × FirstHolder rest key name)

-- What a result says of the servers.
abbrev pub Answer : List ServerConfig → Str → Option Str → Type 0
Answer servers key (some name) = FirstHolder servers key name
Answer servers key none = All (λ sc. Lacks sc.shards key) servers

abbrev Verdict : List Shard → Str → Bool → Type 0
Verdict shards key true = HasOne shards key
Verdict shards key false = Lacks shards key

module _ (s : Shard) (rest : List Shard) (key : Str) where
  any_contains-step :
      (found b : Bool)
      → contains s key ≡ some found
      → any_contains (s ∷ rest) key ≡ some b
      → ((c : Bool) → any_contains rest key ≡ some c → Verdict rest key c)
      → Verdict (s ∷ rest) key b
  unfolding any_contains
  any_contains-step true true p e ih = inl p
  any_contains-step true false p e ih = absurd (ground arith)
  any_contains-step false true p e ih = inr (ih true (ground arith))
  any_contains-step false false p e ih = (p, ih false (ground arith))

any_contains-Verdict :
    (shards : List Shard) (key : Str) (b : Bool)
    → any_contains shards key ≡ some b
    → Verdict shards key b
unfolding any_contains
any_contains-Verdict [] key true e = absurd (cc)
any_contains-Verdict [] key false e = tt
any_contains-Verdict (s ∷ rest) key b e = elim (Option-cases (contains s key)) [
  | inl p ↦ absurd (ground arith)
  | inr (found, p) ↦
      any_contains-step s rest key found b p e (λ c q. any_contains-Verdict rest key c q)
]

module _ (sc : ServerConfig) (rest : List ServerConfig) (key : Str) where
  find_server-step :
      (found : Bool) (r : Option Str)
      → any_contains sc.shards key ≡ some found
      → find_server (sc ∷ rest) key ≡ some r
      → ((q : Option Str) → find_server rest key ≡ some q → Answer rest key q)
      → Answer (sc ∷ rest) key r
  unfolding find_server
  find_server-step true none p e ih = absurd (ground arith)
  find_server-step true (some name) p e ih =
      inl (any_contains-Verdict sc.shards key true p, ground arith)
  find_server-step false none p e ih =
      (any_contains-Verdict sc.shards key false p, ih none (ground arith))
  find_server-step false (some name) p e ih =
      inr (any_contains-Verdict sc.shards key false p, ih (some name) (ground arith))

find_server-Answer :
    (servers : List ServerConfig) (key : Str) (r : Option Str)
    → find_server servers key ≡ some r
    → Answer servers key r
unfolding find_server
find_server-Answer [] key none e = tt
find_server-Answer [] key (some name) e = absurd (cc)
find_server-Answer (sc ∷ rest) key r e = elim (Option-cases (any_contains sc.shards key)) [
  | inl p ↦ absurd (ground arith)
  | inr (found, p) ↦
      find_server-step sc rest key found r p e (λ q h. find_server-Answer rest key q h)
]

-- Every shard passes the assertion of `granularity`: its bounds have one length.
abbrev pub AllEqualSizes : List ServerConfig → Type 0
AllEqualSizes = All (λ sc. All (λ (s : Shard). length s.lower ≡ length s.upper) sc.shards)

any_contains-total :
    (shards : List Shard) (key : Str)
    → All (λ (s : Shard). length s.lower ≡ length s.upper) shards
    → any_contains shards key ≢ none
unfolding any_contains contains
any_contains-total [] key h = λ e. cc
any_contains-total (s ∷ rest) key h = ground (arith, any_contains-total rest key h.1)

find_server-total :
    (servers : List ServerConfig) (key : Str)
    → AllEqualSizes servers
    → find_server servers key ≢ none
unfolding find_server
find_server-total [] key h = λ e. cc
find_server-total (sc ∷ rest) key h =
    ground (arith, any_contains-total sc.shards key h.0, find_server-total rest key h.1)

-- If the bounds of each shard have one length, get_server returns. The answer is the first server
-- with a shard that contains the key in upper case, and empty only if no shard contains it.
pub get_server-Answer :
    (config : ShardmasterConfig) (key : Str)
    → AllEqualSizes config.servers
    → (r : Option Str) × (get_server config key ≡ some r) × Answer config.servers (to_upper key) r
unfolding get_server
get_server-Answer config key h = elim (Option-cases (find_server config.servers (to_upper key))) [
  | inl e ↦ absurd (find_server-total config.servers (to_upper key) h e)
  | inr (r, e) ↦ (r, e, find_server-Answer config.servers (to_upper key) r e)
]
