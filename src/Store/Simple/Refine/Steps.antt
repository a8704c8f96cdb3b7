-- ===== src/Store/Simple/Refine/Steps.antt =====
-- The methods of simple_kvstore.cpp as steps on the map.
use mathlib.Core.List.{append-nil, append_assoc}
use cs300_s23_projects_days.Prelude.{
  ◌≡◌, refl, Bool, true, false, none, some, List, [], ◌∷◌, ◌++◌, Str, length, arith, Option-cases,
  inl, inr, ◌&&◌, ◌∙◌, ==_self,
}
use cs300_s23_projects_days.Run.{done, pure, ◌>>◌, >>=-done}
use cs300_s23_projects_days.StdMap
use cs300_s23_projects_days.StdMap.{StdMap}
use cs300_s23_projects_days.StdMap.Laws.{find-put, count-none, count-some, index-some, insert-none}
use cs300_s23_projects_days.Net.Commands.{
  GetRequest, PutRequest, AppendRequest, DeleteRequest, MultiGetRequest, MultiPutRequest,
  GetResponse, DeleteResponse, MultiGetResponse,
}
use cs300_s23_projects_days.Store.Spec.{View}
use cs300_s23_projects_days.Store.Spec
use cs300_s23_projects_days.Store.Simple.{
  SimpleKvStore, get, put, append, delete, multi_get, multi_put, collect, write, write_all, unlock,
  reply_all,
}

-- The store between two calls: the mutex is free.
abbrev pub idle : StdMap Str → SimpleKvStore
idle m = record { key_value_map = m; mutex_1 = false }

module _ (m : StdMap Str) where
  pub get-none :
      (req : GetRequest) (res : GetResponse)
      → StdMap.find req.key m ≡ none
      → get req res (idle m) ≡ done ((false, res), idle m)
  unfolding get
  get-none req res e = rw (count-none req.key m e)

  pub get-some :
      (req : GetRequest) (res : GetResponse) {v : Str}
      → StdMap.find req.key m ≡ some v
      → get req res (idle m) ≡ done ((true, record { value = v }), idle m)
  unfolding get
  get-some req res e = rw (count-some req.key m e, index-some req.key m [] e)

  pub append_step :
      (req : AppendRequest)
      → append req (idle m)
        ≡ done (true, idle (StdMap.put req.key (Spec.appended req.value (StdMap.find req.key m)) m))
  unfolding append
  append_step req = elim (Option-cases (StdMap.find req.key m)) [
    | inl e ↦ rw (e, count-none req.key m e, insert-none req.key m req.value e)
    | inr (w, e) ↦ rw (e, count-some req.key m e, index-some req.key m [] e)
  ]

  pub delete-none :
      (req : DeleteRequest) (res : DeleteResponse)
      → StdMap.find req.key m ≡ none
      → delete req res (idle m) ≡ done ((false, res), idle m)
  unfolding delete
  delete-none req res e = rw (count-none req.key m e)

  pub delete-some :
      (req : DeleteRequest) (res : DeleteResponse) {v : Str}
      → StdMap.find req.key m ≡ some v
      → delete req res (idle m) ≡ done ((true, record { value = v }), idle (StdMap.erase req.key m))
  unfolding delete
  delete-some req res e = rw (count-some req.key m e, index-some req.key m [] e)

-- The loops run while the mutex is held.
abbrev pub held : StdMap Str → SimpleKvStore
held m = record { key_value_map = m; mutex_1 = true }

abbrev pub view : StdMap Str → View
view m k = StdMap.find k m

collect_lem :
    (m : StdMap Str) (keys : List Str) (ok : Bool) (values : List Str)
    → collect keys ok values (held m)
      ≡ done ((ok && Spec.all_present (view m) keys, values ++ Spec.present (view m) keys), held m)
unfolding collect
collect_lem m [] ok values = ground (arith, append-nil values)
collect_lem m (k ∷ ks) ok values = elim (Option-cases (StdMap.find k m)) [
  | inl e ↦
      rw
        (count-none k m e, Spec.all_present-none (view m) k ks e, Spec.present-none (view m) k ks e)
        (collect_lem m ks false values ∙ ground arith)
  | inr (v, e) ↦
      rw
        (
          count-some k m e,
          index-some k m [] e,
          Spec.all_present-some (view m) k ks e,
          Spec.present-some (view m) k ks e,
        )
        (collect_lem m ks ok (values ++ v ∷ [])
          ∙ rw (append_assoc values (v ∷ []) (Spec.present (view m) ks)))
]

write_lem : (m : StdMap Str) (k v : Str) → write k v (held m) ≡ done (tt, held (StdMap.put k v m))
unfolding write
write_lem m k v = elim (Option-cases (StdMap.find k m)) [
  | inl e ↦ rw (count-none k m e, insert-none k m v e)
  | inr (w, e) ↦ rw (count-some k m e)
]

abbrev pub put_all : List Str → List Str → StdMap Str → StdMap Str
put_all [] vs m = m
put_all (k ∷ ks) [] m = m
put_all (k ∷ ks) (v ∷ vs) m = put_all ks vs (StdMap.put k v m)

write_all_lem :
    (m : StdMap Str) (ks vs : List Str)
    → length ks ≡ length vs
    → write_all ks vs (held m) ≡ done (tt, held (put_all ks vs m))
unfolding write_all
write_all_lem m [] vs h = refl
write_all_lem m (k ∷ ks) [] h = absurd (omega arith)
write_all_lem m (k ∷ ks) (v ∷ vs) h =
    >>=-done (write k v) (λ _. write_all ks vs) (held m) (write_lem m k v)
    ∙ write_all_lem (StdMap.put k v m) ks vs (omega arith)

pub put_all-view :
    (m : StdMap Str) (f : View) (ks vs : List Str)
    → ((j : Str) → StdMap.find j m ≡ f j)
    → (j : Str) → StdMap.find j (put_all ks vs m) ≡ Spec.write_all ks vs f j
put_all-view m f [] vs h j = h j
put_all-view m f (k ∷ ks) [] h j = h j
put_all-view m f (k ∷ ks) (v ∷ vs) h j =
    put_all-view (StdMap.put k v m) (Spec.write k v f) ks vs (λ i. rw (find-put k i v m, h i)) j

reply_all_lem :
    (m : StdMap Str) (b : Bool) (values : List Str)
    → reply_all b values (held m) ≡ done ((b, record { values = values }), idle m)
unfolding reply_all
reply_all_lem m false values = refl
reply_all_lem m true values = refl

pub multi_get_step :
    (m : StdMap Str) (req : MultiGetRequest) (res : MultiGetResponse)
    → multi_get req res (idle m)
      ≡ done (
        (
          Spec.all_present (view m) req.keys,
          record { values = res.values ++ Spec.present (view m) req.keys },
        ),
        idle m,
      )
unfolding multi_get
multi_get_step m req res =
    >>=-done (collect req.keys true res.values) (λ (if_get, values). reply_all if_get values)
      (held m) (collect_lem m req.keys true res.values)
    ∙ reply_all_lem m (Spec.all_present (view m) req.keys)
        (res.values ++ Spec.present (view m) req.keys)

pub put_step :
    (m : StdMap Str) (req : PutRequest)
    → put req (idle m) ≡ done (true, idle (StdMap.put req.key req.value m))
unfolding put
put_step m req =
    >>=-done (write req.key req.value) (λ _. do unlock; pure true) (held m)
      (write_lem m req.key req.value)

pub multi_put_step :
    (m : StdMap Str) (req : MultiPutRequest)
    → length req.keys ≡ length req.values
    → multi_put req (idle m) ≡ done (true, idle (put_all req.keys req.values m))
unfolding multi_put
multi_put_step m req e =
    rw (e, ==_self (length req.values))
      (>>=-done (write_all req.keys req.values) (λ _. do unlock; pure true) (held m)
        (write_all_lem m req.keys req.values e))
