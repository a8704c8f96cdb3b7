-- ===== src/Store/Simple/Refine.antt =====
-- simple_kvstore.cpp against the partial functions of Store.Spec.
pub mod Steps
use mathlib.Core.List.{append-nil, append_assoc}
use cs300_s23_projects_days.Prelude.{
  ◌≡◌, refl, Bool, true, false, none, some, List, [], ◌∷◌, ◌++◌, Str, str_eq_iff, length, arith,
  Option-cases, inl, inr, ◌&&◌, ◌∙◌, sym, ap, fun_ext, ==_self, ==_ne, ◌≢◌, subst,
}
use cs300_s23_projects_days.Run.{done, Act, pure, ◌>>◌, >>=-done}
use cs300_s23_projects_days.StdMap
use cs300_s23_projects_days.StdMap.{StdMap}
use cs300_s23_projects_days.StdMap.Laws.{
  find-put, find-erase, count-none, count-some, index-some, insert-none,
}
use cs300_s23_projects_days.Net.Commands.{
  GetRequest, PutRequest, AppendRequest, DeleteRequest, MultiGetRequest, MultiPutRequest,
  GetResponse, DeleteResponse, MultiGetResponse,
}
use cs300_s23_projects_days.Store.Spec.{View}
use cs300_s23_projects_days.Store.Spec
use cs300_s23_projects_days.Store.Simple.{
  SimpleKvStore, get, put, append, delete, multi_get, multi_put, all_keys, collect, write,
  write_all, unlock, reply_all,
}
use cs300_s23_projects_days.Store.Simple.Refine.Steps.{
  idle, get-none, get-some, append_step, delete-none, delete-some, held, view, put_all, put_step,
  multi_get_step, multi_put_step, put_all-view,
}

-- Between two calls the mutex is free and the map has the entries of f.
pub record Shows (f : View) (s : SimpleKvStore) : Type 0 where
  pub free : s.mutex_1 ≡ false
  pub views : (k : Str) → StdMap.find k s.key_value_map ≡ f k

-- An operation that takes the idle store to another keeps the promise.
ends :
    {A : Type 0} (op : Act SimpleKvStore A) (s : SimpleKvStore) (g : View) (a : A) (m : StdMap Str)
    → s.mutex_1 ≡ false
    → op (idle s.key_value_map) ≡ done (a, idle m)
    → ((k : Str) → StdMap.find k m ≡ g k)
    → Spec.Ends (op s) a (Shows g)
ends op s g a m free p v =
    let e : s ≡ idle s.key_value_map = ground arith in
    (idle m, ap op e ∙ p, record { free = refl; views = v })

module _ (f : View) (s : SimpleKvStore) (h : Shows f s) where
  -- Get answers the value of the key, or fails if there is none, and changes nothing.
  pub get_lem :
      (req : GetRequest) (res : GetResponse)
      → Spec.Ends (get req res s) (Spec.get_reply (f req.key) res) (Shows f)
  get_lem req res = elim (Option-cases (StdMap.find req.key s.key_value_map)) [
    | inl e ↦
        rw (sym (h.views req.key) ∙ e)
          (ends (get req res) s f _ s.key_value_map h.free (get-none _ req res e) h.views)
    | inr (v, e) ↦
        rw (sym (h.views req.key) ∙ e)
          (ends (get req res) s f _ s.key_value_map h.free (get-some _ req res e) h.views)
  ]

  -- Put succeeds, and the key has the value from then on.
  pub put_lem :
      (req : PutRequest) → Spec.Ends (put req s) true (Shows (Spec.write req.key req.value f))
  put_lem req =
      ends (put req) s _ true (StdMap.put req.key req.value s.key_value_map) h.free
        (put_step s.key_value_map req)
        (λ k. rw (find-put req.key k req.value s.key_value_map, h.views k))

  -- With the mutex free, Append succeeds and gives back the mutex. The new value of the key is
  -- the old one, if any, followed by the argument, and no other key changes.
  pub append_lem :
      (req : AppendRequest)
      → Spec.Ends
          (append req s)
          true
          (Shows (Spec.write req.key (Spec.appended req.value (f req.key)) f))
  append_lem req =
      ends (append req) s _ true _ h.free (append_step s.key_value_map req)
        (λ k. rw (find-put req.key k _ s.key_value_map, h.views k, h.views req.key))

  -- Delete answers the value that it removes, and fails without effect if there is none.
  pub delete_lem :
      (req : DeleteRequest) (res : DeleteResponse)
      → Spec.Ends
          (delete req res s)
          (Spec.delete_reply (f req.key) res)
          (Shows (Spec.remove req.key f))
  delete_lem req res = elim (Option-cases (StdMap.find req.key s.key_value_map)) [
    | inl e ↦ rw (sym (h.views req.key) ∙ e) (
        ends (delete req res) s _ _ s.key_value_map h.free (delete-none _ req res e)
          (λ k. ground (arith, h.views k, e, str_eq_iff req.key k)))
    | inr (v, e) ↦ rw (sym (h.views req.key) ∙ e) (
        ends (delete req res) s _ _ (StdMap.erase req.key s.key_value_map) h.free
          (delete-some _ req res e) (λ k. rw (find-erase req.key k s.key_value_map, h.views k)))
  ]

  -- With the mutex free, MultiGet succeeds exactly if every key has a value. In either case it
  -- adds to the response the values that there are, in the order of the keys, keeps what the
  -- store holds and gives back the mutex.
  pub multi_get_lem :
      (req : MultiGetRequest) (res : MultiGetResponse)
      → Spec.Ends
          (multi_get req res s)
          (Spec.all_present f req.keys, record { values = res.values ++ Spec.present f req.keys })
          (Shows f)
  multi_get_lem req res =
      subst
        (λ (g : View).
          Spec.Ends (multi_get req res s)
            (Spec.all_present g req.keys, record { values = res.values ++ Spec.present g req.keys })
            (Shows f))
        (fun_ext h.views)
        (ends (multi_get req res) s f _ s.key_value_map h.free
          (multi_get_step s.key_value_map req res) h.views)

  -- MultiPut writes the pairs in order, or fails without effect if the lengths differ.
  pub multi_put_lem :
      (req : MultiPutRequest)
      → length req.keys ≡ length req.values
      → Spec.Ends (multi_put req s) true (Shows (Spec.write_all req.keys req.values f))
  multi_put_lem req e =
      ends (multi_put req) s _ true (put_all req.keys req.values s.key_value_map) h.free
        (multi_put_step s.key_value_map req e)
        (put_all-view s.key_value_map f req.keys req.values h.views)

  pub multi_put-mismatch :
      (req : MultiPutRequest)
      → length req.keys ≢ length req.values
      → Spec.Ends (multi_put req s) false (Shows f)
  multi_put-mismatch req e =
      ends (multi_put req) s f false s.key_value_map h.free
        (unfold multi_put in rw (==_ne (length req.keys) (length req.values) e)) h.views

  -- AllKeys lists the keys of the map and changes nothing.
  pub all_keys_lem : Spec.Ends (all_keys s) (StdMap.keys s.key_value_map) (Shows f)
  all_keys_lem = ends all_keys s f _ s.key_value_map h.free (unfold all_keys in refl) h.views
