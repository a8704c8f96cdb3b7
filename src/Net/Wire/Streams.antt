-- ===== src/Net/Wire/Streams.antt =====
-- sendall and recvall of kvstore/net/network_helpers.cpp move all bytes over a connection that
-- takes and gives them in parts of any size.
use mathlib.Core.List.{append-nil, append_assoc}
use cs300_s23_projects_days.Prelude.{
  ℕ, zero, suc, ◌+◌, ◌-◌, ◌≤◌, ◌<◌, ◌≡◌, refl, sym, ap, ◌∙◌, Bool, true, false, ◌&&◌, some, List,
  [], ◌∷◌, ◌++◌, length, take, drop, length-append, arith, ==_ne, ap₂,
}
use cs300_s23_projects_days.Net.Wire.{got, Socket, sendall_loop, recvall_loop}

-- A connection that is not broken: bytes are the bytes on their way. send takes at least one byte,
-- and recv gives at least one if there is one.
pub record IsPipe {S : Type 0} (socket : Socket S) (bytes : S → List ℕ) : Type 0 where
  pub on_time : (s : S) → socket.late s ≡ false
  pub sends :
      (x : ℕ) (xs : List ℕ) (s : S)
      → (n : ℕ) × (0 < n)
        × (n ≤ length (x ∷ xs))
        × ((socket.send (x ∷ xs) s).0 ≡ got n)
        × (bytes (socket.send (x ∷ xs) s).1 ≡ bytes s ++ take n (x ∷ xs))
  pub receives :
      (n x : ℕ) (xs : List ℕ) (s : S)
      → bytes s ≡ x ∷ xs
      → (ys : List ℕ) × (0 < length ys)
        × (length ys ≤ suc n)
        × ((socket.recv (suc n) s).0 ≡ got ys)
        × (bytes s ≡ ys ++ bytes (socket.recv (suc n) s).1)

take-drop : (k : ℕ) (xs : List ℕ) → take k xs ++ drop k xs ≡ xs
take-drop zero xs = refl
take-drop (suc k) [] = refl
take-drop (suc k) (x ∷ xs) = ap (λ l. x ∷ l) (take-drop k xs)

length-drop : (k : ℕ) (xs : List ℕ) → k ≤ length xs → k + length (drop k xs) ≡ length xs
length-drop zero xs l = omega arith
length-drop (suc k) [] l = absurd (omega arith)
length-drop (suc k) (x ∷ xs) l = omega (arith, length-drop k xs (omega arith))

head_same : (y x : ℕ) (ys xs : List ℕ) → y ∷ ys ≡ x ∷ xs → x ≡ y
head_same y x ys xs e = cc

tail_same : (y x : ℕ) (ys xs : List ℕ) → y ∷ ys ≡ x ∷ xs → ys ≡ xs
tail_same y x ys xs e = cc

-- A front that is not longer than another one of the same list.
front :
    (ys after xs rest : List ℕ)
    → length ys ≤ length xs
    → ys ++ after ≡ xs ++ rest
    → (zs : List ℕ) × (xs ≡ ys ++ zs) × (after ≡ zs ++ rest)
front [] after xs rest le e = (xs, refl, e)
front (y ∷ ys) after [] rest le e = absurd (omega arith)
front (y ∷ ys) after (x ∷ xs) rest le e =
    let (zs, a, b) = front ys after xs rest (omega arith) (tail_same y x _ _ e) in
    (zs, ap₂ (λ h t. h ∷ t) (head_same y x _ _ e) a, b)

module _ {S : Type 0} (socket : Socket S) (bytes : S → List ℕ) (pipe : IsPipe socket bytes) where
  timed_out : (timed : Bool) (s : S) → (timed && socket.late s) ≡ false
  timed_out false s = refl
  timed_out true s = pipe.on_time s

  pub sendall_loop-sends :
      (fuel : ℕ) (timed : Bool) (xs : List ℕ) (sent : ℕ) (s : S)
      → length xs ≤ fuel
      → ((sendall_loop socket fuel timed xs sent s).0 ≡ some (sent + length xs))
        × (bytes (sendall_loop socket fuel timed xs sent s).1 ≡ bytes s ++ xs)
  unfolding sendall_loop
  sendall_loop-sends fuel timed [] sent s le = (ap some (omega arith), sym (append-nil (bytes s)))
  sendall_loop-sends zero timed (x ∷ xs) sent s le = absurd (omega arith)
  sendall_loop-sends (suc fuel) timed (x ∷ xs) sent s le =
      let (n, pos, small, e, b) = pipe.sends x xs s in
      let left = length-drop n (x ∷ xs) small in
      let (count, way) =
        sendall_loop-sends fuel timed (drop n (x ∷ xs)) (sent + n) (socket.send (x ∷ xs) s).1
          (omega arith) in
      rw (timed_out timed s, e, ==_ne n 0 (omega arith))
        (
          count ∙ ap some (omega arith),
          way
              ∙ ap (λ l. l ++ drop n (x ∷ xs)) b
              ∙ append_assoc (bytes s) (take n (x ∷ xs)) (drop n (x ∷ xs))
              ∙ ap (λ l. bytes s ++ l) (take-drop n (x ∷ xs)),
        )

  pub recvall_loop-receives :
      (fuel : ℕ) (timed : Bool) (xs rest have : List ℕ) (s : S)
      → length xs ≤ fuel
      → bytes s ≡ xs ++ rest
      → ((recvall_loop socket fuel timed (length xs) have s).0 ≡ some (have ++ xs))
        × (bytes (recvall_loop socket fuel timed (length xs) have s).1 ≡ rest)
  unfolding recvall_loop
  recvall_loop-receives fuel timed [] rest have s le e = (ap some (sym (append-nil have)), e)
  recvall_loop-receives zero timed (x ∷ xs) rest have s le e = absurd (omega arith)
  recvall_loop-receives (suc fuel) timed (x ∷ xs) rest have s le e =
      let (ys, pos, small, r, b) = pipe.receives (length xs) x (xs ++ rest) s e in
      let after = (socket.recv (suc (length xs)) s).1 in
      let (zs, split, tail) = front ys (bytes after) (x ∷ xs) rest (omega arith) (sym b ∙ e) in
      let left : suc (length xs) - length ys ≡ length zs =
        omega (arith, ap length split, length-append ys zs) in
      let (got_all, done) =
        recvall_loop-receives fuel timed zs rest (have ++ ys) after (omega arith) tail in
      rw (timed_out timed s, r, ==_ne (length ys) 0 (omega arith), left)
        (got_all ∙ ap some (append_assoc have ys zs ∙ ap (λ l. have ++ l) (sym split)), done)
