-- ===== src/Net/Wire/RoundTrip.antt =====
-- recv_message of kvstore/net/network_messages.cpp reads what send_message writes.
use mathlib.Core.List.{append-nil, append_assoc}
use cs300_s23_projects_days.Prelude.{
  ℕ, ◌%◌, ◌^◌, ◌<◌, ◌≡◌, refl, sym, ap, ◌∙◌, subst, Bool, true, false, Option, some, List, [], ◌∷◌,
  ◌++◌, length, ◌==◌, arith, Bool-cases, ==_ne, ==_self, lt→ltb, inl, inr,
}
use cs300_s23_projects_days.Net.Wire.{
  Socket, Packet, type_bytes, size_bytes, read_type, read_size, sendall, recvall, send_part,
  recv_part, and_then, with_bytes, all_sent, int_of, sent_int, received_int, if_int, all_received,
  send_message, recv_buf, recv_message,
}
use cs300_s23_projects_days.Net.Wire.Streams.{IsPipe, sendall_loop-sends, recvall_loop-receives}

read_type-type_bytes : (t : ℕ) → t < 2 ^ 32 → read_type (type_bytes t) ≡ t
unfolding read_type
read_type-type_bytes t l = omega arith

read_size-size_bytes : (sz : ℕ) → read_size (size_bytes sz) ≡ sz % 2 ^ 32
unfolding read_size
read_size-size_bytes sz = omega arith

int_of-small : (n : ℕ) → n < 2 ^ 31 → int_of n ≡ some n
unfolding int_of
int_of-small n small = let e : n % 2 ^ 32 ≡ n = omega arith in rw (e, lt→ltb n (2 ^ 31) small) refl

module _ {S : Type 0} (socket : Socket S) (bytes : S → List ℕ) (pipe : IsPipe socket bytes) where
  sendall-sends :
      (timed : Bool) (xs : List ℕ) (s : S)
      → length xs < 2 ^ 31
      → ((sendall socket timed xs s).0 ≡ some (length xs))
        × (bytes (sendall socket timed xs s).1 ≡ bytes s ++ xs)
  unfolding sendall
  sendall-sends timed xs s small =
      let (count, way) =
        sendall_loop-sends socket bytes pipe (length xs) timed xs 0 s (omega arith) in
      (ap sent_int (count ∙ ap some (omega arith)) ∙ int_of-small (length xs) small, way)

  send_part-sends :
      (timed : Bool) (xs : List ℕ) (s : S)
      → length xs < 2 ^ 31
      → ((send_part socket timed xs s).0 ≡ some true)
        × (bytes (send_part socket timed xs s).1 ≡ bytes s ++ xs)
  unfolding send_part
  send_part-sends timed xs s small =
      let (count, way) = sendall-sends timed xs s small in
      (ap (all_sent (length xs)) count ∙ rw (==_self (length xs)) refl, way)

  recvall-receives :
      (timed : Bool) (xs rest : List ℕ) (s : S)
      → length xs < 2 ^ 31
      → bytes s ≡ xs ++ rest
      → ((recvall socket timed (length xs) s).0 ≡ some xs)
        × (bytes (recvall socket timed (length xs) s).1 ≡ rest)
  unfolding recvall
  recvall-receives timed xs rest s small e =
      let (all, way) =
        recvall_loop-receives socket bytes pipe (length xs) timed xs rest [] s (omega arith) e in
      (ap received_int all ∙ ap (λ n. if_int n xs) (int_of-small (length xs) small), way)

  recv_part-receives :
      (timed : Bool) (n : ℕ) (xs rest : List ℕ) (s : S)
      → 0 < n
      → n < 2 ^ 31
      → length xs ≡ n
      → bytes s ≡ xs ++ rest
      → ((recv_part socket timed n s).0 ≡ some (some xs))
        × (bytes (recv_part socket timed n s).1 ≡ rest)
  unfolding recv_part
  recv_part-receives timed n xs rest s pos small size e =
      let (all, way) =
        subst
          (λ m.
            ((recvall socket timed m s).0 ≡ some xs) × (bytes (recvall socket timed m s).1 ≡ rest))
          size (recvall-receives timed xs rest s (omega (arith, size)) e) in
      (ap (all_received n) all ∙ rw (size, ==_ne n 0 (omega arith), ==_self n) refl, way)

  -- A step after one that succeeded.
  and_then-true :
      (r : Option Bool × S) (f : S → Option Bool × S) → r.0 ≡ some true → and_then r f ≡ f r.1
  and_then-true (a, s) f e = rw (e) refl

  with_bytes-some :
      (r : Option (Option (List ℕ)) × S) (xs : List ℕ) (f : List ℕ → S → Option (Option Packet) × S)
      → r.0 ≡ some (some xs)
      → with_bytes r f ≡ f xs r.1
  with_bytes-some (a, s) xs f e = rw (e) refl

  -- The bytes of a message.
  abbrev pub frame : Packet → List ℕ
  frame msg = type_bytes msg.type ++ (size_bytes msg.sz ++ msg.buf)

  empty_buf : (xs : List ℕ) → length xs ≡ 0 → xs ≡ []
  empty_buf [] e = refl
  empty_buf (x ∷ xs) e = absurd (omega arith)

  send_message-sends :
      (msg : Packet) (s : S)
      → msg.sz ≡ length msg.buf
      → msg.sz < 2 ^ 31
      → ((send_message socket msg s).0 ≡ some true)
        × (bytes (send_message socket msg s).1 ≡ bytes s ++ frame msg)
  unfolding send_message
  send_message-sends msg s fits small =
      let (ok1, way1) = send_part-sends false (type_bytes msg.type) s (omega arith) in
      let s1 = (send_part socket false (type_bytes msg.type) s).1 in
      let (ok2, way2) = send_part-sends false (size_bytes msg.sz) s1 (omega arith) in
      let s2 = (send_part socket false (size_bytes msg.sz) s1).1 in
      let (ok3, way3) = send_part-sends true msg.buf s2 (omega (arith, fits)) in
      let right : (msg.sz == length msg.buf) ≡ true = rw (fits) (==_self (length msg.buf)) in
      let way : bytes s2 ++ msg.buf ≡ bytes s ++ frame msg =
        ap (λ l. l ++ msg.buf) (way2 ∙ ap (λ l. l ++ size_bytes msg.sz) way1)
        ∙ append_assoc (bytes s ++ type_bytes msg.type) (size_bytes msg.sz) msg.buf
        ∙ append_assoc (bytes s) (type_bytes msg.type) (size_bytes msg.sz ++ msg.buf) in
      rw
        (
          right,
          and_then-true (send_part socket false (type_bytes msg.type) s) _ ok1,
          and_then-true (send_part socket false (size_bytes msg.sz) s1) _ ok2,
        )
        (elim (Bool-cases (msg.sz == 0)) [
          | inl d ↦
              let none_left : msg.buf ≡ [] = empty_buf msg.buf (ground (arith, fits)) in
              rw (d)
                (refl, sym (append-nil (bytes s2)) ∙ ap (λ l. bytes s2 ++ l) (sym none_left) ∙ way)
          | inr d ↦ rw (d) (ok3, way3 ∙ way)
        ])

  recv_message-receives :
      (msg : Packet) (s : S)
      → msg.sz ≡ length msg.buf
      → msg.sz < 2 ^ 31
      → msg.type < 2 ^ 32
      → bytes s ≡ frame msg
      → ((recv_message socket s).0 ≡ some (some msg)) × (bytes (recv_message socket s).1 ≡ [])
  unfolding recv_message recv_buf
  recv_message-receives msg s fits small type_small e =
      let (ok1, way1) =
        recv_part-receives false 4 (type_bytes msg.type) (size_bytes msg.sz ++ msg.buf) s
          (omega arith) (omega arith) refl e in
      let s1 = (recv_part socket false 4 s).1 in
      let (ok2, way2) =
        recv_part-receives false 8 (size_bytes msg.sz) msg.buf s1 (omega arith) (omega arith) refl
          way1 in
      let s2 = (recv_part socket false 8 s1).1 in
      let size : read_size (size_bytes msg.sz) ≡ msg.sz =
        read_size-size_bytes msg.sz ∙ omega arith in
      rw
        (
          with_bytes-some (recv_part socket false 4 s) _ _ ok1,
          with_bytes-some (recv_part socket false 8 s1) _ _ ok2,
          read_type-type_bytes msg.type type_small,
          size,
        )
        (elim (Bool-cases (msg.sz == 0)) [
          | inl d ↦
              let none_left : msg.buf ≡ [] = empty_buf msg.buf (ground (arith, fits)) in
              rw (d)
                (ap (λ l. some (some (record msg { buf = l }))) (sym none_left), way2 ∙ none_left)
          | inr d ↦
              let pos : 0 < msg.sz = ground arith in
              let (ok3, way3) =
                recv_part-receives true msg.sz msg.buf [] s2 pos small (sym fits)
                  (way2 ∙ sym (append-nil msg.buf)) in
              rw (d, with_bytes-some (recv_part socket true msg.sz s2) msg.buf _ ok3) (refl, way3)
        ])

  -- On a connection that takes and gives bytes in parts of any size, is not broken, meets no
  -- timeout and has nothing on its way: send_message of a message whose size is that of its
  -- buffer and below 2^31, and whose type has four bytes, succeeds. recv_message then returns the
  -- same message, and no byte is left.
  pub recv_message-send_message :
      (msg : Packet) (s : S)
      → msg.sz ≡ length msg.buf
      → msg.sz < 2 ^ 31
      → msg.type < 2 ^ 32
      → bytes s ≡ []
      → ((send_message socket msg s).0 ≡ some true)
        × ((recv_message socket (send_message socket msg s).1).0 ≡ some (some msg))
        × (bytes (recv_message socket (send_message socket msg s).1).1 ≡ [])
  recv_message-send_message msg s fits small type_small e =
      let (sent, way) = send_message-sends msg s fits small in
      let (same, done) =
        recv_message-receives msg (send_message socket msg s).1 fits small type_small
          (way ∙ ap (λ l. l ++ frame msg) e) in
      (sent, same, done)
