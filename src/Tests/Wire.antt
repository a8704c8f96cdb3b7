-- ===== src/Tests/Wire.antt =====
-- Tests of the messages of kvstore/net on a connection that takes and gives one byte at a time.
use cs300_s23_projects_days.Prelude.{
  ℕ, ◌<◌, ◌≤◌, ◌≡◌, refl, true, false, suc, some, List, [], ◌∷◌, ◌++◌, length, arith,
}
use cs300_s23_projects_days.Net.Wire.{
  Io, got, Socket, Packet, send_message, recv_message, send_part, recv_part, sendall, sendall_loop,
  recvall, recvall_loop, int_of, recv_buf, read_type, read_size,
}
use cs300_s23_projects_days.Net.Wire.Streams.{IsPipe}
use cs300_s23_projects_days.Net.Wire.RoundTrip.{recv_message-send_message}

slow_send : List ℕ → List ℕ → Io ℕ × List ℕ
slow_send [] s = (got 0, s)
slow_send (x ∷ xs) s = (got 1, s ++ x ∷ [])

slow_recv : ℕ → List ℕ → Io (List ℕ) × List ℕ
slow_recv n [] = (got [], [])
slow_recv n (x ∷ xs) = (got (x ∷ []), xs)

abbrev slow : Socket (List ℕ)
slow = record { send = slow_send; recv = slow_recv; late = λ s. false }

slow-receives :
    (n x : ℕ) (xs s : List ℕ)
    → s ≡ x ∷ xs
    → (ys : List ℕ) × (0 < length ys)
      × (length ys ≤ suc n)
      × ((slow_recv (suc n) s).0 ≡ got ys)
      × (s ≡ ys ++ (slow_recv (suc n) s).1)
unfolding slow_recv
slow-receives n x xs [] e = absurd (cc)
slow-receives n x xs (y ∷ ys) e = (y ∷ [], omega arith, omega arith, refl, refl)

slow-IsPipe : IsPipe slow (λ s. s)
unfolding slow_send
slow-IsPipe = record {
  on_time = λ s. refl;
  sends = λ x xs s. (1, omega arith, omega arith, refl, refl);
  receives = slow-receives;
}

abbrev hello : Packet
hello = record { type = 2; sz = 3; buf = 104 ∷ 105 ∷ 33 ∷ [] }

hello-arrives : (recv_message slow (send_message slow hello []).1).0 ≡ some (some hello)
unfolding send_message send_part sendall sendall_loop slow_send slow_recv recv_message recv_part
    recvall recvall_loop int_of recv_buf read_type read_size
hello-arrives = refl

recv_message-send_message_example :
    ((send_message slow hello []).0 ≡ some true)
    × ((recv_message slow (send_message slow hello []).1).0 ≡ some (some hello))
    × ((recv_message slow (send_message slow hello []).1).1 ≡ [])
recv_message-send_message_example =
    recv_message-send_message slow (λ s. s) slow-IsPipe hello [] refl (omega arith) (omega arith)
      refl
