-- ===== src/Net/Wire.antt =====
-- sendall and recvall of kvstore/net/network_helpers.cpp, and send_message and recv_message of
-- network_messages.cpp, over the system calls send and recv. A machine has its low bytes first; the
-- type of a message is its number. A failed assertion is none.
pub mod Streams
pub mod RoundTrip
use cs300_s23_projects_days.Prelude.{
  ℕ, zero, suc, ◌+◌, ◌-◌, ◌*◌, ◌/◌, ◌%◌, ◌^◌, Bool, true, false, not, ◌&&◌, Option, none, some,
  List, [], ◌∷◌, ◌++◌, length, take, drop, ◌==◌, if◌then◌else◌, ltb,
}

-- A result of send or recv that is not negative, or one that is.
pub data Io (A : Type 0) : Type 0 where
  got : A → Io A
  failed : Io A

-- send and recv on one connection, which answer the number of bytes taken and the bytes read; late
-- tells whether the timeout is over.
pub record Socket (S : Type 0) : Type 0 where
  pub send : List ℕ → S → Io ℕ × S
  pub recv : ℕ → S → Io (List ℕ) × S
  pub late : S → Bool

pub record Packet : Type 0 where
  pub type : ℕ
  pub sz : ℕ
  pub buf : List ℕ

-- The bytes of the type, of four bytes.
abbrev pub type_bytes : ℕ → List ℕ
type_bytes t = t % 256 ∷ t / 256 % 256 ∷ t / 65536 % 256 ∷ t / 16777216 % 256 ∷ []

-- The bytes of `size_t size_nbo = htonl(sz)`.
abbrev pub size_bytes : ℕ → List ℕ
size_bytes sz =
    sz / 16777216 % 256 ∷ sz / 65536 % 256 ∷ sz / 256 % 256 ∷ sz % 256 ∷ 0 ∷ 0 ∷ 0 ∷ 0 ∷ []

-- The type from its four bytes.
unfoldable pub read_type : List ℕ → ℕ
read_type (a ∷ b ∷ c ∷ d ∷ rest) = a + 256 * b + 65536 * c + 16777216 * d
read_type bytes = 0

-- ntohl of the size from its eight bytes.
unfoldable pub read_size : List ℕ → ℕ
read_size (a ∷ b ∷ c ∷ d ∷ rest) = 16777216 * a + 65536 * b + 256 * c + d
read_size bytes = 0

-- The tests of curr in send_message: a negative one is an error, and a part of the bytes fails the
-- assertion.
abbrev pub all_sent : ℕ → Option ℕ → Option Bool
all_sent size none = some false
all_sent size (some curr) = if curr == size then some true else none

-- Those in recv_message: 0 is the end of the connection.
abbrev pub all_received : ℕ → Option (List ℕ) → Option (Option (List ℕ))
all_received size none = some none
all_received size (some bytes) =
    if length bytes == 0
    then some none
    else if length bytes == size
    then some (some bytes)
    else none

-- What follows a call that succeeded.
abbrev pub and_then : {S : Type 0} → Option Bool × S → (S → Option Bool × S) → Option Bool × S
and_then (none, s) f = (none, s)
and_then (some false, s) f = (some false, s)
and_then (some true, s) f = f s

abbrev pub with_bytes :
    {S : Type 0}
    → Option (Option (List ℕ)) × S
    → (List ℕ → S → Option (Option Packet) × S)
    → Option (Option Packet) × S
with_bytes (none, s) f = (none, s)
with_bytes (some none, s) f = (some none, s)
with_bytes (some (some bytes), s) f = f bytes s

-- A size_t as an int; none is a negative one.
unfoldable pub int_of : ℕ → Option ℕ
int_of n = let m = n % 2 ^ 32 in if ltb m (2 ^ 31) then some m else none

-- The int that sendall returns.
abbrev pub sent_int : Option ℕ → Option ℕ
sent_int none = none
sent_int (some n) = int_of n

abbrev pub if_int : Option ℕ → List ℕ → Option (List ℕ)
if_int none bytes = none
if_int (some n) bytes = some bytes

-- The bytes that recvall has stored, if the int that it returns for them is not negative; the
-- number of the bytes is below 2 ^ 32 here.
abbrev pub received_int : Option (List ℕ) → Option (List ℕ)
received_int none = none
received_int (some bytes) = if_int (int_of (length bytes)) bytes

module _ {S : Type 0} (socket : Socket S) where
  -- The loop of sendall, with the bytes that are left and the number of those sent.
  unfoldable pub sendall_loop : ℕ → Bool → List ℕ → ℕ → S → Option ℕ × S
  sendall_loop fuel timed [] sent s = (some sent, s)
  sendall_loop zero timed (x ∷ xs) sent s = (none, s)
  sendall_loop (suc fuel) timed (x ∷ xs) sent s =
      let (curr, s') = socket.send (x ∷ xs) s in
      if timed && socket.late s then (none, s) else elim curr [
        | failed ↦ (none, s')
        | got n ↦
            let rest = sendall_loop fuel timed (drop n (x ∷ xs)) (sent + n) s' in
            if n == 0 then (some 0, s') else rest
      ]

  unfoldable pub sendall : Bool → List ℕ → S → Option ℕ × S
  sendall timed bytes s =
      let (sent, s') = sendall_loop (length bytes) timed bytes 0 s in (sent_int sent, s')

  -- The loop of recvall, with the number of bytes that are left and those received.
  unfoldable pub recvall_loop : ℕ → Bool → ℕ → List ℕ → S → Option (List ℕ) × S
  recvall_loop fuel timed zero bytes s = (some bytes, s)
  recvall_loop zero timed (suc left) bytes s = (none, s)
  recvall_loop (suc fuel) timed (suc left) bytes s =
      let (curr, s') = socket.recv (suc left) s in
      if timed && socket.late s then (none, s) else elim curr [
        | failed ↦ (none, s')
        | got more ↦
            let rest = recvall_loop fuel timed (suc left - length more) (bytes ++ more) s' in
            if length more == 0 then (some [], s') else rest
      ]

  unfoldable pub recvall : Bool → ℕ → S → Option (List ℕ) × S
  recvall timed n s =
      let (received, s') = recvall_loop n timed n [] s in (received_int received, s')

  -- The calls of sendall in send_message.
  unfoldable pub send_part : Bool → List ℕ → S → Option Bool × S
  send_part timed bytes s =
      let (curr, s') = sendall timed bytes s in (all_sent (length bytes) curr, s')

  unfoldable pub send_message : Packet → S → Option Bool × S
  send_message msg s =
      if not (msg.sz == length msg.buf)
      then (none, s)
      else and_then (send_part false (type_bytes msg.type) s) (λ s'.
        and_then (send_part false (size_bytes msg.sz) s')
          (λ s''. if msg.sz == 0 then (some true, s'') else send_part true msg.buf s''))

  -- The calls of recvall in recv_message.
  unfoldable pub recv_part : Bool → ℕ → S → Option (Option (List ℕ)) × S
  recv_part timed n s = let (curr, s') = recvall timed n s in (all_received n curr, s')

  -- The last part of recv_message, with the type and the size.
  unfoldable pub recv_buf : ℕ → ℕ → S → Option (Option Packet) × S
  recv_buf type sz s =
      if sz == 0
      then (some (some (record { type = type; sz = sz; buf = [] })), s)
      else with_bytes (recv_part true sz s)
          (λ bytes s'. (some (some (record { type = type; sz = sz; buf = bytes })), s'))

  unfoldable pub recv_message : S → Option (Option Packet) × S
  recv_message s = with_bytes (recv_part false 4 s) (λ type_part s'.
      with_bytes (recv_part false 8 s')
        (λ size_part s''. recv_buf (read_type type_part) (read_size size_part) s''))
