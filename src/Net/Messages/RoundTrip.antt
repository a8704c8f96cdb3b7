-- ===== src/Net/Messages/RoundTrip.antt =====
-- kvstore/net/network_messages.cpp: serialize followed by deserialize.
use cs300_s23_projects_days.Prelude.{ℕ, ◌≡◌, refl, ◌∙◌, Option, some, List, length}
use cs300_s23_projects_days.Net.Commands.{Request, Response}
use cs300_s23_projects_days.Net.Messages.{
  MessageType, Message, Outcome, Codec, RequestCodecs, ResponseCodecs, framed, encoded, wrapped,
  decoded, serialize_request, deserialize_request, serialize_response, deserialize_response,
}

-- A codec that can write every struct, and reads back what it writes.
abbrev pub Faithful : {A : Type 0} → Codec A → Type 0
Faithful {A} codec =
    (x : A) → (bytes : List ℕ) × (codec.out x ≡ some bytes) × (codec.in_ bytes ≡ some x)

pub record RequestsFaithful (codecs : RequestCodecs) : Type 0 where
  pub join : Faithful codecs.join
  pub leave : Faithful codecs.leave
  pub move : Faithful codecs.move
  pub query : Faithful codecs.query
  pub get : Faithful codecs.get
  pub put : Faithful codecs.put
  pub append : Faithful codecs.append
  pub delete : Faithful codecs.delete
  pub multi_get : Faithful codecs.multi_get
  pub multi_put : Faithful codecs.multi_put

pub record ResponsesFaithful (codecs : ResponseCodecs) : Type 0 where
  pub join : Faithful codecs.join
  pub leave : Faithful codecs.leave
  pub move : Faithful codecs.move
  pub query : Faithful codecs.query
  pub get : Faithful codecs.get
  pub put : Faithful codecs.put
  pub append : Faithful codecs.append
  pub delete : Faithful codecs.delete
  pub multi_get : Faithful codecs.multi_get
  pub multi_put : Faithful codecs.multi_put
  pub error : Faithful codecs.error

-- The cases of serialize and deserialize for one struct fit together.
case_fits :
    {A R : Type 0} (type : MessageType) (wrap : A → R) (codec : Codec A) (x : A)
    → (de : Message → Outcome (Option R))
    → ((n : Message) → n.type ≡ type → de n ≡ decoded wrap codec n.buf)
    → Faithful codec
    → (m : Message) × (encoded type codec x ≡ some m)
      × (m.sz ≡ length m.buf)
      × (de m ≡ Outcome.returned (some (wrap x)))
unfolding encoded framed decoded wrapped
case_fits type wrap codec x de agrees faithful =
    let (bytes, o, i) = faithful x in
    (record { type = type; sz = length bytes; buf = bytes }, rw (o), refl, agrees _ refl ∙ rw (i))

module _ (codecs : RequestCodecs) (faithful : RequestsFaithful codecs) where
  -- With a serializer that can write every struct and reads back what it writes,
  -- serialize_request succeeds on every request. The size of the message is that of its buffer,
  -- and deserialize_request returns the request.
  pub deserialize_request-serialize_request :
      (x : Request)
      → (m : Message) × (serialize_request codecs x ≡ some m)
        × (m.sz ≡ length m.buf)
        × (deserialize_request codecs m ≡ Outcome.returned (some x))
  unfolding serialize_request deserialize_request
  deserialize_request-serialize_request (Request.join y) =
      case_fits MessageType.join Request.join codecs.join y (deserialize_request codecs)
        (λ n e. rw (e)) faithful.join
  deserialize_request-serialize_request (Request.leave y) =
      case_fits MessageType.leave Request.leave codecs.leave y (deserialize_request codecs)
        (λ n e. rw (e)) faithful.leave
  deserialize_request-serialize_request (Request.move y) =
      case_fits MessageType.move Request.move codecs.move y (deserialize_request codecs)
        (λ n e. rw (e)) faithful.move
  deserialize_request-serialize_request Request.query =
      case_fits MessageType.query (λ u. Request.query) codecs.query tt (deserialize_request codecs)
        (λ n e. rw (e)) faithful.query
  deserialize_request-serialize_request (Request.get y) =
      case_fits MessageType.get Request.get codecs.get y (deserialize_request codecs)
        (λ n e. rw (e)) faithful.get
  deserialize_request-serialize_request (Request.put y) =
      case_fits MessageType.put Request.put codecs.put y (deserialize_request codecs)
        (λ n e. rw (e)) faithful.put
  deserialize_request-serialize_request (Request.append y) =
      case_fits MessageType.append Request.append codecs.append y (deserialize_request codecs)
        (λ n e. rw (e)) faithful.append
  deserialize_request-serialize_request (Request.delete y) =
      case_fits MessageType.delete Request.delete codecs.delete y (deserialize_request codecs)
        (λ n e. rw (e)) faithful.delete
  deserialize_request-serialize_request (Request.multi_get y) =
      case_fits MessageType.multi_get Request.multi_get codecs.multi_get y
        (deserialize_request codecs) (λ n e. rw (e)) faithful.multi_get
  deserialize_request-serialize_request (Request.multi_put y) =
      case_fits MessageType.multi_put Request.multi_put codecs.multi_put y
        (deserialize_request codecs) (λ n e. rw (e)) faithful.multi_put

module _ (codecs : ResponseCodecs) (faithful : ResponsesFaithful codecs) where
  -- With a serializer that can write every struct and reads back what it writes,
  -- serialize_response succeeds on every response. The size of the message is that of its buffer,
  -- and deserialize_response returns the response.
  pub deserialize_response-serialize_response :
      (x : Response)
      → (m : Message) × (serialize_response codecs x ≡ some m)
        × (m.sz ≡ length m.buf)
        × (deserialize_response codecs m ≡ Outcome.returned (some x))
  unfolding serialize_response deserialize_response
  deserialize_response-serialize_response Response.join =
      case_fits MessageType.join (λ u. Response.join) codecs.join tt (deserialize_response codecs)
        (λ n e. rw (e)) faithful.join
  deserialize_response-serialize_response Response.leave =
      case_fits MessageType.leave (λ u. Response.leave) codecs.leave tt
        (deserialize_response codecs) (λ n e. rw (e)) faithful.leave
  deserialize_response-serialize_response Response.move =
      case_fits MessageType.move (λ u. Response.move) codecs.move tt (deserialize_response codecs)
        (λ n e. rw (e)) faithful.move
  deserialize_response-serialize_response (Response.query y) =
      case_fits MessageType.query Response.query codecs.query y (deserialize_response codecs)
        (λ n e. rw (e)) faithful.query
  deserialize_response-serialize_response (Response.get y) =
      case_fits MessageType.get Response.get codecs.get y (deserialize_response codecs)
        (λ n e. rw (e)) faithful.get
  deserialize_response-serialize_response Response.put =
      case_fits MessageType.put (λ u. Response.put) codecs.put tt (deserialize_response codecs)
        (λ n e. rw (e)) faithful.put
  deserialize_response-serialize_response Response.append =
      case_fits MessageType.append (λ u. Response.append) codecs.append tt
        (deserialize_response codecs) (λ n e. rw (e)) faithful.append
  deserialize_response-serialize_response (Response.delete y) =
      case_fits MessageType.delete Response.delete codecs.delete y (deserialize_response codecs)
        (λ n e. rw (e)) faithful.delete
  deserialize_response-serialize_response (Response.multi_get y) =
      case_fits MessageType.multi_get Response.multi_get codecs.multi_get y
        (deserialize_response codecs) (λ n e. rw (e)) faithful.multi_get
  deserialize_response-serialize_response Response.multi_put =
      case_fits MessageType.multi_put (λ u. Response.multi_put) codecs.multi_put tt
        (deserialize_response codecs) (λ n e. rw (e)) faithful.multi_put
  deserialize_response-serialize_response (Response.error y) =
      case_fits MessageType.error Response.error codecs.error y (deserialize_response codecs)
        (λ n e. rw (e)) faithful.error
