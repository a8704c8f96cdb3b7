-- ===== src/Tests/Codecs.antt =====
-- Parts of a concrete serializer for the structs of kvstore/net, which the tests use in place of zpp::bits:
-- parts of a struct are framed, each byte of a part moved up by one and 0 after the part.
use cs300_s23_projects_days.Prelude.{
  ℕ, zero, suc, ◌≡◌, refl, sym, ap, ◌∙◌, Option, none, some, List, [], ◌∷◌, ◌++◌, Str, ◌>>=◌,
}
use mathlib.Core.List.{append-nil, append_assoc}
use cs300_s23_projects_days.Net.Messages.{Codec}
use cs300_s23_projects_days.Net.Messages.RoundTrip.{Faithful}

abbrev frame : List ℕ → List ℕ → List ℕ
frame [] rest = 0 ∷ rest
frame (c ∷ cs) rest = suc c ∷ frame cs rest

abbrev frames : List (List ℕ) → List ℕ
frames [] = []
frames (part ∷ parts) = frame part (frames parts)

abbrev parts_from : List ℕ → List ℕ → List (List ℕ)
parts_from part [] = []
parts_from part (zero ∷ cs) = part ∷ parts_from [] cs
parts_from part (suc c ∷ cs) = parts_from (part ++ c ∷ []) cs

parts_from-frame :
    (done part rest : List ℕ)
    → parts_from done (frame part rest) ≡ (done ++ part) ∷ parts_from [] rest
parts_from-frame done [] rest = ap (λ p. p ∷ parts_from [] rest) (sym (append-nil done))
parts_from-frame done (c ∷ cs) rest =
    parts_from-frame (done ++ c ∷ []) cs rest
    ∙ ap (λ p. p ∷ parts_from [] rest) (append_assoc done (c ∷ []) cs)

parts_from-frames : (parts : List (List ℕ)) → parts_from [] (frames parts) ≡ parts
parts_from-frames [] = refl
parts_from-frames (part ∷ parts) =
    parts_from-frame [] part (frames parts) ∙ ap (λ l. part ∷ l) (parts_from-frames parts)

-- Strings, lists, pairs and structs.
abbrev pub text : Codec Str
text = record { out = λ s. some s; in_ = λ bytes. some bytes }

pub text-Faithful : Faithful text
text-Faithful s = (s, refl, refl)

abbrev pub no_fields : Codec (Unit {0})
no_fields = record { out = λ u. some []; in_ = λ bytes. some tt }

pub no_fields-Faithful : Faithful no_fields
no_fields-Faithful u = ([], refl, refl)

abbrev out_all : {A : Type 0} → Codec A → List A → Option (List (List ℕ))
out_all codec [] = some []
out_all codec (x ∷ xs) = codec.out x >>= λ bytes. out_all codec xs >>= λ rest. some (bytes ∷ rest)

abbrev in_all : {A : Type 0} → Codec A → List (List ℕ) → Option (List A)
in_all codec [] = some []
in_all codec (bytes ∷ parts) = codec.in_ bytes >>= λ x. in_all codec parts >>= λ xs. some (x ∷ xs)

abbrev pub listed : {A : Type 0} → Codec A → Codec (List A)
listed codec = record {
  out = λ xs. out_all codec xs >>= λ parts. some (frames parts);
  in_ = λ bytes. in_all codec (parts_from [] bytes);
}

all-Faithful :
    {A : Type 0} (codec : Codec A)
    → Faithful codec
    → (xs : List A)
    → (parts : List (List ℕ)) × (out_all codec xs ≡ some parts) × (in_all codec parts ≡ some xs)
all-Faithful codec faithful [] = ([], refl, refl)
all-Faithful codec faithful (x ∷ xs) =
    let (bytes, o, i) = faithful x in
    let (parts, p, q) = all-Faithful codec faithful xs in (bytes ∷ parts, rw (o, p), rw (i, q))

pub listed-Faithful : {A : Type 0} (codec : Codec A) → Faithful codec → Faithful (listed codec)
listed-Faithful codec faithful xs =
    let (parts, p, q) = all-Faithful codec faithful xs in
    (frames parts, rw (p), rw (parts_from-frames parts, q))

abbrev two_parts : List (List ℕ) → Option (List ℕ × List ℕ)
two_parts (a ∷ b ∷ []) = some (a, b)
two_parts other = none

abbrev pub paired : {A B : Type 0} → Codec A → Codec B → Codec (A × B)
paired c d = record {
  out = λ p. c.out p.0 >>= λ a. d.out p.1 >>= λ b. some (frames (a ∷ b ∷ []));
  in_ = λ bytes.
      two_parts (parts_from [] bytes) >>= λ p. c.in_ p.0 >>= λ a. d.in_ p.1 >>= λ b. some (a, b);
}

pub paired-Faithful :
    {A B : Type 0} (c : Codec A) (d : Codec B) → Faithful c → Faithful d → Faithful (paired c d)
paired-Faithful c d f g (a, b) =
    let (x, o, i) = f a in
    let (y, p, q) = g b in
    (frames (x ∷ y ∷ []), rw (o, p), rw (parts_from-frames (x ∷ y ∷ []), i, q))

abbrev pub via : {A B : Type 0} → (A → B) → (B → A) → Codec B → Codec A
via to from codec = record {
  out = λ a. codec.out (to a);
  in_ = λ bytes. codec.in_ bytes >>= λ b. some (from b);
}

pub via-Faithful :
    {A B : Type 0} (to : A → B) (from : B → A) (codec : Codec B)
    → ((a : A) → from (to a) ≡ a)
    → Faithful codec
    → Faithful (via to from codec)
via-Faithful to from codec back faithful a =
    let (bytes, o, i) = faithful (to a) in (bytes, o, rw (i, back a))
