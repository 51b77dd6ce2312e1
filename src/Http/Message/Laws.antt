-- ===== src/Http/Message/Laws.antt =====
-- http_message.cc: theorems on the two forms in which a message is written, and on bodies of a known
-- size.
use mathlib.Core.List.{append_assoc}
use mpshell_ext.Prelude.{
  ℕ, ◌+◌, ◌-◌, ◌≤◌, ◌<◌, ◌≡◌, ◌∙◌, refl, ap, min, true, List, [], ◌∷◌, ◌++◌, map, arith, length,
  take, length-append, take-all, suc, ◌==◌, false,
}
use mpshell_ext.Prelude.Result.{ok, Returns}
use mpshell_ext.Packet.{Bytes}
use mpshell_ext.Http.Text.{crlf, concat}
use mpshell_ext.Http.Header
use mpshell_ext.Http.Header.{HttpHeader}
use mpshell_ext.Http.Message.{
  HttpMessage, MessageType, Message, body_pending, complete, RecordedMessage, toprotobuf,
  header_lines, str, body_size_is_known, expected_body_size, read_known, read_in_body,
}

concat-map : (hs : List HttpHeader) → concat (map (λ h. Header.str h ++ crlf) hs) ≡ header_lines hs
concat-map [] = refl
concat-map (h ∷ hs) = ap (λ l. (Header.str h ++ crlf) ++ l) (concat-map hs)

-- The text of the parts of a record, one after the other.
abbrev pub text_of : RecordedMessage → Bytes
text_of r = (r.first_line ++ concat r.headers) ++ r.body

-- What is recorded of a complete message.
abbrev pub recorded : {E : Type 0} → HttpMessage E → RecordedMessage
recorded m = record {
  first_line = m.first_line ++ crlf;
  headers = map (λ h. Header.str h ++ crlf) m.headers;
  body = crlf ++ m.body;
}

pub toprotobuf-recorded :
    {E : Type 0} (m : HttpMessage E) → m.state ≡ complete → toprotobuf m ≡ ok (recorded m)
unfolding toprotobuf
toprotobuf-recorded m h = rw h refl

pub str-recorded :
    {E : Type 0} (m : HttpMessage E) → m.state ≡ complete → str m ≡ ok (text_of (recorded m))
unfolding str
str-recorded m h = rw h (rw (concat-map m.headers) refl)

-- The parts that are recorded of a complete message are, one after the other, its text.
pub toprotobuf-str :
    {E : Type 0} (m : HttpMessage E)
    → m.state ≡ complete
    → Returns (toprotobuf m) (λ r. str m ≡ ok (text_of r))
toprotobuf-str m h = (recorded m, toprotobuf-recorded m h, str-recorded m h)

-- A message that waits for the rest of a body of `size` bytes.
pub record IsReading (size : ℕ) {E : Type 0} (m : HttpMessage E) : Type 0 where
  pub pending : m.state ≡ body_pending
  pub known : m.expected_body_size_ ≡ (true, size)
  pub fits : length m.body ≤ size

pub read_in_body-known :
    (M : MessageType) (size : ℕ) (input : Bytes) (m : Message M)
    → IsReading size m
    → read_in_body M input m ≡ ok (read_known M size input m)
unfolding read_in_body body_size_is_known expected_body_size
read_in_body-known M size input m v = rw (v.pending, v.known) (ground (arith, v.fits))

take-behind :
    (part rest : Bytes) (k : ℕ) → take (length part + k) (part ++ rest) ≡ part ++ take k rest
take-behind [] rest k = ap (λ n. take n rest) (omega arith)
take-behind (b ∷ part) rest k =
    let e : length (b ∷ part) + k ≡ suc (length part + k) = omega arith in
    rw e (ap (λ l. b ∷ l) (take-behind part rest k))

-- A part of a body that leaves it unfinished is taken whole.
read_known-part :
    (M : MessageType) (size : ℕ) (part : Bytes) (m : Message M)
    → length m.body + length part < size
    → read_known M size part m ≡ (length part, record m { body = m.body ++ part })
unfolding read_known
read_known-part M size part m h =
    let e : min (size - length m.body) (length part) ≡ length part = omega arith in
    let f : (length (m.body ++ part) == size) ≡ false = ground (arith, length-append m.body part) in
    rw (e, take-all (length part) part (omega arith), f) refl

read_known-append :
    (M : MessageType) (size : ℕ) (part rest : Bytes) (m : Message M)
    → length m.body + length part < size
    → read_known M size (part ++ rest) m ≡ (
      length part + (read_known M size rest (record m { body = m.body ++ part })).0,
      (read_known M size rest (record m { body = m.body ++ part })).1,
    )
unfolding read_known
read_known-append M size part rest m h =
    let k = min (size - length (m.body ++ part)) (length rest) in
    let e : min (size - length m.body) (length (part ++ rest)) ≡ length part + k =
      omega (arith, length-append m.body part, length-append part rest) in
    rw (e, take-behind part rest k, append_assoc m.body part (take k rest)) refl

-- If a message waits for a body of known size and the first part of the input leaves the body
-- unfinished, then reading this part, which is taken whole, and then the rest comes to the same as
-- reading the input at once: the same message, and as many bytes taken in all. Both return.
pub read_in_body-append :
    (M : MessageType) (size : ℕ) (part rest : Bytes) (m : Message M)
    → IsReading size m
    → length m.body + length part < size
    → Returns (read_in_body M part m) (λ r.
      (r.0 ≡ length part)
      × Returns
          (read_in_body M rest r.1)
          (λ s. read_in_body M (part ++ rest) m ≡ ok (r.0 + s.0, s.1)))
read_in_body-append M size part rest m v h =
    let m' = record m { body = m.body ++ part } in
    let v' : IsReading size m' = record {
      pending = v.pending;
      known = v.known;
      fits = omega (arith, length-append m.body part);
    } in
    (
      (length part, m'),
      read_in_body-known M size part m v ∙ ap ok (read_known-part M size part m h),
      (
        refl,
        (
          read_known M size rest m',
          read_in_body-known M size rest m' v',
          read_in_body-known M size (part ++ rest) m v
              ∙ ap ok (read_known-append M size part rest m h),
        ),
      ),
    )
