-- ===== src/HttpProxy/Callbacks.antt =====
-- http_proxy.cc: what each callback of a connection does.
use mathlib.Core.List.{append_assoc, map-append}
use mpshell_ext.Prelude.{
  subst, map, All, All-imp, All-append, ◌⊎◌, ◌==◌, false, ℕ, suc, ◌+◌, ◌≡◌, refl, sym, ap, ◌∙◌,
  Bool, true, not, List, [], ◌∷◌, ◌++◌, Option, none, some, arith, length, length-append, is_nil,
  inl, inr, List-cases,
}
use mpshell_ext.Prelude.Result.{ok, exception, require}
use mpshell_ext.Prelude.Ends.{Ends, Meets, Meets->>=, Meets-Ends, Ends-require, Always}
use mpshell_ext.Prelude.Stream.{now}
use mpshell_ext.Packet.{Bytes}
use mpshell_ext.Poller.{PollDirection, direction_in, direction_out, Action, ActionResult}
use mpshell_ext.Poller.Laws.{KeepsTo}
use mpshell_ext.Http.Message.{
  HttpMessage, Message, RecordedMessage, toprotobuf, str, HttpMessageState, rank,
  first_line_pending, headers_pending, body_pending, complete,
}
use mpshell_ext.Http.Message.Laws.{text_of, recorded, toprotobuf-recorded, str-recorded}
use mpshell_ext.Http.Request.{HttpRequest, is_head}
use mpshell_ext.Http.Response.{HttpResponse}
use mpshell_ext.Http.Sequence.{
  HttpMessageSequence, SequenceType, request_parser, response_parser, front, pop, parse,
  new_request_arrived,
}
use mpshell_ext.Http.Sequence.Counting.{
  Grows, Balanced, in_hand, Meets-parse_requests, Meets-parse_responses,
}
use mpshell_ext.HttpProxy.{
  ReqResPair, Connection, Proxy, read, write, defined, from_server, from_client, to_server,
  write_pair, reqres_to_protobuf, to_client,
}

-- One of the texts that have been sent.
pub record IsSent (text : Bytes) (sent : List Bytes) : Type 0 where
  pub before : List Bytes
  pub after : List Bytes
  pub here : sent ≡ before ++ text ∷ after

IsSent-append :
    {text : Bytes} {sent : List Bytes} (more : List Bytes)
    → IsSent text sent
    → IsSent text (sent ++ more)
IsSent-append {text} {sent} more s = record {
  before = s.before;
  after = s.after ++ more;
  here = ap (λ l. l ++ more) s.here ∙ append_assoc s.before (text ∷ s.after) more;
}

-- The text of a request that is set has been sent.
abbrev pub IsAsked : List Bytes → Option RecordedMessage → Type 0
IsAsked sent none = Unit
IsAsked sent (some q) = IsSent (text_of q) sent

-- The text of the response of a pair that was written to a file.
abbrev pub answer_of : ℕ × ReqResPair → Bytes
answer_of f = elim f.1.res [ none ↦ [] | some r ↦ text_of r ]

-- The request of a pair that was written is set, and is one of those that were sent.
abbrev pub IsPaired : List Bytes → ℕ × ReqResPair → Type 0
IsPaired sent f = (q : RecordedMessage) × (f.1.req ≡ some q) × IsSent (text_of q) sent

-- There are as many requests that were sent to the server as answers to the client and responses
-- that are complete, begun or expected. What was written to the files are, one for one, the
-- answers, in order, each with a request that was sent.
pub record IsAccounted (w : Proxy) : Type 0 where
  pub answers : length w.server.written ≡ length w.client.written + in_hand w.response_parser
  pub recorded : map answer_of w.writes ≡ w.client.written
  pub paired : All (IsPaired w.server.written) w.writes
  pub current : IsAsked w.server.written w.current_pair.req

-- What a callback for output relies on: its queue is not empty.
abbrev pub Needs : PollDirection → (Proxy → Bool) → Proxy → Type 0
Needs direction_in interested w = Unit
Needs direction_out interested w = interested w ≡ true

pub Needs-interested : (d : PollDirection) (f : Proxy → Bool) (w : Proxy) → f w ≡ true → Needs d f w
Needs-interested direction_in f w h = tt
Needs-interested direction_out f w h = h

abbrev pub HasSome : {S : SequenceType} → HttpMessageSequence S → Type 0
HasSome s = not (is_nil s.complete_messages) ≡ true

HasSome-Grows : {S : SequenceType} (s t : HttpMessageSequence S) → Grows s t → HasSome s → HasSome t
HasSome-Grows s t g h = rw g.behind (longer s.complete_messages g.more h)
  where
    longer : {A : Type 0} (xs ys : List A) → not (is_nil xs) ≡ true → not (is_nil (xs ++ ys)) ≡ true
    longer [] ys e = absurd (cc)
    longer (x ∷ xs) ys e = refl

read-written : (c : Connection) → (read c).1.written ≡ c.written
unfolding read
read-written c = elim (List-cases c.arriving) [
  | inl e ↦ rw (e, read) refl
  | inr (x, xs, e) ↦ rw (e, read) refl
]

length-one_more : {A : Type 0} (xs : List A) (x : A) → length (xs ++ x ∷ []) ≡ suc (length xs)
length-one_more xs x = omega (arith, length-append xs (x ∷ []))

abbrev pub Keeps : List (Action Proxy) → Proxy → ActionResult × Proxy → Type 0
Keeps = KeepsTo IsAccounted Needs Needs-interested

State-cases : (s : HttpMessageState) → (s ≡ complete) ⊎ ((rank s == rank complete) ≡ false)
State-cases first_line_pending = inr refl
State-cases headers_pending = inr refl
State-cases body_pending = inr refl
State-cases complete = inl refl

-- What a message is written as, if it is complete.
Meets-str : {E : Type 0} (m : HttpMessage E) → Meets (str m) (λ text. text ≡ text_of (recorded m))
Meets-str m = elim (State-cases m.state) [
  | inl e ↦ rw (str-recorded m e) refl
  | inr e ↦ unfold str in ground (arith, e)
]

Meets-toprotobuf : {E : Type 0} (m : HttpMessage E) → Meets (toprotobuf m) (λ r. r ≡ recorded m)
Meets-toprotobuf m = elim (State-cases m.state) [
  | inl e ↦ rw (toprotobuf-recorded m e) refl
  | inr e ↦ unfold toprotobuf in ground (arith, e)
]

Ends-is_head : (m : HttpRequest) → Ends (is_head m)
unfolding is_head
Ends-is_head m = ground arith

-- What a parser of responses is told of a request: one more is expected.
Meets-new_request_arrived :
    (m : HttpRequest) (s : HttpMessageSequence response_parser)
    → Meets
        (new_request_arrived m s)
        (λ t. (in_hand t ≡ suc (in_hand s)) × (t.complete_messages ≡ s.complete_messages))
unfolding new_request_arrived
Meets-new_request_arrived m s =
    Meets->>= Always
      (λ t. (in_hand t ≡ suc (in_hand s)) × (t.complete_messages ≡ s.complete_messages)) (is_head m)
      _ (Meets-Ends (is_head m) (Ends-is_head m))
      (λ was_head u. (omega (arith, length-append s.own (was_head ∷ [])), refl))

-- A queue of complete messages that is not empty stays so.
abbrev pub KeepsRequests : Proxy → Proxy → Type 0
KeepsRequests w w' = HasSome w.request_parser → HasSome w'.request_parser

abbrev pub KeepsResponses : Proxy → Proxy → Type 0
KeepsResponses w w' = HasSome w.response_parser → HasSome w'.response_parser

-- What each of the two callbacks for input does.
abbrev pub IsInput : Proxy → ActionResult × Proxy → Type 0
IsInput w r = IsAccounted r.1 × KeepsRequests w r.1 × KeepsResponses w r.1

pub Meets-from_server : (w : Proxy) → IsAccounted w → Meets (from_server w) (IsInput w)
unfolding from_server
Meets-from_server w v =
    Meets->>= (Balanced w.response_parser) (IsInput w)
      (parse response_parser (read w.server).0 w.response_parser) _
      (Meets-parse_responses (read w.server).0 w.response_parser)
      (λ t b. (
        record {
          answers =
              ap length (read-written w.server)
              ∙ v.answers
              ∙ ap (λ n. length w.client.written + n) (sym b.balance);
          recorded = v.recorded;
          paired = subst (λ l. All (IsPaired l) w.writes) (sym (read-written w.server)) v.paired;
          current =
              subst (λ l. IsAsked l w.current_pair.req) (sym (read-written w.server)) v.current;
        },
        (λ h. h),
        HasSome-Grows w.response_parser t b.grows,
      ))

pub Meets-from_client : (w : Proxy) → IsAccounted w → Meets (from_client w) (IsInput w)
unfolding from_client
Meets-from_client w v =
    Meets->>= (Grows w.request_parser) (IsInput w)
      (parse request_parser (read w.client).0 w.request_parser) _
      (Meets-parse_requests (read w.client).0 w.request_parser)
      (λ t g. (
        record {
          answers =
              v.answers
              ∙ ap (λ l. length l + in_hand w.response_parser) (sym (read-written w.client));
          recorded = v.recorded ∙ sym (read-written w.client);
          paired = v.paired;
          current = v.current;
        },
        HasSome-Grows w.request_parser t g,
        (λ h. h),
      ))

module _ {S : SequenceType} (s : HttpMessageSequence S) where
  -- A queue that is not empty has a front.
  HasSome-cases :
      HasSome s
      → (m : Message S.message) × (ms : List (Message S.message)) × (s.complete_messages ≡ m ∷ ms)
  HasSome-cases h = elim (List-cases s.complete_messages) [
    | inl e ↦ absurd (ground arith)
    | inr (m, ms, e) ↦ (m, ms, e)
  ]

  pub front-some :
      (m : Message S.message) (ms : List (Message S.message))
      → s.complete_messages ≡ m ∷ ms
      → defined (front S s) ≡ ok m
  unfolding defined front
  front-some m ms e = rw (e, front) refl

  pub pop-some :
      (m : Message S.message) (ms : List (Message S.message))
      → s.complete_messages ≡ m ∷ ms
      → defined (pop S s) ≡ ok (record s { complete_messages = ms })
  unfolding defined pop
  pop-some m ms e = rw (e, pop) refl

-- What the callback for requests does.
abbrev pub IsForwarded : Proxy → ActionResult × Proxy → Type 0
IsForwarded w r = IsAccounted r.1 × KeepsResponses w r.1

pub Meets-to_server :
    (w : Proxy) → IsAccounted w → HasSome w.request_parser → Meets (to_server w) (IsForwarded w)
unfolding to_server write
Meets-to_server w v h =
    let (m, ms, e) = HasSome-cases w.request_parser h in
    rw (front-some w.request_parser m ms e, pop-some w.request_parser m ms e)
      (Meets->>= (λ text. text ≡ text_of (recorded m)) (IsForwarded w) (str m) _ (Meets-str m)
        (λ text u.
          Meets->>=
            (λ t.
              (in_hand t ≡ suc (in_hand w.response_parser))
              × (t.complete_messages ≡ w.response_parser.complete_messages))
            (IsForwarded w) (new_request_arrived m w.response_parser) _
            (Meets-new_request_arrived m w.response_parser)
            (λ t counted.
              Meets->>= (λ q. q ≡ recorded m) (IsForwarded w) (toprotobuf m) _ (Meets-toprotobuf m)
                (λ q a. (
                  record {
                    answers =
                        length-one_more w.server.written text ∙ omega (arith, v.answers, counted.0);
                    recorded = v.recorded;
                    paired =
                        All-imp (IsPaired w.server.written)
                          (IsPaired (w.server.written ++ text ∷ []))
                          (λ f s. (s.0, s.1, IsSent-append (text ∷ []) s.2)) w.writes v.paired;
                    current = record {
                      before = w.server.written;
                      after = [];
                      here = ap (λ x. w.server.written ++ x ∷ []) (u ∙ ap text_of (sym a));
                    };
                  },
                  λ g. ap (λ l. not (is_nil l)) counted.1 ∙ g,
                )))))

module _ (opens : ℕ → Bool) (serializes : ReqResPair → Bool) where
  -- A pair of the current request and the response `m` is written to a file.
  record IsWritten (m : HttpResponse) (w w' : Proxy) : Type 0 where
    q : RecordedMessage
    asked : w.current_pair.req ≡ some q
    writes :
        w'.writes
        ≡ w.writes ++ (now w.random, record w.current_pair { res = some (recorded m) }) ∷ []
    cleared : w'.current_pair.req ≡ none
    server : w'.server ≡ w.server
    client : w'.client ≡ w.client
    response_parser : w'.response_parser ≡ w.response_parser

  Meets-write_pair :
      (q : Option RecordedMessage) (m : HttpResponse) (w : Proxy)
      → w.current_pair.req ≡ q
      → Meets (write_pair opens serializes q m w) (IsWritten m w)
  unfolding write_pair
  Meets-write_pair none m w e = refl
  Meets-write_pair (some q) m w e =
      Meets->>= (λ r. r ≡ recorded m) (IsWritten m w) (toprotobuf m) _ (Meets-toprotobuf m)
        (λ r u.
          let pair = record w.current_pair { res = some r } in
          Meets->>= Always (IsWritten m w) (require (serializes pair) exception) _
            (Meets-Ends (require (serializes pair) exception)
              (Ends-require (serializes pair) exception refl))
            (λ t v. record {
              q = q;
              asked = e;
              writes =
                  ap (λ x. w.writes ++ (now w.random, record w.current_pair { res = some x }) ∷ [])
                    u;
              cleared = refl;
              server = refl;
              client = refl;
              response_parser = refl;
            }))

  Meets-reqres_to_protobuf :
      (m : HttpResponse) (w : Proxy)
      → Meets (reqres_to_protobuf opens serializes m w) (IsWritten m w)
  unfolding reqres_to_protobuf
  Meets-reqres_to_protobuf m w =
      Meets->>= Always (IsWritten m w) (require (opens (now w.random)) exception) _
        (Meets-Ends (require (opens (now w.random)) exception)
          (Ends-require (opens (now w.random)) exception refl))
        (λ u v. Meets-write_pair w.current_pair.req m w refl)

  -- The answers of the writes, when a pair and its answer have been added.
  recorded-next :
      (m : HttpResponse) (w : Proxy) (text : Bytes)
      → text ≡ text_of (recorded m)
      → map answer_of w.writes ≡ w.client.written
      → map answer_of
          (w.writes ++ (now w.random, record w.current_pair { res = some (recorded m) }) ∷ [])
        ≡ w.client.written ++ text ∷ []
  recorded-next m w text u e =
      map-append answer_of w.writes _
      ∙ ap (λ l. l ++ text_of (recorded m) ∷ []) e
      ∙ ap (λ x. w.client.written ++ x ∷ []) (sym u)

  pub Meets-to_client :
      (w : Proxy)
      → IsAccounted w
      → HasSome w.response_parser
      → Meets (to_client opens serializes w) (λ r. IsAccounted r.1)
  unfolding to_client write
  Meets-to_client w v h =
      let (m, ms, e) = HasSome-cases w.response_parser h in
      rw (front-some w.response_parser m ms e, pop-some w.response_parser m ms e)
        (Meets->>= (λ text. text ≡ text_of (recorded m)) (λ r. IsAccounted r.1) (str m) _
          (Meets-str m)
          (λ text u.
            let sent = record w {
              client = record w.client { written = w.client.written ++ text ∷ [] };
            } in
            Meets->>= (IsWritten m sent) (λ r. IsAccounted r.1)
              (reqres_to_protobuf opens serializes m sent) _ (Meets-reqres_to_protobuf m sent)
              (λ w' k. record {
                answers = omega (
                  arith,
                  ap (λ c. length c.written) k.server,
                  ap (λ c. length c.written) k.client,
                  length-one_more w.client.written text,
                  ap length e,
                  v.answers,
                );
                recorded =
                    ap (map answer_of) k.writes
                    ∙ recorded-next m w text u v.recorded
                    ∙ ap (λ c. c.written) (sym k.client);
                paired =
                    subst (λ l. All (IsPaired l) w'.writes) (ap (λ c. c.written) (sym k.server))
                      (subst (All (IsPaired w.server.written)) (sym k.writes) (
                        All-append (IsPaired w.server.written) w.writes _ v.paired (
                          (k.q, k.asked, subst (IsAsked w.server.written) k.asked v.current),
                          tt,
                        )));
                current = subst (IsAsked w'.server.written) (sym k.cleared) tt;
              })))
