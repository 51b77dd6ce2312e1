-- ===== src/HttpProxy/Pairing.antt =====
-- http_proxy.cc: which request and which response are recorded as a pair.
use mpshell_ext.Prelude.{
  ℕ, ◌≡◌, refl, sym, ap, ◌∙◌, Bool, true, false, List, [], ◌∷◌, ◌++◌, none, some, take,
}
use mpshell_ext.Prelude.Result.{Result, ok, err, exception, Returns, ◌>>=◌, ◌>>◌, require}
use mpshell_ext.Prelude.Stream.{now, later}
use mpshell_ext.Poller.{ActionResult, continue_}
use mpshell_ext.Http.Text.{same_bytes}
use mpshell_ext.Http.Message.{RecordedMessage, complete}
use mpshell_ext.Http.Message.Laws.{text_of, recorded, toprotobuf-recorded, str-recorded}
use mpshell_ext.Http.Request.{HttpRequest, is_head, head_method}
use mpshell_ext.Http.Response.{HttpResponse}
use mpshell_ext.Http.Sequence.{new_request_arrived}
use mpshell_ext.HttpProxy.{
  ReqResPair, Proxy, write, to_server, write_pair, reqres_to_protobuf, to_client,
}
use mpshell_ext.HttpProxy.Callbacks.{front-some, pop-some}

-- The proxy after it has sent the request `m`, where `ms` are left.
forwarded : HttpRequest → List HttpRequest → Proxy → Proxy
forwarded m ms w = record w {
  server = write (text_of (recorded m)) w.server;
  response_parser = record w.response_parser {
    own = w.response_parser.own ++ same_bytes (take 5 m.first_line) head_method ∷ [];
  };
  current_pair = record w.current_pair { req = some (recorded m) };
  request_parser = record w.request_parser { complete_messages = ms };
}

new_request_arrived_lem :
    (m : HttpRequest) (w : Proxy)
    → m.state ≡ complete
    → new_request_arrived m w.response_parser
      ≡ ok (record w.response_parser {
        own = w.response_parser.own ++ same_bytes (take 5 m.first_line) head_method ∷ [];
      })
unfolding new_request_arrived is_head
new_request_arrived_lem m w h = rw h refl

to_server_lem :
    (w : Proxy) (m : HttpRequest) (ms : List HttpRequest)
    → w.request_parser.complete_messages ≡ m ∷ ms
    → m.state ≡ complete
    → to_server w ≡ ok (continue_, forwarded m ms w)
unfolding to_server forwarded
to_server_lem w m ms e h =
    rw
      (
        front-some w.request_parser m ms e,
        pop-some w.request_parser m ms e,
        str-recorded m h,
        new_request_arrived_lem m w h,
        toprotobuf-recorded m h,
      )
      refl

-- The pair that is written when `w` has a response.
abbrev pub pair_with : HttpResponse → Proxy → ReqResPair
pair_with r w = record w.current_pair { res = some (recorded r) }

-- The proxy after it has sent the response `r`, where `rs` are left.
answered : HttpResponse → List HttpResponse → Proxy → Proxy
answered r rs w = record w {
  client = write (text_of (recorded r)) w.client;
  response_parser = record w.response_parser { complete_messages = rs };
  writes = w.writes ++ (now w.random, pair_with r w) ∷ [];
  random = later w.random;
  current_pair = record (pair_with r w) { req = none; res = none };
}

module _ (opens : ℕ → Bool) (serializes : ReqResPair → Bool) (w : Proxy) (r : HttpResponse)
    (rs : List HttpResponse) (front_is : w.response_parser.complete_messages ≡ r ∷ rs)
    (completed : r.state ≡ complete) where
  -- The file of the pair is written, and the pair is cleared.
  written : Proxy → Proxy
  written v = record v {
    writes = v.writes ++ (now v.random, pair_with r v) ∷ [];
    random = later v.random;
    current_pair = record (pair_with r v) { req = none; res = none };
  }

  write_pair_lem :
      (v : Proxy) (q : RecordedMessage)
      → serializes (pair_with r v) ≡ true
      → write_pair opens serializes (some q) r v ≡ ok (written v)
  unfolding write_pair written
  write_pair_lem v q z = rw (toprotobuf-recorded r completed, z) refl

  reqres_to_protobuf_lem :
      (v : Proxy) (q : RecordedMessage)
      → v.current_pair.req ≡ some q
      → opens (now v.random) ≡ true
      → serializes (pair_with r v) ≡ true
      → reqres_to_protobuf opens serializes r v ≡ ok (written v)
  unfolding reqres_to_protobuf
  reqres_to_protobuf_lem v q e o z =
      ap (λ b. do require b exception; write_pair opens serializes v.current_pair.req r v) o
      ∙ ap (λ x. write_pair opens serializes x r v) e
      ∙ write_pair_lem v q z

  reqres_to_protobuf-none :
      (v : Proxy)
      → v.current_pair.req ≡ none
      → reqres_to_protobuf opens serializes r v ≡ err exception
  unfolding reqres_to_protobuf write_pair
  reqres_to_protobuf-none v e =
      ap (λ x. do require (opens (now v.random)) exception; write_pair opens serializes x r v) e
      ∙ raised (opens (now v.random))
    where
      raised :
          (b : Bool) → ◌>>=◌ {B = Proxy} (require b exception) (λ u. err exception) ≡ err exception
      raised true = refl
      raised false = refl

  to_client_lem :
      (q : RecordedMessage)
      → w.current_pair.req ≡ some q
      → opens (now w.random) ≡ true
      → serializes (pair_with r w) ≡ true
      → to_client opens serializes w ≡ ok (continue_, answered r rs w)
  unfolding to_client answered written
  to_client_lem q e o z =
      let sent = record w { client = write (text_of (recorded r)) w.client } in
      rw
        (
          front-some w.response_parser r rs front_is,
          pop-some w.response_parser r rs front_is,
          str-recorded r completed,
          reqres_to_protobuf_lem sent q e o z,
        )
        refl

  -- There is no request for the response.
  to_client-none : w.current_pair.req ≡ none → to_client opens serializes w ≡ err exception
  unfolding to_client
  to_client-none e =
      let sent = record w { client = write (text_of (recorded r)) w.client } in
      rw
        (
          front-some w.response_parser r rs front_is,
          str-recorded r completed,
          reqres_to_protobuf-none sent e,
        )
        refl

ok-injective : {x y : Proxy} → ◌≡◌ {A = Result Proxy} (ok x) (ok y) → x ≡ y
ok-injective e = cc

second-injective :
    {x y : Proxy}
    → ◌≡◌ {A = Result (ActionResult × Proxy)} (ok (continue_, x)) (ok (continue_, y))
    → x ≡ y
second-injective e = cc

-- The two requests at the front are sent to the server one after the other.
unfoldable pub send_two : Proxy → Result Proxy
send_two w = do a ← to_server w; b ← to_server a.1; ok b.1

-- A response that comes after one request has been sent is recorded with that request, and the pair
-- is cleared.
pub to_client-paired :
    (opens : ℕ → Bool) (serializes : ReqResPair → Bool) (w after w' : Proxy) (m : HttpRequest)
    (ms : List HttpRequest) (r : HttpResponse) (rs : List HttpResponse)
    → w.request_parser.complete_messages ≡ m ∷ ms
    → m.state ≡ complete
    → to_server w ≡ ok (continue_, after)
    → w'.current_pair ≡ after.current_pair
    → w'.response_parser.complete_messages ≡ r ∷ rs
    → r.state ≡ complete
    → opens (now w'.random) ≡ true
    → serializes (pair_with r w') ≡ true
    → Returns (to_client opens serializes w') (λ d.
      (d.1.writes
        ≡ w'.writes
          ++ (
            now w'.random,
            record w.current_pair { req = some (recorded m); res = some (recorded r) },
          )
            ∷ [])
      × (d.1.current_pair ≡ record w.current_pair { req = none; res = none }))
unfolding answered forwarded
to_client-paired opens serializes w after w' m ms r rs e h f g k c o z =
    let same : w'.current_pair ≡ record w.current_pair { req = some (recorded m) } =
      g ∙ ap (λ x. x.current_pair) (second-injective (sym f ∙ to_server_lem w m ms e h)) in
    (
      (continue_, answered r rs w'),
      to_client_lem opens serializes w' r rs k c (recorded m) (ap (λ x. x.req) same) o z,
      (
        ap (λ x. w'.writes ++ (now w'.random, record x { res = some (recorded r) }) ∷ []) same,
        ap {A = ReqResPair} (λ x. record x { req = none; res = none }) same,
      ),
    )

send_two_lem :
    (w : Proxy) (m n : HttpRequest) (ms : List HttpRequest)
    → w.request_parser.complete_messages ≡ m ∷ n ∷ ms
    → m.state ≡ complete
    → n.state ≡ complete
    → send_two w ≡ ok (forwarded n ms (forwarded m (n ∷ ms) w))
unfolding send_two
send_two_lem w m n ms e h k =
    rw
      (
        to_server_lem w m (n ∷ ms) e h,
        to_server_lem (forwarded m (n ∷ ms) w) n ms (unfold forwarded in refl) k,
      )
      refl

-- If a second request is sent before the response to the first has come, that response is recorded
-- with the second request, and the response to the second raises an exception.
pub to_client-mispaired :
    (opens : ℕ → Bool) (serializes : ReqResPair → Bool) (w after w' : Proxy) (m n : HttpRequest)
    (ms : List HttpRequest) (r s : HttpResponse) (rs : List HttpResponse)
    → w.request_parser.complete_messages ≡ m ∷ n ∷ ms
    → m.state ≡ complete
    → n.state ≡ complete
    → send_two w ≡ ok after
    → w'.current_pair ≡ after.current_pair
    → w'.response_parser.complete_messages ≡ r ∷ s ∷ rs
    → r.state ≡ complete
    → s.state ≡ complete
    → opens (now w'.random) ≡ true
    → serializes (pair_with r w') ≡ true
    → Returns (to_client opens serializes w') (λ d.
      (d.1.writes
        ≡ w'.writes
          ++ (
            now w'.random,
            record w.current_pair { req = some (recorded n); res = some (recorded r) },
          )
            ∷ [])
      × (to_client opens serializes d.1 ≡ err exception))
unfolding answered forwarded
to_client-mispaired opens serializes w after w' m n ms r s rs e h l f g k c d o z =
    let same : w'.current_pair ≡ record w.current_pair { req = some (recorded n) } =
      g ∙ ap (λ x. x.current_pair) (ok-injective (sym f ∙ send_two_lem w m n ms e h l)) in
    (
      (continue_, answered r (s ∷ rs) w'),
      to_client_lem opens serializes w' r (s ∷ rs) k c (recorded n) (ap (λ x. x.req) same) o z,
      (
        ap (λ x. w'.writes ++ (now w'.random, record x { res = some (recorded r) }) ∷ []) same,
        to_client-none opens serializes (answered r (s ∷ rs) w') s rs refl d refl,
      ),
    )
