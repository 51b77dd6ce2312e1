-- ===== src/Tests/Proxies.antt =====
-- A connection of the proxy, with requests that are sent before the responses come.
use mpshell_ext.Prelude.{ℕ, ◌≡◌, refl, Bool, true, false, List, [], ◌∷◌, none, some, ◌==◌}
use mpshell_ext.Prelude.Result.{ok, err, exception, Returns}
use mpshell_ext.Prelude.Ends.{Meets}
use mpshell_ext.Packet.{Bytes}
use mpshell_ext.Poller.{PollFd, PollReturn, ready, continue_}
use mpshell_ext.Http.Message.{toprotobuf, str, blank}
use mpshell_ext.Http.Message.Laws.{recorded, text_of}
use mpshell_ext.Http.Request.{HttpRequest, is_head}
use mpshell_ext.Http.Request
use mpshell_ext.Http.Response.{HttpResponse}
use mpshell_ext.Http.Response
use mpshell_ext.Http.Sequence.{
  HttpMessageSequence, request_parser, response_parser, parse, front, pop, new_request_arrived,
}
use mpshell_ext.Http.Sequence.Counting.{Balanced, Meets-parse_responses}
use mpshell_ext.HttpProxy.{
  ReqResPair, Connection, Proxy, write, defined, to_server, to_client, proxy_poller, serve, init,
}
use mpshell_ext.HttpProxy.Callbacks.{IsAccounted}
use mpshell_ext.HttpProxy.Safety.{Meets-serve_connection}
use mpshell_ext.HttpProxy.Pairing.{send_two, to_client-paired, to_client-mispaired}
use mpshell_ext.Tests.Replays.{request, response}

abbrev socket : ℕ → List Bytes → Connection
socket n arriving = record {
  fd = record { num = n; eof = false };
  arriving = arriving;
  written = [];
}

-- A request arrives at the client's socket: "GET / H", with no headers.
abbrev client : Connection
client = socket 5 ((b'G' ∷ b'E' ∷ b'T' ∷ 32 ∷ b'/' ∷ 32 ∷ b'H' ∷ 13 ∷ 10 ∷ 13 ∷ 10 ∷ []) ∷ [])

abbrev server : Connection
server = socket 4 []

abbrev all_ready : List PollFd → PollReturn
all_ready fds = ready (λ i. record {
  pollin = i == 1;
  pollout = true;
  pollerr = false;
  pollhup = false;
  pollnval = false;
})

abbrev random : ℕ → ℕ
random n = n

Meets-serve_connection_example :
    Meets
      (serve
        (all_ready ∷ all_ready ∷ [])
        (proxy_poller (λ n. true) (λ pair. true) (init server client [] 80 random))
        (init server client [] 80 random))
      (λ r. IsAccounted r.1)
Meets-serve_connection_example =
    Meets-serve_connection (λ n. true) (λ pair. true) (all_ready ∷ all_ready ∷ []) server client []
      80 random refl refl

abbrev responses : List HttpResponse → List Bool → HttpMessageSequence response_parser
responses ms own = record {
  buffer = [];
  complete_messages = ms;
  message_in_progress = blank Response.response;
  own = own;
}

Meets-parse_responses_example :
    Meets
      (parse response_parser (b'H' ∷ 13 ∷ 10 ∷ []) (responses [] (false ∷ [])))
      (Balanced (responses [] (false ∷ [])))
Meets-parse_responses_example =
    Meets-parse_responses (b'H' ∷ 13 ∷ 10 ∷ []) (responses [] (false ∷ []))

-- The request, and one for another object.
abbrev second : HttpRequest
second = record request { first_line = b'G' ∷ b'E' ∷ b'T' ∷ 32 ∷ b'/' ∷ b'b' ∷ 32 ∷ b'H' ∷ [] }

abbrev requests : List HttpRequest → HttpMessageSequence request_parser
requests ms = record {
  buffer = [];
  complete_messages = ms;
  message_in_progress = blank Request.request;
  own = tt;
}

abbrev pair : ReqResPair
pair = record { ip = []; port = 80; is_https = false; req = none; res = none }

abbrev two_requests : Proxy
two_requests = record {
  server = server;
  client = client;
  request_parser = requests (request ∷ second ∷ []);
  response_parser = responses [] [];
  current_pair = pair;
  random = random;
  writes = [];
}

abbrev one_sent : Proxy
one_sent = record two_requests {
  server = record server { written = text_of (recorded request) ∷ [] };
  request_parser = requests (second ∷ []);
  response_parser = responses [] (false ∷ []);
  current_pair = record pair { req = some (recorded request) };
}

abbrev both_sent : Proxy
both_sent = record two_requests {
  server = record server { written = text_of (recorded request) ∷ text_of (recorded second) ∷ [] };
  request_parser = requests [];
  response_parser = responses [] (false ∷ false ∷ []);
  current_pair = record pair { req = some (recorded second) };
}

to_server-one : to_server two_requests ≡ ok (continue_, one_sent)
unfolding to_server front pop defined str new_request_arrived is_head toprotobuf write
to_server-one = refl

send_two-both : send_two two_requests ≡ ok both_sent
unfolding send_two to_server front pop defined str new_request_arrived is_head toprotobuf write
send_two-both = refl

abbrev answered : List HttpResponse → Proxy → Proxy
answered ms w = record w { response_parser = responses ms [] }

to_client-paired_example :
    Returns (to_client (λ n. true) (λ p. true) (answered (response ∷ []) one_sent)) (λ d.
      (d.1.writes
        ≡ (0, record pair { req = some (recorded request); res = some (recorded response) }) ∷ [])
      × (d.1.current_pair ≡ pair))
to_client-paired_example =
    to_client-paired (λ n. true) (λ p. true) two_requests one_sent
      (answered (response ∷ []) one_sent) request (second ∷ []) response [] refl refl to_server-one
      refl refl refl refl refl

-- The first response is recorded with the second request.
to_client-mispaired_example :
    Returns
      (to_client (λ n. true) (λ p. true) (answered (response ∷ response ∷ []) both_sent))
      (λ d.
        (d.1.writes
          ≡ (0, record pair { req = some (recorded second); res = some (recorded response) }) ∷ [])
        × (to_client (λ n. true) (λ p. true) d.1 ≡ err exception))
to_client-mispaired_example =
    to_client-mispaired (λ n. true) (λ p. true) two_requests both_sent
      (answered (response ∷ response ∷ []) both_sent) request second [] response response [] refl
      refl refl send_two-both refl refl refl refl refl refl
