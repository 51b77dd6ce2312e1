-- ===== src/Tests/Replays.antt =====
-- Requests that are replayed.
use mpshell_ext.Prelude.{◌≡◌, ◌++◌, refl, true, false, [], ◌∷◌, none, some, arith}
use mpshell_ext.Prelude.Result.{ok, Returns}
use mpshell_ext.Packet.{Bytes}
use mpshell_ext.Http.Text.{
  find, strip_initial_whitespace, equivalent_strings, same_lower, http_to_lower,
}
use mpshell_ext.Http.Header
use mpshell_ext.Http.Message.{complete, find_header, str}
use mpshell_ext.Http.Message.Laws.{recorded, toprotobuf-recorded}
use mpshell_ext.Http.Request.{HttpRequest}
use mpshell_ext.Http.Response.{HttpResponse}
use mpshell_ext.Http.Sequence.Steps.{IsPlain}
use mpshell_ext.Replay.{
  Environment, Exchange, check_all, check_headers, check_saved, compare_requests, replay, up_to,
}
use mpshell_ext.Replay.Substring.{at, assign_at, cell, fill_row, fill_rows, longest_substr}
use mpshell_ext.Replay.Substring.Laws.{IsLongest, longest_substr-IsLongest}
use mpshell_ext.Replay.Closest.{IsShort}
use mpshell_ext.Replay.Search.{All-candidates}
use mpshell_ext.Replay.Answer.{IsReply, replay-IsReply}
use mpshell_ext.Replay.Recorded.{IsRequestOf, IsRecorded, replay-recorded}
use mpshell_ext.Replay.Unchecked.{accepting, compare_requests-accepting}

abbrev xab : Bytes
xab = b'x' ∷ b'a' ∷ b'b' ∷ []

abbrev abz : Bytes
abz = b'a' ∷ b'b' ∷ b'z' ∷ []

-- They share "ab".
longest_substr-xab : longest_substr xab abz ≡ ok 2
unfolding longest_substr fill_rows fill_row cell at assign_at
longest_substr-xab = refl

longest_substr-IsLongest_example : Returns (longest_substr xab abz) (IsLongest xab abz)
longest_substr-IsLongest_example = longest_substr-IsLongest xab abz (omega arith) (omega arith)

-- "GET /?q H" with a header "Host: h".
abbrev pub request : HttpRequest
request = record {
  expected_body_size_ = (true, 0);
  first_line = b'G' ∷ b'E' ∷ b'T' ∷ 32 ∷ b'/' ∷ b'?' ∷ b'q' ∷ 32 ∷ b'H' ∷ [];
  headers = record { key = b'H' ∷ b'o' ∷ b's' ∷ b't' ∷ []; value = b'h' ∷ [] } ∷ [];
  body = [];
  state = complete;
  extra = tt;
}

abbrev pub response : HttpResponse
response = record {
  expected_body_size_ = (true, 2);
  first_line = b'H' ∷ 32 ∷ b'2' ∷ b'0' ∷ b'0' ∷ 32 ∷ b'O' ∷ b'K' ∷ [];
  headers = [];
  body = b'h' ∷ b'i' ∷ [];
  state = complete;
  extra = record { request_was_head = false; body_parser = none };
}

abbrev exchange : Exchange
exchange = record { req = recorded request; res = recorded response }

abbrev environment : Environment
environment = record {
  request_method = b'G' ∷ b'E' ∷ b'T' ∷ [];
  request_uri = b'/' ∷ b'?' ∷ b'q' ∷ [];
  server_protocol = b'H' ∷ [];
  script_name = b'/' ∷ [];
  http_accept_encoding = some (b'g' ∷ []);
  http_accept_language = none;
  http_host = some (b'h' ∷ []);
}

-- The same with another query, so that the exchange is a candidate.
abbrev other_query : Environment
other_query = record environment { request_uri = b'/' ∷ b'?' ∷ b'r' ∷ [] }

host-IsPlain : IsPlain (record { key = b'H' ∷ b'o' ∷ b's' ∷ b't' ∷ []; value = b'h' ∷ [] })
unfolding find strip_initial_whitespace Header.str
host-IsPlain = record { key = refl; value = refl; some_value = refl; line = refl }

request-IsRequestOf : IsRequestOf environment request
unfolding find_header equivalent_strings strip_initial_whitespace same_lower http_to_lower
request-IsRequestOf = record {
  completed = refl;
  line = refl;
  plain = (host-IsPlain, tt);
  no_encoding = refl;
  no_language = refl;
  host = refl;
}

exchange-IsRecorded : IsRecorded request response exchange
exchange-IsRecorded = record {
  req = toprotobuf-recorded request refl;
  res = toprotobuf-recorded response refl;
}

replay-recorded_example : Returns (str response) (λ text.
    replay environment ([] ++ exchange ∷ [])
    ≡ ok (record { output = text ++ 10 ∷ []; success = true }))
replay-recorded_example =
    replay-recorded environment request response [] exchange [] request-IsRequestOf refl
      exchange-IsRecorded tt

readable : check_all other_query exchange.req ≡ ok true
unfolding check_all check_headers check_saved Header.parse Header.str Header.strip_value find
    strip_initial_whitespace equivalent_strings same_lower http_to_lower up_to
readable = refl

replay-IsReply_example :
    Returns (replay other_query (exchange ∷ [])) (IsReply other_query (exchange ∷ []))
replay-IsReply_example =
    replay-IsReply other_query (exchange ∷ []) ((true, readable), tt) (omega arith)
      (All-candidates other_query IsShort (exchange ∷ []) (omega arith, tt))

compare_requests-accepting_example :
    compare_requests (accepting none (some xab) environment) exchange []
    ≡ compare_requests environment exchange []
compare_requests-accepting_example =
    compare_requests-accepting environment none (some xab) request exchange [] refl
      (toprotobuf-recorded request refl) (host-IsPlain, tt) (refl, tt)
