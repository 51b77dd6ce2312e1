-- ===== src/Replay.antt =====
-- replayserver.cc: the answer to a request from the recorded exchanges, as a program that a web
-- server runs. What it prints is a value.
pub mod Substring
pub mod Closest
pub mod Search
pub mod Answer
pub mod Saved
pub mod Recorded
pub mod Unchecked
use mpshell_ext.Prelude.{
  ℕ, zero, suc, ◌+◌, Bool, true, false, List, [], ◌∷◌, ◌++◌, Option, none, some, if◌then◌else◌,
  take,
}
use mpshell_ext.Prelude.Result.{Result, ok, err, exception, out_of_range, ◌>>=◌}
use mpshell_ext.Packet.{Bytes}
use mpshell_ext.Http.Text.{crlf, concat, same_bytes, find, equivalent_strings}
use mpshell_ext.Http.Header
use mpshell_ext.Http.Message.{RecordedMessage}
use mpshell_ext.Replay.Substring.{int_less, longest_substr}

-- What the program reads with getenv. CGI sets the first four; a header that the request does not
-- have is not set.
pub record Environment : Type 0 where
  pub request_method : Bytes
  pub request_uri : Bytes
  pub server_protocol : Bytes
  pub script_name : Bytes
  pub http_accept_encoding : Option Bytes
  pub http_accept_language : Option Bytes
  pub http_host : Option Bytes

-- HTTP_Record::reqrespair, of which the address of the server is not used here.
pub record Exchange : Type 0 where
  pub req : RecordedMessage
  pub res : RecordedMessage

-- `str.substr( 0, str.find( needle ) )`
unfoldable pub up_to : Bytes → Bytes → Bytes
up_to needle str = elim (find needle str) [ none ↦ str | some i ↦ take i str ]

-- The loop over the headers of a saved request.
unfoldable pub check_saved : Bytes → Bytes → List Bytes → Result Bool
check_saved env_value stored_header [] = ok true
check_saved env_value stored_header (h ∷ hs) = do
  let rest = check_saved env_value stored_header hs
  current_header ← Header.parse h
  if equivalent_strings current_header.key stored_header
      then ok (same_bytes (up_to crlf current_header.value) env_value)
      else rest

-- compare specific env header value and stored header value (if either does not exist, return true)
unfoldable pub check_headers : Option Bytes → Bytes → RecordedMessage → Result Bool
check_headers none stored_header saved_req = ok true
check_headers (some env_value) stored_header saved_req =
    check_saved env_value stored_header saved_req.headers

abbrev pub accept_encoding_key : Bytes
accept_encoding_key =
    b'A' ∷ b'c' ∷ b'c' ∷ b'e' ∷ b'p' ∷ b't' ∷ b'_' ∷ b'E' ∷ b'n' ∷ b'c' ∷ b'o' ∷ b'd' ∷ b'i' ∷ b'n'
    ∷ b'g' ∷ []

abbrev pub accept_language_key : Bytes
accept_language_key =
    b'A' ∷ b'c' ∷ b'c' ∷ b'e' ∷ b'p' ∷ b't' ∷ b'_' ∷ b'L' ∷ b'a' ∷ b'n' ∷ b'g' ∷ b'u' ∷ b'a' ∷ b'g'
    ∷ b'e' ∷ []

abbrev pub host_key : Bytes
host_key = b'H' ∷ b'o' ∷ b's' ∷ b't' ∷ []

-- The request line of the environment.
abbrev pub request_line : Environment → Bytes
request_line env =
    env.request_method ++ (32 ∷ (env.request_uri ++ (32 ∷ (env.server_protocol ++ crlf))))

-- The request without its query string.
abbrev pub no_query : Environment → Bytes
no_query env = env.request_method ++ (32 ∷ env.script_name)

-- `return` what the check says, or go on.
abbrev pub and_then : Result Bool → Result Bool → Result Bool
and_then check next = do passed ← check; if passed then next else ok false

-- The three checks of environment variables.
unfoldable pub check_all : Environment → RecordedMessage → Result Bool
check_all env saved_req =
    and_then (check_headers env.http_accept_encoding accept_encoding_key saved_req) (
      and_then (check_headers env.http_accept_language accept_language_key saved_req)
        (and_then (check_headers env.http_host host_key saved_req) (ok true)))

-- Whether a request whose line differs is a possible match: its query starts at `query_loc`.
unfoldable pub possible_match : Environment → Option ℕ → Bytes → Bool
possible_match env none first_line = false
possible_match env (some query_loc) first_line =
    same_bytes (no_query env) (take query_loc first_line)

-- compare request_line and certain headers of incoming request and stored request
unfoldable pub compare_requests :
    Environment → Exchange → List Exchange → Result (Bool × List Exchange)
compare_requests env saved_record possible_matches =
    let query_loc = find (b'?' ∷ []) saved_record.req.first_line in
    if same_bytes (request_line env) saved_record.req.first_line
    then (do matches ← check_all env saved_record.req; ok (matches, possible_matches))
    else ok (
      false,
      if possible_match env query_loc saved_record.req.first_line
          then possible_matches ++ saved_record ∷ []
          else possible_matches,
    )

-- The values of longest_substr, in order.
unfoldable pub longest_strs : Bytes → List Exchange → Result (List ℕ)
longest_strs req [] = ok []
longest_strs req (r ∷ rs) = do
  value ← longest_substr req r.req.first_line
  rest ← longest_strs req rs
  ok (value ∷ rest)

-- std::max_element, from index `i` on: `best` is the index of the first largest value so far.
unfoldable pub max_from : ℕ → ℕ → ℕ → List ℕ → ℕ
max_from i best largest [] = best
max_from i best largest (v ∷ vs) =
    if int_less largest v then max_from (suc i) i v vs else max_from (suc i) best largest vs

unfoldable pub max_element : List ℕ → ℕ
max_element [] = 0
max_element (v ∷ vs) = max_from 1 0 v vs

-- return index of stored request_line with longest matching substring to current request
unfoldable pub closest_match : Environment → List Exchange → Result ℕ
closest_match env possible = do
  longest_str ← longest_strs (request_line env) possible
  ok (max_element longest_str)

-- write response to stdout
unfoldable pub return_message : Exchange → Bytes
return_message record_ =
    record_.res.first_line ++ (concat record_.res.headers ++ (record_.res.body ++ 10 ∷ []))

-- The loop over the recorded files: the exchange that matches, if any, and the possible matches.
unfoldable pub search :
    Environment → List Exchange → List Exchange → Result (Option Exchange × List Exchange)
search env [] possible_matches = ok (none, possible_matches)
search env (current_record ∷ files) possible_matches = do
  compared ← compare_requests env current_record possible_matches
  let rest = search env files compared.1
  if compared.0 then ok (some current_record, compared.1) else rest

abbrev pub not_found : Bytes
not_found =
    b'H' ∷ b'T' ∷ b'T' ∷ b'P' ∷ b'/' ∷ b'1' ∷ b'.' ∷ b'1' ∷ 32 ∷ b'2' ∷ b'0' ∷ b'0' ∷ 32 ∷ b'O'
    ∷ b'K' ∷ 13 ∷ 10 ∷ b'C' ∷ b'o' ∷ b'n' ∷ b't' ∷ b'e' ∷ b'n' ∷ b't' ∷ b'-' ∷ b'T' ∷ b'y' ∷ b'p'
    ∷ b'e' ∷ b':' ∷ 32 ∷ b'T' ∷ b'e' ∷ b'x' ∷ b't' ∷ b'/' ∷ b'h' ∷ b't' ∷ b'm' ∷ b'l' ∷ 13 ∷ 10
    ∷ b'C' ∷ b'o' ∷ b'n' ∷ b'n' ∷ b'e' ∷ b'c' ∷ b't' ∷ b'i' ∷ b'o' ∷ b'n' ∷ b':' ∷ 32 ∷ b'c' ∷ b'l'
    ∷ b'o' ∷ b's' ∷ b'e' ∷ 13 ∷ 10 ∷ b'C' ∷ b'o' ∷ b'n' ∷ b't' ∷ b'e' ∷ b'n' ∷ b't' ∷ b'-' ∷ b'L'
    ∷ b'e' ∷ b'n' ∷ b'g' ∷ b't' ∷ b'h' ∷ b':' ∷ 32 ∷ b'2' ∷ b'4' ∷ 13 ∷ 10 ∷ 13 ∷ 10 ∷ b'C' ∷ b'O'
    ∷ b'U' ∷ b'L' ∷ b'D' ∷ 32 ∷ b'N' ∷ b'O' ∷ b'T' ∷ 32 ∷ b'F' ∷ b'I' ∷ b'N' ∷ b'D' ∷ 32 ∷ b'A'
    ∷ b'N' ∷ 32 ∷ b'O' ∷ b'B' ∷ b'J' ∷ b'E' ∷ b'C' ∷ b'T' ∷ []

-- What is printed, and whether the exit status is EXIT_SUCCESS.
pub record Reply : Type 0 where
  pub output : Bytes
  pub success : Bool

-- return_message( possible_matches.at( index ) )
unfoldable pub return_at : List Exchange → ℕ → Result Reply
return_at [] index = err out_of_range
return_at (r ∷ rs) zero = ok (record { output = return_message r; success = true })
return_at (r ∷ rs) (suc index) = return_at rs index

-- The possible match with the largest shared substring.
unfoldable pub return_closest : Environment → List Exchange → Result Reply
return_closest env [] = ok (record { output = not_found; success = false })
return_closest env (p ∷ ps) = do index ← closest_match env (p ∷ ps); return_at (p ∷ ps) index

unfoldable pub reply_to : Environment → Option Exchange × List Exchange → Result Reply
reply_to env (some r, possible_matches) = ok (record { output = return_message r; success = true })
reply_to env (none, possible_matches) = return_closest env possible_matches

-- The `try` block of main(), over the exchanges that are parsed from the files of the folder.
unfoldable pub reply : Environment → List Exchange → Result Reply
reply env files = do found ← search env files []; reply_to env found

-- `catch ( const Exception & e ) { return EXIT_FAILURE; }`: nothing has been printed by then.
unfoldable pub catch_exception : Result Reply → Result Reply
catch_exception (ok r) = ok r
catch_exception (err exception) = ok (record { output = []; success = false })
catch_exception (err e) = err e

-- main()
unfoldable pub replay : Environment → List Exchange → Result Reply
replay env files = catch_exception (reply env files)
