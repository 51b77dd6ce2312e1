-- ===== src/HttpProxy.antt =====
-- http_proxy.hh and .cc: one connection of the recording proxy. Its four callbacks change what
-- handle_tcp declares, and what is read and written at the two sockets is kept as lists.
pub mod Callbacks
pub mod Safety
pub mod Pairing
pub mod Files
use mpshell_ext.Prelude.{
  ℕ, zero, suc, Bool, true, false, not, List, [], ◌∷◌, ◌++◌, Option, none, some, ◌==◌,
  if◌then◌else◌, is_nil,
}
use mpshell_ext.Prelude.Result.{Result, ok, err, exception, undefined, ◌>>=◌, ◌>>◌, require}
use mpshell_ext.Prelude.Stream.{Stream, now, later}
use mpshell_ext.Packet.{Bytes}
use mpshell_ext.Poller
use mpshell_ext.Poller.{
  FileDescriptor, PollFd, PollReturn, Action, ActionResult, continue_, direction_in, direction_out,
  Poller, PollResult, exited,
}
use mpshell_ext.Http.Message.{RecordedMessage, blank, toprotobuf, str}
use mpshell_ext.Http.Response.{HttpResponse, response}
use mpshell_ext.Http.Request.{request}
use mpshell_ext.Http.Sequence
use mpshell_ext.Http.Sequence.{
  HttpMessageSequence, SequenceType, request_parser, response_parser, front, pop, parse,
  new_request_arrived,
}

-- HTTP_Record::reqrespair. A message that is not set is `none`.
pub record ReqResPair : Type 0 where
  pub ip : Bytes
  pub port : ℕ
  pub is_https : Bool
  pub req : Option RecordedMessage
  pub res : Option RecordedMessage

-- A socket: its descriptor, what read() will return until the other side has closed, and what has
-- been written.
pub record Connection : Type 0 where
  pub fd : FileDescriptor
  pub arriving : List Bytes
  pub written : List Bytes

-- The variables of handle_tcp, the numbers that random() will return, and what has been written to
-- files, in order, each with the number of its file. A file is opened with neither O_EXCL nor
-- O_TRUNC: a write to a number that has come before overwrites the start of that file.
pub record Proxy : Type 0 where
  pub server : Connection
  pub client : Connection
  pub request_parser : HttpMessageSequence request_parser
  pub response_parser : HttpMessageSequence response_parser
  pub current_pair : ReqResPair
  pub random : Stream
  pub writes : List (ℕ × ReqResPair)

-- fd.read(): an empty string is the end.
unfoldable pub read : Connection → Bytes × Connection
read c = elim c.arriving [
  | [] ↦ ([], record c { fd = record c.fd { eof = true } })
  | buffer ∷ rest ↦ (
    buffer,
    record c {
      fd = record c.fd { eof = if is_nil buffer then true else c.fd.eof };
      arriving = rest;
    },
  )
]

unfoldable pub write : Bytes → Connection → Connection
write buffer c = record c { written = c.written ++ buffer ∷ [] }

-- The front of an empty queue, and its removal, are undefined behaviour.
unfoldable pub defined {ℓ} : {A : Type ℓ} → Option A → Result A
defined none = err undefined
defined (some a) = ok a

-- responses from server go to response parser
unfoldable pub from_server : Proxy → Result (ActionResult × Proxy)
from_server w = do
  let r = read w.server
  parser ← parse response_parser r.0 w.response_parser
  ok (continue_, record w { server = r.1; response_parser = parser })

-- requests from client go to request parser
unfoldable pub from_client : Proxy → Result (ActionResult × Proxy)
from_client w = do
  let r = read w.client
  parser ← parse request_parser r.0 w.request_parser
  ok (continue_, record w { client = r.1; request_parser = parser })

-- completed requests from client are serialized and sent to server
unfoldable pub to_server : Proxy → Result (ActionResult × Proxy)
to_server w = do
  m ← defined (front request_parser w.request_parser)
  text ← str m
  responses ← new_request_arrived m w.response_parser
  recorded ← toprotobuf m
  requests ← defined (pop request_parser w.request_parser)
  ok (
    continue_,
    record w {
      server = write text w.server;
      response_parser = responses;
      current_pair = record w.current_pair { req = some recorded };
      request_parser = requests;
    },
  )

abbrev pub server_in : Action Proxy
server_in = record {
  fd = λ w. w.server.fd;
  direction = direction_in;
  callback = from_server;
  when_interested = λ w. not w.client.fd.eof;
  active = true;
}

abbrev pub client_in : Action Proxy
client_in = record {
  fd = λ w. w.client.fd;
  direction = direction_in;
  callback = from_client;
  when_interested = λ w. not w.server.fd.eof;
  active = true;
}

abbrev pub server_out : Action Proxy
server_out = record {
  fd = λ w. w.server.fd;
  direction = direction_out;
  callback = to_server;
  when_interested = λ w. not (is_nil w.request_parser.complete_messages);
  active = true;
}

-- Whether the file of this number can be opened, and whether the pair can be serialized.
module _ (opens : ℕ → Bool) (serializes : ReqResPair → Bool) where
  -- The pair with the response, if there is a request in it.
  unfoldable pub write_pair : Option RecordedMessage → HttpResponse → Proxy → Result Proxy
  write_pair none m w = err exception
  write_pair (some q) m w = do
    recorded ← toprotobuf m
    let pair = record w.current_pair { res = some recorded }
    require (serializes pair) exception
    ok (record w {
      writes = w.writes ++ (now w.random, pair) ∷ [];
      random = later w.random;
      current_pair = record pair { req = none; res = none };
    })

  unfoldable pub reqres_to_protobuf : HttpResponse → Proxy → Result Proxy
  reqres_to_protobuf m w = do
    require (opens (now w.random)) exception
    write_pair w.current_pair.req m w

  -- completed responses from server are serialized and sent to client
  unfoldable pub to_client : Proxy → Result (ActionResult × Proxy)
  to_client w = do
    m ← defined (front response_parser w.response_parser)
    text ← str m
    recorded ← reqres_to_protobuf m (record w { client = write text w.client })
    responses ← defined (pop response_parser w.response_parser)
    ok (continue_, record recorded { response_parser = responses })

  abbrev pub client_out : Action Proxy
  client_out = record {
    fd = λ w. w.client.fd;
    direction = direction_out;
    callback = to_client;
    when_interested = λ w. not (is_nil w.response_parser.complete_messages);
    active = true;
  }

  -- The poller with the four actions.
  unfoldable pub proxy_poller : Proxy → Poller Proxy
  proxy_poller w = Poller.add_action client_out w (
      Poller.add_action server_out w
        (Poller.add_action client_in w (Poller.add_action server_in w Poller.empty)))

-- The loop of handle_tcp, as far as it goes for these answers of the system call; an exception ends
-- it too, as the thread returns.
unfoldable pub serve :
    List (List PollFd → PollReturn) → Poller Proxy → Proxy → Result (Poller Proxy × Proxy)
serve [] p w = ok (p, w)
serve (answer ∷ answers) p w = do
  r ← Poller.poll answer p w
  let rest = serve answers r.1 r.2
  elim r.0 [ exited status ↦ ok (r.1, r.2) | _ ↦ rest ]

-- A proxy between two new connections.
unfoldable pub init : Connection → Connection → Bytes → ℕ → Stream → Proxy
init server client ip port random = record {
  server = server;
  client = client;
  request_parser = record {
    buffer = [];
    complete_messages = [];
    message_in_progress = blank request;
    own = tt;
  };
  response_parser = record {
    buffer = [];
    complete_messages = [];
    message_in_progress = blank response;
    own = [];
  };
  current_pair = record { ip = ip; port = port; is_https = port == 443; req = none; res = none };
  random = random;
  writes = [];
}
