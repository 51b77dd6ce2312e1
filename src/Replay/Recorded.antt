-- ===== src/Replay/Recorded.antt =====
-- replayserver.cc on what http_message.cc records: the answer to a request that was recorded.
use mathlib.Core.List.{append_assoc}
use mpshell_ext.Prelude.{
  ◌≡◌, refl, sym, ap, subst, ◌∙◌, Bool, true, false, List, [], ◌∷◌, ◌++◌, none, if◌then◌else◌, All,
}
use mpshell_ext.Prelude.Result.{ok, Returns}
use mpshell_ext.Http.Text.{crlf, concat}
use mpshell_ext.Http.Header.{HttpHeader}
use mpshell_ext.Http.Message.{HttpMessage, RecordedMessage, complete, find_header, toprotobuf, str}
use mpshell_ext.Http.Message.Laws.{text_of, toprotobuf-recorded, toprotobuf-str}
use mpshell_ext.Http.Sequence.Steps.{IsPlain}
use mpshell_ext.Replay.{
  Environment, Exchange, accept_encoding_key, accept_language_key, host_key, request_line,
  check_all, return_message, replay,
}
use mpshell_ext.Replay.Search.{Accepted, Rejected}
use mpshell_ext.Replay.Answer.{replay-accepted}
use mpshell_ext.Replay.Saved.{
  same_bytes_refl, lines, agrees_if, check_headers-lines, agrees_if-none, agrees_if_refl,
}

-- `env` is what a server tells of the request `m`: no header has a name that is an environment
-- variable's, and the host is that of the header.
pub record IsRequestOf (env : Environment) {E : Type 0} (m : HttpMessage E) : Type 0 where
  pub completed : m.state ≡ complete
  pub line : request_line env ≡ m.first_line ++ crlf
  pub plain : All IsPlain m.headers
  pub no_encoding : find_header accept_encoding_key m.headers ≡ none
  pub no_language : find_header accept_language_key m.headers ≡ none
  pub host : env.http_host ≡ find_header host_key m.headers

ok_test : (b : Bool) → (if b then ok true else ok false) ≡ ok b
ok_test true = refl
ok_test false = refl

pub check_all-lines :
    (env : Environment) (hs : List HttpHeader) (r : RecordedMessage)
    → All IsPlain hs
    → r.headers ≡ lines hs
    → find_header accept_encoding_key hs ≡ none
    → find_header accept_language_key hs ≡ none
    → check_all env r ≡ ok (agrees_if env.http_host (find_header host_key hs))
unfolding check_all
check_all-lines env hs r p e h k =
    rw
      (
        check_headers-lines env.http_accept_encoding accept_encoding_key hs r p e,
        check_headers-lines env.http_accept_language accept_language_key hs r p e,
        check_headers-lines env.http_host host_key hs r p e,
        h,
        k,
        agrees_if-none,
      )
      (rw (agrees_if-none env.http_accept_language)
        (ok_test (agrees_if env.http_host (find_header host_key hs))))

Accepted-of_request :
    (env : Environment) {E : Type 0} (m : HttpMessage E) (q : Exchange)
    → IsRequestOf env m
    → q.req.first_line ≡ m.first_line ++ crlf
    → q.req.headers ≡ lines m.headers
    → Accepted env q
Accepted-of_request env m q h e f = (
  rw (h.line, e) (same_bytes_refl (m.first_line ++ crlf)),
  check_all-lines env m.headers q.req h.plain f h.no_encoding h.no_language
      ∙ rw (sym h.host) (ap ok (agrees_if_refl env.http_host)),
)

-- What is recorded of two messages.
pub record IsRecorded {E F : Type 0} (m : HttpMessage E) (answer : HttpMessage F) (r : Exchange)
    : Type 0 where
  pub req : toprotobuf m ≡ ok r.req
  pub res : toprotobuf answer ≡ ok r.res

ok-injective : {A : Type 0} (a b : A) → ok a ≡ ok b → a ≡ b
ok-injective a b e = cc

pub recorded_parts :
    {E : Type 0} (m : HttpMessage E) (q : RecordedMessage)
    → m.state ≡ complete
    → toprotobuf m ≡ ok q
    → (q.first_line ≡ m.first_line ++ crlf) × (q.headers ≡ lines m.headers)
recorded_parts m q h e =
    let whole = ok-injective _ _ (sym (toprotobuf-recorded m h) ∙ e) in
    (ap (λ x. x.first_line) (sym whole), ap (λ x. x.headers) (sym whole))

recorded_text :
    {E : Type 0} (m : HttpMessage E) (q : RecordedMessage)
    → m.state ≡ complete
    → toprotobuf m ≡ ok q
    → str m ≡ ok (text_of q)
recorded_text m q h e =
    let (s, f, g) = toprotobuf-str m h in
    subst (λ x. str m ≡ ok (text_of x)) (ok-injective s q (sym f ∙ e)) g

-- What is printed for an exchange.
return_message-text_of : (r : Exchange) → return_message r ≡ text_of r.res ++ 10 ∷ []
unfolding return_message
return_message-text_of r = sym (
    append_assoc (r.res.first_line ++ concat r.res.headers) r.res.body (10 ∷ [])
    ∙ append_assoc r.res.first_line (concat r.res.headers) (r.res.body ++ 10 ∷ []))

-- The program answers a request that was recorded with the text of its response, and a line end,
-- unless an earlier exchange is accepted.
pub replay-recorded :
    (env : Environment) {E F : Type 0} (m : HttpMessage E) (answer : HttpMessage F)
    (before : List Exchange) (r : Exchange) (after : List Exchange)
    → IsRequestOf env m
    → answer.state ≡ complete
    → IsRecorded m answer r
    → All (Rejected env) before
    → Returns (str answer) (λ text.
      replay env (before ++ r ∷ after) ≡ ok (record { output = text ++ 10 ∷ []; success = true }))
replay-recorded env m answer before r after h c recorded rejected =
    let (line, headers) = recorded_parts m r.req h.completed recorded.req in
    (
      text_of r.res,
      recorded_text answer r.res c recorded.res,
      replay-accepted env before r after rejected (Accepted-of_request env m r h line headers)
          ∙ ap (λ t. ok (record { output = t; success = true })) (return_message-text_of r),
    )
