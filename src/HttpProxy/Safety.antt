-- ===== src/HttpProxy/Safety.antt =====
-- http_proxy.cc: what holds of a connection of the proxy whatever the sockets and poll do.
use mpshell_ext.Prelude.{ℕ, ◌+◌, ◌≡◌, refl, sym, ap, subst, ◌∙◌, Bool, List, [], ◌∷◌, length}
use mpshell_ext.Prelude.Result.{ok}
use mpshell_ext.Prelude.Ends.{Meets, Meets->>=, Meets-imp}
use mpshell_ext.Prelude.Stream.{Stream}
use mpshell_ext.Packet.{Bytes}
use mpshell_ext.Poller
use mpshell_ext.Poller.{
  PollDirection, direction_in, direction_out, PollFd, PollReturn, Action, ActionResult, Poller,
  PollResult, success, timeout, exited, poll,
}
use mpshell_ext.Poller.Laws.{IsSound, IsPolled, Meets-poll, IsSound-Deactivated}
use mpshell_ext.HttpProxy.{
  ReqResPair, Connection, Proxy, from_server, from_client, to_server, to_client, server_in,
  client_in, server_out, client_out, proxy_poller, serve, init,
}
use mpshell_ext.HttpProxy.Callbacks.{
  IsAccounted, Needs, Needs-interested, Keeps, IsInput, IsForwarded, Meets-from_server,
  Meets-from_client, Meets-to_server, Meets-to_client,
}

module _ (opens : ℕ → Bool) (serializes : ReqResPair → Bool) where
  abbrev behind_client_in : List (Action Proxy)
  behind_client_in = server_out ∷ client_out opens serializes ∷ []

  abbrev actions : List (Action Proxy)
  actions = server_in ∷ client_in ∷ behind_client_in

  IsSound-actions : IsSound IsAccounted Needs Needs-interested actions
  IsSound-actions = (
    λ w v u.
        Meets-imp (IsInput w) (Keeps (client_in ∷ behind_client_in) w) (from_server w)
          (λ r h. (h.0, ((λ n. n), (h.1, (h.2, tt))))) (Meets-from_server w v),
    (
      λ w v u.
          Meets-imp (IsInput w) (Keeps behind_client_in w) (from_client w)
            (λ r h. (h.0, (h.1, (h.2, tt)))) (Meets-from_client w v),
      (
        λ w v u.
            Meets-imp (IsForwarded w) (Keeps (client_out opens serializes ∷ []) w) (to_server w)
              (λ r h. (h.0, (h.1, tt))) (Meets-to_server w v u),
        (
          λ w v u.
              Meets-imp (λ r. IsAccounted r.1) (Keeps [] w) (to_client opens serializes w)
                (λ r h. (h, tt)) (Meets-to_client opens serializes w v u),
          tt,
        ),
      ),
    ),
  )

  actions_lem : (w : Proxy) → (proxy_poller opens serializes w).actions_ ≡ actions
  unfolding proxy_poller Poller.add_action
  actions_lem w = refl

abbrev IsServed : Poller Proxy × Proxy → Type 0
IsServed r = IsAccounted r.1

Meets-serve :
    (answers : List (List PollFd → PollReturn)) (p : Poller Proxy) (w : Proxy)
    → IsSound IsAccounted Needs Needs-interested p.actions_
    → IsAccounted w
    → Meets (serve answers p w) IsServed
unfolding serve
Meets-serve [] p w s v = v
Meets-serve (answer ∷ answers) p w s v =
    Meets->>= (IsPolled IsAccounted Needs Needs-interested p.actions_) IsServed (poll answer p w) _
      (Meets-poll IsAccounted Needs Needs-interested answer p w s v)
      (λ r k. polled r.0 r.1 r.2 k.invariant (
        Meets-serve answers r.1 r.2
          (IsSound-Deactivated IsAccounted Needs Needs-interested k.same_actions s) k.invariant))
  where
    polled :
        (result : PollResult) (p' : Poller Proxy) (w' : Proxy)
        → IsAccounted w'
        → Meets (serve answers p' w') IsServed
        → Meets (elim result [ exited status ↦ ok (p', w') | _ ↦ serve answers p' w' ]) IsServed
    polled success p' w' v' h = h
    polled timeout p' w' v' h = h
    polled (exited status) p' w' v' h = v'

IsAccounted-init :
    (server client : Connection) (ip : Bytes) (port : ℕ) (random : Stream)
    → server.written ≡ []
    → client.written ≡ []
    → IsAccounted (init server client ip port random)
unfolding init
IsAccounted-init server client ip port random e f = record {
  answers = ap length e ∙ ap (λ l. length l + 0) (sym f);
  recorded = sym f;
  paired = tt;
  current = tt;
}

-- From two connections on which nothing has been written, whatever the sockets deliver, poll and
-- random return and as long as the loop runs: no callback takes the front of an empty queue and
-- parsing ends. If the call returns, as many requests have been sent to the server as there are
-- answers to the client and responses that are complete, begun or expected in the parser; the answers
-- are, one for one and in order, the texts of the responses that were written to files; and each of
-- these was written with a request that had been sent.
pub Meets-serve_connection :
    (opens : ℕ → Bool) (serializes : ReqResPair → Bool) (answers : List (List PollFd → PollReturn))
    (server client : Connection) (ip : Bytes) (port : ℕ) (random : Stream)
    → server.written ≡ []
    → client.written ≡ []
    → Meets
        (serve answers
          (proxy_poller opens serializes (init server client ip port random))
          (init server client ip port random))
        (λ r. IsAccounted r.1)
Meets-serve_connection opens serializes answers server client ip port random e f =
    let w = init server client ip port random in
    Meets-serve answers (proxy_poller opens serializes w) w
      (subst (IsSound IsAccounted Needs Needs-interested) (sym (actions_lem opens serializes w))
        (IsSound-actions opens serializes))
      (IsAccounted-init server client ip port random e f)
