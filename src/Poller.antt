-- ===== src/Poller.antt =====
-- poller.hh and .cc: callbacks on file descriptors. What the callbacks read and change is a state
-- `W`, and what ::poll returns is an argument.
pub mod Laws
use mpshell_ext.Prelude.{
  ℕ, suc, Bool, true, false, ◌&&◌, ◌||◌, not, List, [], ◌∷◌, ◌++◌, Option, none, some, ◌==◌,
  if◌then◌else◌, length,
}
use mpshell_ext.Prelude.Result.{
  Result, ok, err, assertion_failed, exception, out_of_range, ◌>>=◌, ◌>>◌, assert,
}

-- What the poller asks of a FileDescriptor: num() and eof().
pub record FileDescriptor : Type 0 where
  pub num : ℕ
  pub eof : Bool

-- POLLIN and POLLOUT.
pub data PollDirection : Type 0 where
  direction_in : PollDirection
  direction_out : PollDirection

-- The bits of `revents` that are looked at.
pub record Revents : Type 0 where
  pub pollin : Bool
  pub pollout : Bool
  pub pollerr : Bool
  pub pollhup : Bool
  pub pollnval : Bool

-- `events` is 0 or one direction.
pub record PollFd : Type 0 where
  pub fd : ℕ
  pub events : Option PollDirection

-- Poller::Action::Result
pub data ActionResult : Type 0 where
  continue_ : ActionResult
  exit : ℕ → ActionResult
  cancel : ActionResult

-- Poller::Result
pub data PollResult : Type 0 where
  success : PollResult
  timeout : PollResult
  exited : ℕ → PollResult

-- What the system call returns: -1, 0, or a number of descriptors and the bits of each.
pub data PollReturn : Type 0 where
  failed : PollReturn
  timed_out : PollReturn
  ready : (ℕ → Revents) → PollReturn

pub record Action (W : Type 0) : Type 0 where
  pub fd : W → FileDescriptor
  pub direction : PollDirection
  pub callback : W → Result (ActionResult × W)
  pub when_interested : W → Bool
  pub active : Bool

pub record Poller (W : Type 0) : Type 0 where
  pub actions_ : List (Action W)
  pub pollfds_ : List PollFd

-- `direction == Direction::In`
abbrev pub is_in : PollDirection → Bool
is_in direction_in = true
is_in direction_out = false

-- revents & events
unfoldable pub asked_for : Revents → Option PollDirection → Bool
asked_for revents none = false
asked_for revents (some direction_in) = revents.pollin
asked_for revents (some direction_out) = revents.pollout

-- revents & (POLLERR | POLLHUP | POLLNVAL)
abbrev pub broken : Revents → Bool
broken revents = revents.pollerr || (revents.pollhup || revents.pollnval)

-- Some member has events.
unfoldable pub any_events : List PollFd → Bool
any_events [] = false
any_events (f ∷ fds) = elim f.events [ none ↦ any_events fds | some d ↦ true ]

-- The result, the actions and the state after a round of callbacks.
abbrev pub Polled : Type 0 → Type 0
Polled W = PollResult × List (Action W) × W

module _ {W : Type 0} where
  abbrev pub empty : Poller W
  empty = record { actions_ = []; pollfds_ = [] }

  unfoldable pub add_action : Action W → W → Poller W → Poller W
  add_action action w p = record {
    actions_ = p.actions_ ++ action ∷ [];
    pollfds_ = p.pollfds_ ++ record { fd = (action.fd w).num; events = none } ∷ [];
  }

  -- The events of an action. A descriptor that is read is not polled once it has ended.
  unfoldable pub events_of : Action W → W → Option PollDirection
  events_of a w =
      if is_in a.direction && (a.fd w).eof
      then none
      else if a.active && a.when_interested w
      then some a.direction
      else none

  -- tell poll whether we care about each fd
  unfoldable pub set_events : List (Action W) → List PollFd → W → Result (List PollFd)
  set_events [] fds w = ok fds
  set_events (a ∷ actions) [] w = err out_of_range
  set_events (a ∷ actions) (f ∷ fds) w = do
    assert (f.fd == (a.fd w).num)
    rest ← set_events actions fds w
    ok (record f { events = events_of a w } ∷ rest)

  -- An action before those of the rest of the round.
  abbrev pub before : Action W → Result (Polled W) → Result (Polled W)
  before a rest = do r ← rest; ok (r.0, a ∷ r.1, r.2)

  -- The loop over the descriptors, from index `i` on: it runs the callbacks of those for which an
  -- event was returned that was asked for.
  unfoldable pub dispatch :
      (ℕ → Revents) → ℕ → List (Action W) → List PollFd → W → Result (Polled W)
  dispatch revents i actions [] w = ok (success, actions, w)
  dispatch revents i [] (f ∷ fds) w = err out_of_range
  dispatch revents i (a ∷ actions) (f ∷ fds) w =
      if broken (revents i)
      then ok (exited 0, a ∷ actions, w)
      else elim (asked_for (revents i) f.events) [
        | false ↦ before a (dispatch revents (suc i) actions fds w)
        | true ↦ do
          result ← a.callback w
          elim result.0 [
            | exit status ↦ ok (exited status, a ∷ actions, result.1)
            | cancel ↦
                before (record a { active = false }) (dispatch revents (suc i) actions fds result.1)
            | continue_ ↦ before a (dispatch revents (suc i) actions fds result.1)
          ]
      ]

  unfoldable pub after_poll : PollReturn → Poller W → W → Result (PollResult × Poller W × W)
  after_poll failed p w = err exception
  after_poll timed_out p w = ok (timeout, p, w)
  after_poll (ready revents) p w = do
    r ← dispatch revents 0 p.actions_ p.pollfds_ w
    ok (r.0, record p { actions_ = r.1 }, r.2)

  unfoldable pub poll :
      (List PollFd → PollReturn) → Poller W → W → Result (PollResult × Poller W × W)
  poll os_poll p w = do
    assert (length p.pollfds_ == length p.actions_)
    fds ← set_events p.actions_ p.pollfds_ w
    let p' = record p { pollfds_ = fds }
    if any_events fds then after_poll (os_poll fds) p' w else ok (exited 0, p', w)
