-- ===== src/Poller/Laws.antt =====
-- poller.cc: what holds of every call of poll, from what holds of each callback.
use mpshell_ext.Prelude.{
  ℕ, suc, ◌≡◌, refl, ap, inl, inr, Bool, true, false, List, [], ◌∷◌, arith, ◌==◌, length,
  if◌then◌else◌, All, Bool-cases,
}
use mpshell_ext.Prelude.Result.{Result, ok, err, assert}
use mpshell_ext.Prelude.Ends.{Meets, Meets->>=, Meets-assert}
use mpshell_ext.Poller.{
  PollDirection, Revents, PollFd, PollReturn, failed, timed_out, ready, Action, ActionResult,
  continue_, exit, cancel, Poller, PollResult, Polled, exited, asked_for, broken, events_of,
  set_events, any_events, before, dispatch, after_poll, poll,
}

-- The same actions, of which some are no longer active.
pub data Deactivated {W : Type 0} : List (Action W) → List (Action W) → Type 0 where
  none_left : Deactivated [] []
  kept :
      {old new : List (Action W)} (a : Action W)
      → Deactivated old new
      → Deactivated (a ∷ old) (a ∷ new)
  cancelled :
      {old new : List (Action W)} (a : Action W)
      → Deactivated old new
      → Deactivated (a ∷ old) (record a { active = false } ∷ new)

Deactivated-refl : {W : Type 0} (old : List (Action W)) → Deactivated old old
Deactivated-refl [] = none_left
Deactivated-refl (a ∷ old) = kept a (Deactivated-refl old)

length-Deactivated :
    {W : Type 0} {old new : List (Action W)} → Deactivated old new → length old ≡ length new
length-Deactivated none_left = refl
length-Deactivated (kept a d) = ap suc (length-Deactivated d)
length-Deactivated (cancelled a d) = ap suc (length-Deactivated d)

-- `Needs direction when_interested w` is what a callback relies on, which its interest implies when
-- poll asks for it.
module _ {W : Type 0} (Invariant : W → Type 0) (Needs : PollDirection → (W → Bool) → W → Type 0)
    (interested : (d : PollDirection) (f : W → Bool) (w : W) → f w ≡ true → Needs d f w) where
  -- What the callback of an action relies on.
  abbrev pub Ready : Action W → W → Type 0
  Ready a w = Needs a.direction a.when_interested w

  -- What an action relies on in `w` is true in `w'` too.
  abbrev pub StaysReady : W → W → Action W → Type 0
  StaysReady w w' a = Ready a w → Ready a w'

  -- What a callback does where it is run: it keeps the invariant, and what `others` rely on.
  abbrev pub KeepsTo : List (Action W) → W → ActionResult × W → Type 0
  KeepsTo others w r = Invariant r.1 × All (StaysReady w r.1) others

  -- Each callback, where what it relies on is true, keeps the invariant and what the actions behind
  -- it rely on.
  abbrev pub IsSound : List (Action W) → Type 0
  IsSound [] = Unit
  IsSound (a ∷ actions) =
      ((w : W) → Invariant w → Ready a w → Meets (a.callback w) (KeepsTo actions w))
      × IsSound actions

  -- What an entry of pollfds_ asks for is what the action of the same index wants.
  abbrev IsWanted : W → List (Action W) → List PollFd → Type 0
  IsWanted w actions [] = Unit
  IsWanted w [] (f ∷ fds) = ⊥
  IsWanted w (a ∷ actions) (f ∷ fds) =
      ((revents : Revents) → asked_for revents f.events ≡ true → Ready a w) × IsWanted w actions fds

  events_of-interested :
      (a : Action W) (w : W) (revents : Revents)
      → asked_for revents (events_of a w) ≡ true
      → a.when_interested w ≡ true
  unfolding asked_for events_of
  events_of-interested a w revents h = ground arith

  IsWanted-set_events :
      (w : W) (actions : List (Action W)) (fds : List PollFd)
      → length fds ≡ length actions
      → Meets (set_events actions fds w) (IsWanted w actions)
  unfolding set_events
  IsWanted-set_events w [] [] e = tt
  IsWanted-set_events w [] (f ∷ fds) e = absurd (omega arith)
  IsWanted-set_events w (a ∷ actions) [] e = refl
  IsWanted-set_events w (a ∷ actions) (f ∷ fds) e =
      Meets->>= (λ u. f.fd == (a.fd w).num ≡ true) (IsWanted w (a ∷ actions))
        (assert (f.fd == (a.fd w).num)) _ (Meets-assert (f.fd == (a.fd w).num))
        (λ u same.
          Meets->>= (IsWanted w actions) (IsWanted w (a ∷ actions)) (set_events actions fds w) _
            (IsWanted-set_events w actions fds (omega arith))
            (λ rest wanted. (
              λ revents e.
                  interested a.direction a.when_interested w (events_of-interested a w revents e),
              wanted,
            )))

  IsWanted-kept :
      (w w' : W) (actions : List (Action W)) (fds : List PollFd)
      → All (StaysReady w w') actions
      → IsWanted w actions fds
      → IsWanted w' actions fds
  IsWanted-kept w w' actions [] s h = tt
  IsWanted-kept w w' [] (f ∷ fds) s h = h
  IsWanted-kept w w' (a ∷ actions) (f ∷ fds) s h =
      (λ revents e. s.0 (h.0 revents e), IsWanted-kept w w' actions fds s.1 h.1)

  All-Deactivated :
      (w w' : W) {old new : List (Action W)}
      → Deactivated old new
      → All (StaysReady w w') old
      → All (StaysReady w w') new
  All-Deactivated w w' none_left s = tt
  All-Deactivated w w' (kept a d) s = (s.0, All-Deactivated w w' d s.1)
  All-Deactivated w w' (cancelled a d) s = (s.0, All-Deactivated w w' d s.1)

  KeepsTo-Deactivated :
      {old new : List (Action W)} (w : W)
      → Deactivated old new
      → (m : Result (ActionResult × W)) → Meets m (KeepsTo old w)
      → Meets m (KeepsTo new w)
  KeepsTo-Deactivated w d (ok r) h = (h.0, All-Deactivated w r.1 d h.1)
  KeepsTo-Deactivated w d (err e) h = h

  pub IsSound-Deactivated :
      {old new : List (Action W)} → Deactivated old new → IsSound old → IsSound new
  IsSound-Deactivated none_left s = tt
  IsSound-Deactivated (kept a d) s =
      (λ w i h. KeepsTo-Deactivated w d (a.callback w) (s.0 w i h), IsSound-Deactivated d s.1)
  IsSound-Deactivated (cancelled a d) s =
      (λ w i h. KeepsTo-Deactivated w d (a.callback w) (s.0 w i h), IsSound-Deactivated d s.1)

  -- After a round of callbacks the invariant holds, and the actions are those that there were, of
  -- which some may no longer be active.
  abbrev pub IsRound : List (Action W) → Polled W → Type 0
  IsRound actions r = Invariant r.2 × Deactivated actions r.1

  Meets-before :
      (a b : Action W) (actions : List (Action W)) (rest : Result (Polled W))
      → ((new : List (Action W)) → Deactivated actions new → Deactivated (a ∷ actions) (b ∷ new))
      → Meets rest (IsRound actions)
      → Meets (before b rest) (IsRound (a ∷ actions))
  Meets-before a b actions (ok r) d h = (h.0, d r.1 h.1)
  Meets-before a b actions (err e) d h = h

  -- What becomes of the rest of the round when a callback has returned.
  Meets-ran :
      (a : Action W) (actions : List (Action W)) (r : ActionResult × W) (rest : Result (Polled W))
      → Invariant r.1
      → Meets rest (IsRound actions)
      → Meets
          (elim r.0 [
            | exit status ↦ ok (exited status, a ∷ actions, r.1)
            | cancel ↦ before (record a { active = false }) rest
            | continue_ ↦ before a rest
          ])
          (IsRound (a ∷ actions))
  Meets-ran a actions (exit status, w') rest v h = (v, Deactivated-refl (a ∷ actions))
  Meets-ran a actions (cancel, w') rest v h =
      Meets-before a (record a { active = false }) actions rest (λ new d. cancelled a d) h
  Meets-ran a actions (continue_, w') rest v h = Meets-before a a actions rest (λ new d. kept a d) h

  Meets-dispatch :
      (revents : ℕ → Revents) (i : ℕ) (actions : List (Action W)) (fds : List PollFd) (w : W)
      → IsSound actions
      → IsWanted w actions fds
      → Invariant w
      → Meets (dispatch revents i actions fds w) (IsRound actions)
  unfolding dispatch
  Meets-dispatch revents i actions [] w s h v = (v, Deactivated-refl actions)
  Meets-dispatch revents i [] (f ∷ fds) w s h v = absurd h
  Meets-dispatch revents i (a ∷ actions) (f ∷ fds) w s h v =
      elim (Bool-cases (broken (revents i))) [
        | inl e ↦ rw e (v, Deactivated-refl (a ∷ actions))
        | inr e ↦ rw e (elim (Bool-cases (asked_for (revents i) f.events)) [
          | inr g ↦ rw g (
              Meets-before a a actions (dispatch revents (suc i) actions fds w) (λ new d. kept a d)
                (Meets-dispatch revents (suc i) actions fds w s.1 h.1 v))
          | inl g ↦ rw g (
              Meets->>= (KeepsTo actions w) (IsRound (a ∷ actions)) (a.callback w) _
                (s.0 w v (h.0 (revents i) g))
                (λ r k. Meets-ran a actions r (dispatch revents (suc i) actions fds r.1) k.0 (
                  Meets-dispatch revents (suc i) actions fds r.1 s.1
                    (IsWanted-kept w r.1 actions fds k.1 h.1) k.0)))
        ])
      ]

  -- The poller after a call of poll: as many entries as actions.
  pub record IsPolled (actions : List (Action W)) (r : PollResult × Poller W × W) : Type 0 where
    pub invariant : Invariant r.2
    pub same_actions : Deactivated actions r.1.actions_

  Meets-after_poll :
      (answer : PollReturn) (p : Poller W) (w : W)
      → IsSound p.actions_
      → IsWanted w p.actions_ p.pollfds_
      → Invariant w
      → Meets (after_poll answer p w) (IsPolled p.actions_)
  unfolding after_poll
  Meets-after_poll failed p w s h v = refl
  Meets-after_poll timed_out p w s h v = record {
    invariant = v;
    same_actions = Deactivated-refl p.actions_;
  }
  Meets-after_poll (ready revents) p w s h v =
      Meets->>= (IsRound p.actions_) (IsPolled p.actions_)
        (dispatch revents 0 p.actions_ p.pollfds_ w) _
        (Meets-dispatch revents 0 p.actions_ p.pollfds_ w s h v)
        (λ r k. record { invariant = k.0; same_actions = k.1 })

  -- Whatever the system call returns, poll ends without undefined behaviour if each callback does;
  -- if it returns, the invariant holds and the actions are the same, less those that are cancelled.
  pub Meets-poll :
      (os_poll : List PollFd → PollReturn) (p : Poller W) (w : W)
      → IsSound p.actions_
      → Invariant w
      → Meets (poll os_poll p w) (IsPolled p.actions_)
  unfolding poll
  Meets-poll os_poll p w s v =
      Meets->>= (λ u. length p.pollfds_ == length p.actions_ ≡ true) (IsPolled p.actions_)
        (assert (length p.pollfds_ == length p.actions_)) _
        (Meets-assert (length p.pollfds_ == length p.actions_))
        (λ u same.
          Meets->>= (IsWanted w p.actions_) (IsPolled p.actions_)
            (set_events p.actions_ p.pollfds_ w) _
            (IsWanted-set_events w p.actions_ p.pollfds_ (ground arith))
            (λ fds wanted. polled fds wanted (any_events fds)))
    where
      polled :
          (fds : List PollFd)
          → IsWanted w p.actions_ fds
          → (b : Bool)
          → Meets
              (if b
                then after_poll (os_poll fds) (record p { pollfds_ = fds }) w
                else ok (exited 0, record p { pollfds_ = fds }, w))
              (IsPolled p.actions_)
      polled fds wanted true =
          Meets-after_poll (os_poll fds) (record p { pollfds_ = fds }) w s wanted v
      polled fds wanted false = record { invariant = v; same_actions = Deactivated-refl p.actions_ }
