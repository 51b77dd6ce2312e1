-- ===== src/ChildProcess/Signals.antt =====
-- util.cc, handle_signal: what becomes of the children, and what the event loop is told.
use mathlib.Core.List.{append_assoc, append-nil}
use mpshell_ext.Prelude.{
  ℕ, suc, ◌≡◌, ◌≢◌, refl, sym, ap, ◌∙◌, ◌⊎◌, Bool, true, false, List, [], ◌∷◌, ◌++◌, Option, some,
  arith, ◌==◌, if◌then◌else◌, All, inl, inr, Bool-cases,
}
use mpshell_ext.Prelude.Result.{Result, ok, err, exception, ◌>>=◌}
use mpshell_ext.Poller.{ActionResult, continue_, exit}
use mpshell_ext.ChildProcess.{
  SigInfo, sigchld, sigcont, sighup, sigterm, ChildProcess, changed, Sent, signal, resume,
  resume_all, died_on_signal, exit_status, Handled, report, behind, reap, handle_signal,
}
use mpshell_ext.ChildProcess.States.{
  State, running, stopped, exited, died, next, state_of, IsLive, IsAbout, wait_lem,
  state_of-changed,
}

-- What the event loop does for the state that a child is found in: it goes on, stops itself, leaves
-- with the child's exit status, or raises an exception.
abbrev pub outcome : State → List ChildProcess → Sent → ℕ → Result Handled
outcome running children sent stops =
    ok (record { result = continue_; children = children; sent = sent; stops = stops })
outcome stopped children sent stops =
    ok (record { result = continue_; children = children; sent = sent; stops = suc stops })
outcome (exited status) children sent stops =
    ok (record { result = exit status; children = children; sent = sent; stops = stops })
outcome (died status) children sent stops = err exception

-- The same, from what `report` says.
abbrev after_report : List ChildProcess → Sent → ℕ → Result (ActionResult × Bool) → Result Handled
after_report children sent stops reported = do
  r ← reported
  ok (record {
    result = r.0;
    children = children;
    sent = sent;
    stops = if r.1 then suc stops else stops;
  })

report_lem :
    (x : ChildProcess) (children : List ChildProcess) (sent : Sent) (stops : ℕ)
    → after_report children sent stops (report x) ≡ outcome (state_of x) children sent stops
unfolding report died_on_signal exit_status
report_lem x children sent stops = elim (Bool-cases x.terminated_) [
  | inl e ↦ elim (Bool-cases x.died_on_signal_) [
    | inl f ↦ simp (e, f) refl
    | inr f ↦ simp (e, f) refl
  ]
  | inr e ↦ elim (Bool-cases x.running_) [ inl f ↦ simp (e, f) refl | inr f ↦ simp (e, f) refl ]
]

-- Another process.
abbrev pub IsOther : ℕ → ChildProcess → Type 0
IsOther pid x = pid == x.pid_ ≡ false

abbrev add_behind : List ChildProcess → Result Handled → Result Handled
add_behind [] r = r
add_behind (x ∷ xs) r = behind x (add_behind xs r)

module _ (waitid : ℕ → Option SigInfo) (pid : ℕ) where
  reap-others :
      (others xs : List ChildProcess) (sent : Sent) (stops : ℕ)
      → All (IsOther pid) others
      → reap waitid pid (others ++ xs) sent stops
        ≡ add_behind others (reap waitid pid xs sent stops)
  unfolding reap
  reap-others [] xs sent stops h = refl
  reap-others (x ∷ others) xs sent stops h = simp (h.0, reap-others others xs sent stops h.1) refl

  add_behind-outcome :
      (s : State) (others xs : List ChildProcess) (sent : Sent) (stops : ℕ)
      → add_behind others (outcome s xs sent stops) ≡ outcome s (others ++ xs) sent stops
  add_behind-outcome s [] xs sent stops = refl
  add_behind-outcome s (x ∷ others) xs sent stops =
      ap (behind x) (add_behind-outcome s others xs sent stops) ∙ one_behind s
    where
      one_behind :
          (s : State)
          → behind x (outcome s (others ++ xs) sent stops)
            ≡ outcome s (x ∷ (others ++ xs)) sent stops
      one_behind running = refl
      one_behind stopped = refl
      one_behind (exited status) = refl
      one_behind (died status) = refl

  -- The signal is about no child.
  reap-unknown :
      (xs : List ChildProcess) (sent : Sent) (stops : ℕ)
      → All (IsOther pid) xs
      → reap waitid pid xs sent stops ≡ err exception
  unfolding reap
  reap-unknown [] sent stops h = refl
  reap-unknown (x ∷ xs) sent stops h = simp (h.0, reap-unknown xs sent stops h.1) refl

reap-child :
    (waitid : ℕ → Option SigInfo) (info : SigInfo) (c : ChildProcess) (xs : List ChildProcess)
    (sent : Sent) (stops : ℕ)
    → IsLive c
    → IsAbout c info
    → waitid c.pid_ ≡ some info
    → reap waitid c.pid_ (c ∷ xs) sent stops
      ≡ outcome
          (next info.si_code info.si_status (state_of c))
          (changed info.si_code info.si_status c ∷ xs)
          sent
          stops
unfolding reap
reap-child waitid info c xs sent stops v a w =
    let c' = changed info.si_code info.si_status c in
    simp (same_pid c.pid_, w, wait_lem c info v a) (report_lem c' (c' ∷ xs) sent stops)
    ∙ ap (λ s. outcome s (c' ∷ xs) sent stops) (state_of-changed info.si_code info.si_status c v)
  where
    same_pid : (n : ℕ) → n == n ≡ true
    same_pid n = ground arith

-- SIGCONT is sent to a child that is stopped.
abbrev pub wake_in : State → ℕ → Sent
wake_in running pid = []
wake_in stopped pid = (pid, sigcont) ∷ []
wake_in (exited status) pid = []
wake_in (died status) pid = []

abbrev pub wake : ChildProcess → Sent
wake x = wake_in (state_of x) x.pid_

wake-stopped :
    (x : ChildProcess)
    → x.running_ ≡ false
    → x.terminated_ ≡ false
    → wake x ≡ (x.pid_, sigcont) ∷ []
wake-stopped x e f = let s : state_of x ≡ stopped = simp (e, f) refl in ap (λ t. wake_in t x.pid_) s

wake-terminated : (x : ChildProcess) → x.terminated_ ≡ true → wake x ≡ []
wake-terminated x e = elim (Bool-cases x.died_on_signal_) [
  | inl f ↦
      let s : state_of x ≡ died x.exit_status_ = simp (e, f) refl in ap (λ t. wake_in t x.pid_) s
  | inr f ↦
      let s : state_of x ≡ exited x.exit_status_ = simp (e, f) refl in ap (λ t. wake_in t x.pid_) s
]

wake-running : (x : ChildProcess) → x.running_ ≡ true → wake x ≡ []
wake-running x e = elim (Bool-cases x.terminated_) [
  | inl f ↦ wake-terminated x f
  | inr f ↦ let s : state_of x ≡ running = simp (e, f) refl in ap (λ t. wake_in t x.pid_) s
]

abbrev pub wake_all : List ChildProcess → Sent
wake_all [] = []
wake_all (x ∷ xs) = wake x ++ wake_all xs

abbrev pub IsHere : ChildProcess → Type 0
IsHere x = x.moved_away_ ≡ false

module _ (kill : ℕ → ℕ → Bool) (kills : (pid sig : ℕ) → kill pid sig ≡ true) where
  resume_if :
      (x : ChildProcess) (sent : Sent)
      → IsHere x
      → resume kill x sent
        ≡ ok (
            if x.running_
            then sent
            else if x.terminated_
            then sent
            else sent ++ (x.pid_, sigcont) ∷ [])
  unfolding resume signal
  resume_if x sent h = elim (Bool-cases x.running_) [
    | inl e ↦ simp (h, e) refl
    | inr e ↦ elim (Bool-cases x.terminated_) [
      | inl f ↦ simp (h, e, f) refl
      | inr f ↦ simp (h, e, f, kills) refl
    ]
  ]

  woken :
      (x : ChildProcess) (sent : Sent)
      → (if x.running_
          then sent
          else if x.terminated_
          then sent
          else sent ++ (x.pid_, sigcont) ∷ [])
        ≡ sent ++ wake x
  woken x sent =
      by_flags x.running_ x.terminated_ (wake x) (wake-running x) (wake-terminated x)
        (wake-stopped x)
    where
      by_flags :
          (r t : Bool) (more : Sent)
          → (r ≡ true → more ≡ [])
          → (t ≡ true → more ≡ [])
          → (r ≡ false → t ≡ false → more ≡ (x.pid_, sigcont) ∷ [])
          → (if r then sent else if t then sent else sent ++ (x.pid_, sigcont) ∷ []) ≡ sent ++ more
      by_flags true t more h k l = sym (ap (λ m. sent ++ m) (h refl) ∙ append-nil sent)
      by_flags false true more h k l = sym (ap (λ m. sent ++ m) (k refl) ∙ append-nil sent)
      by_flags false false more h k l = ap (λ m. sent ++ m) (sym (l refl refl))

  resume-wake :
      (x : ChildProcess) (sent : Sent) → IsHere x → resume kill x sent ≡ ok (sent ++ wake x)
  resume-wake x sent h = resume_if x sent h ∙ ap ok (woken x sent)

  resume_all_lem :
      (xs : List ChildProcess) (sent : Sent)
      → All IsHere xs
      → resume_all kill xs sent ≡ ok (sent ++ wake_all xs)
  unfolding resume_all
  resume_all_lem [] sent h = simp append-nil refl
  resume_all_lem (x ∷ xs) sent h =
      simp (resume-wake x sent h.0, resume_all_lem xs (sent ++ wake x) h.1)
        (ap ok (append_assoc sent (wake x) (wake_all xs)))

  -- SIGCONT goes to just those children that are stopped, and nothing else changes.
  pub handle_signal-sigcont :
      (waitid : ℕ → Option SigInfo) (pid : ℕ) (xs : List ChildProcess) (sent : Sent) (stops : ℕ)
      → All IsHere xs
      → handle_signal kill waitid sigcont pid xs sent stops
        ≡ ok (record {
          result = continue_;
          children = xs;
          sent = sent ++ wake_all xs;
          stops = stops;
        })
  unfolding handle_signal
  handle_signal-sigcont waitid pid xs sent stops h = simp (resume_all_lem xs sent h) refl

-- SIGCHLD about a live child: its state moves along the diagram, no other child changes, and the
-- event loop goes on, leaves with the exit status, or ends with an exception, as the new state says;
-- if the child has stopped, the process stops itself.
pub handle_signal-sigchld :
    (kill : ℕ → ℕ → Bool) (waitid : ℕ → Option SigInfo) (info : SigInfo)
    (others : List ChildProcess) (c : ChildProcess) (xs : List ChildProcess) (sent : Sent)
    (stops : ℕ)
    → All (IsOther c.pid_) others
    → IsLive c
    → IsAbout c info
    → waitid c.pid_ ≡ some info
    → handle_signal kill waitid sigchld c.pid_ (others ++ c ∷ xs) sent stops
      ≡ outcome
          (next info.si_code info.si_status (state_of c))
          (others ++ changed info.si_code info.si_status c ∷ xs)
          sent
          stops
unfolding handle_signal
handle_signal-sigchld kill waitid info others c xs sent stops h v a w =
    reap-others waitid c.pid_ others (c ∷ xs) sent stops h
    ∙ ap (add_behind others) (reap-child waitid info c xs sent stops v a w)
    ∙ add_behind-outcome waitid c.pid_ (next info.si_code info.si_status (state_of c)) others
        (changed info.si_code info.si_status c ∷ xs) sent stops

-- SIGCHLD about a process that is no child, and any signal but SIGCONT, SIGCHLD, SIGHUP and SIGTERM,
-- raise an exception.
pub handle_signal-unknown :
    (kill : ℕ → ℕ → Bool) (waitid : ℕ → Option SigInfo) (signo pid : ℕ) (xs : List ChildProcess)
    (sent : Sent) (stops : ℕ)
    → (signo ≡ sigchld) × All (IsOther pid) xs
      ⊎ (signo ≢ sigchld) × (signo ≢ sigcont) × (signo ≢ sighup) × (signo ≢ sigterm)
    → handle_signal kill waitid signo pid xs sent stops ≡ err exception
unfolding handle_signal
handle_signal-unknown kill waitid signo pid xs sent stops (inl (e, h)) =
    simp (e, reap-unknown waitid pid xs sent stops h) refl
handle_signal-unknown kill waitid signo pid xs sent stops (inr h) =
    ground (arith, h.0, h.1, h.2, h.3)
