-- ===== src/ChildProcess.antt =====
-- child_process.hh and .cc, and handle_signal of util.cc. The signals that are sent are a list of
-- process numbers and signals; what waitid and kill return are arguments.
pub mod States
pub mod Destroy
pub mod Signals
pub mod Ending
use mpshell_ext.Prelude.{
  ℕ, zero, suc, Bool, true, false, not, List, [], ◌∷◌, ◌++◌, Option, none, some, ◌==◌,
  if◌then◌else◌,
}
use mpshell_ext.Prelude.Result.{
  Result, ok, err, exception, out_of_fuel, ◌>>=◌, ◌>>◌, assert, require,
}
use mpshell_ext.Poller.{ActionResult, continue_, exit}

-- `si_code`.
pub data SiCode : Type 0 where
  cld_exited : SiCode
  cld_killed : SiCode
  cld_dumped : SiCode
  cld_stopped : SiCode
  cld_continued : SiCode
  other_code : SiCode

pub record SigInfo : Type 0 where
  pub si_pid : ℕ
  pub si_signo : ℕ
  pub si_code : SiCode
  pub si_status : ℕ

abbrev pub sighup : ℕ
sighup = 1

abbrev pub sigterm : ℕ
sigterm = 15

abbrev pub sigchld : ℕ
sigchld = 17

abbrev pub sigcont : ℕ
sigcont = 18

pub record ChildProcess : Type 0 where
  pub pid_ : ℕ
  pub running_ : Bool
  pub terminated_ : Bool
  pub exit_status_ : ℕ
  pub died_on_signal_ : Bool
  pub graceful_termination_signal_ : ℕ
  pub moved_away_ : Bool

-- The parent's side of the constructor, when clone has returned `pid`.
unfoldable pub init : ℕ → ℕ → ChildProcess
init pid termination_signal = record {
  pid_ = pid;
  running_ = true;
  terminated_ = false;
  exit_status_ = 0;
  died_on_signal_ = false;
  graceful_termination_signal_ = termination_signal;
  moved_away_ = false;
}

-- how did the process change state?
unfoldable pub changed : SiCode → ℕ → ChildProcess → ChildProcess
changed cld_exited status c = record c { terminated_ = true; exit_status_ = status }
changed cld_killed status c = record c {
  terminated_ = true;
  exit_status_ = status;
  died_on_signal_ = true;
}
changed cld_dumped status c = record c {
  terminated_ = true;
  exit_status_ = status;
  died_on_signal_ = true;
}
changed cld_stopped status c = record c { running_ = false }
changed cld_continued status c = record c { running_ = true }
changed other_code status c = c

-- wait(), where waitid has filled in `info`, or has failed.
unfoldable pub wait : Option SigInfo → ChildProcess → Result ChildProcess
wait answer c = do
  assert (not c.moved_away_)
  assert (not c.terminated_)
  elim answer [
    | none ↦ err exception
    | some info ↦ do
      assert (info.si_pid == c.pid_)
      assert (info.si_signo == sigchld)
      ok (changed info.si_code info.si_status c)
  ]

-- The signals that have been sent: to which process, and which.
abbrev pub Sent : Type 0
Sent = List (ℕ × ℕ)

-- `kill( pid, sig )`, which succeeds or not.
module _ (kill : ℕ → ℕ → Bool) where
  unfoldable pub signal : ℕ → ChildProcess → Sent → Result Sent
  signal sig c sent = do
    assert (not c.moved_away_)
    if c.terminated_
        then ok sent
        else (do require (kill c.pid_ sig) exception; ok (sent ++ (c.pid_, sig) ∷ []))

  unfoldable pub resume : ChildProcess → Sent → Result Sent
  resume c sent = do
    assert (not c.moved_away_)
    if c.running_ then ok sent else signal sigcont c sent

  -- The loop of the destructor, for what waitid returns each time.
  unfoldable pub terminate :
      List (Option SigInfo) → ChildProcess → Sent → Result (ChildProcess × Sent)
  terminate [] c sent = if c.terminated_ then ok (c, sent) else err out_of_fuel
  terminate (answer ∷ answers) c sent = if c.terminated_ then ok (c, sent) else (do
    resumed ← resume c sent
    signalled ← signal c.graceful_termination_signal_ c resumed
    c' ← wait answer c
    terminate answers c' signalled)

  unfoldable pub destroy :
      List (Option SigInfo) → ChildProcess → Sent → Result (ChildProcess × Sent)
  destroy answers c sent = if c.moved_away_ then ok (c, sent) else terminate answers c sent

  -- SIGCONT: resume child processes too.
  unfoldable pub resume_all : List ChildProcess → Sent → Result Sent
  resume_all [] sent = ok sent
  resume_all (x ∷ xs) sent = do resumed ← resume x sent; resume_all xs resumed

-- The move constructor: the new object, and the one that is moved away.
unfoldable pub move : ChildProcess → Result (ChildProcess × ChildProcess)
move other = do assert (not other.moved_away_); ok (other, record other { moved_away_ = true })

unfoldable pub died_on_signal : ChildProcess → Result Bool
died_on_signal c = do assert c.terminated_; ok c.died_on_signal_

unfoldable pub exit_status : ChildProcess → Result ℕ
exit_status c = do assert c.terminated_; ok c.exit_status_

-- What handle_signal leaves: its result, the children, the signals sent, and how often the process
-- has stopped itself.
pub record Handled : Type 0 where
  pub result : ActionResult
  pub children : List ChildProcess
  pub sent : Sent
  pub stops : ℕ

-- figure out what happened to it
unfoldable pub report : ChildProcess → Result (ActionResult × Bool)
report x =
    if x.terminated_
    then (do
      died ← died_on_signal x
      status ← exit_status x
      if died then err exception else ok (exit status, false))
    else ok (continue_, not x.running_)

-- A child before those of the rest of the loop.
abbrev pub behind : ChildProcess → Result Handled → Result Handled
behind x rest = do h ← rest; ok (record h { children = x ∷ h.children })

-- SIGCHLD: the loop over the children. `raise( SIGSTOP )` counts as a stop.
unfoldable pub reap : (ℕ → Option SigInfo) → ℕ → List ChildProcess → Sent → ℕ → Result Handled
reap waitid pid [] sent stops = err exception
reap waitid pid (x ∷ xs) sent stops =
    let rest = behind x (reap waitid pid xs sent stops) in
    if pid == x.pid_
    then (do
      x' ← wait (waitid x.pid_) x
      r ← report x'
      ok (record {
        result = r.0;
        children = x' ∷ xs;
        sent = sent;
        stops = if r.1 then suc stops else stops;
      }))
    else rest

-- The signal, the process that it is about, and what the system calls return.
unfoldable pub handle_signal :
    (ℕ → ℕ → Bool) → (ℕ → Option SigInfo) → ℕ → ℕ → List ChildProcess → Sent → ℕ → Result Handled
handle_signal kill waitid signo pid children sent stops =
    if signo == sigcont
    then (do
      sent' ← resume_all kill children sent
      ok (record { result = continue_; children = children; sent = sent'; stops = stops }))
    else if signo == sigchld
    then reap waitid pid children sent stops
    else if signo == sighup
    then ok (record { result = exit 0; children = children; sent = sent; stops = stops })
    else if signo == sigterm
    then ok (record { result = exit 0; children = children; sent = sent; stops = stops })
    else err exception
