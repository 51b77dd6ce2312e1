-- ===== src/ChildProcess/States.antt =====
-- child_process.cc: the states of a child process.
use mpshell_ext.Prelude.{ℕ, ◌≡◌, refl, Bool, true, false, some, arith, if◌then◌else◌}
use mpshell_ext.Prelude.Result.{ok}
use mpshell_ext.ChildProcess.{
  SiCode, cld_exited, cld_killed, cld_dumped, cld_stopped, cld_continued, other_code, SigInfo,
  sigchld, ChildProcess, init, changed, wait,
}

-- What has become of a child.
pub data State : Type 0 where
  running : State
  stopped : State
  exited : ℕ → State
  died : ℕ → State

-- The diagram of the states: what a live child becomes by a change that waitid reports.
abbrev pub next : SiCode → ℕ → State → State
next cld_exited status s = exited status
next cld_killed status s = died status
next cld_dumped status s = died status
next cld_stopped status s = stopped
next cld_continued status s = running
next other_code status s = s

abbrev pub state_of : ChildProcess → State
state_of c =
    if c.terminated_
    then (if c.died_on_signal_ then died c.exit_status_ else exited c.exit_status_)
    else if c.running_
    then running
    else stopped

-- A child that this object stands for, and that has not ended.
pub record IsLive (c : ChildProcess) : Type 0 where
  pub here : c.moved_away_ ≡ false
  pub not_ended : c.terminated_ ≡ false
  pub no_signal : c.died_on_signal_ ≡ false

-- What waitid reports is about this child.
pub record IsAbout (c : ChildProcess) (info : SigInfo) : Type 0 where
  pub pid : info.si_pid ≡ c.pid_
  pub signo : info.si_signo ≡ sigchld

pub IsLive-init : (pid termination_signal : ℕ) → IsLive (init pid termination_signal)
unfolding init
IsLive-init pid termination_signal = record { here = refl; not_ended = refl; no_signal = refl }

pub wait_lem :
    (c : ChildProcess) (info : SigInfo)
    → IsLive c
    → IsAbout c info
    → wait (some info) c ≡ ok (changed info.si_code info.si_status c)
unfolding wait
wait_lem c info v a = ground (arith, v.here, v.not_ended, a.pid, a.signo)

-- A change that is reported moves the state along the diagram.
pub state_of-changed :
    (code : SiCode) (status : ℕ) (c : ChildProcess)
    → IsLive c
    → state_of (changed code status c) ≡ next code status (state_of c)
unfolding changed
state_of-changed cld_exited status c v = ground (arith, v.no_signal)
state_of-changed cld_killed status c v = refl
state_of-changed cld_dumped status c v = refl
state_of-changed cld_stopped status c v = ground (arith, v.not_ended)
state_of-changed cld_continued status c v = ground (arith, v.not_ended)
state_of-changed other_code status c v = refl

-- The changes after which a child is alive.
abbrev pub goes_on : SiCode → Bool
goes_on cld_exited = false
goes_on cld_killed = false
goes_on cld_dumped = false
goes_on cld_stopped = true
goes_on cld_continued = true
goes_on other_code = true

pub IsLive-changed :
    (code : SiCode) (status : ℕ) (c : ChildProcess)
    → IsLive c
    → goes_on code ≡ true
    → IsLive (changed code status c)
unfolding changed
IsLive-changed cld_exited status c v h = absurd (cc)
IsLive-changed cld_killed status c v h = absurd (cc)
IsLive-changed cld_dumped status c v h = absurd (cc)
IsLive-changed cld_stopped status c v h = record {
  here = v.here;
  not_ended = v.not_ended;
  no_signal = v.no_signal;
}
IsLive-changed cld_continued status c v h = record {
  here = v.here;
  not_ended = v.not_ended;
  no_signal = v.no_signal;
}
IsLive-changed other_code status c v h = v

pub terminated-changed :
    (code : SiCode) (status : ℕ) (c : ChildProcess)
    → goes_on code ≡ false
    → (changed code status c).terminated_ ≡ true
unfolding changed
terminated-changed cld_exited status c h = refl
terminated-changed cld_killed status c h = refl
terminated-changed cld_dumped status c h = refl
terminated-changed cld_stopped status c h = absurd (cc)
terminated-changed cld_continued status c h = absurd (cc)
terminated-changed other_code status c h = absurd (cc)

-- The same process, of the same termination signal.
pub record IsSame (c d : ChildProcess) : Type 0 where
  pub pid : d.pid_ ≡ c.pid_
  pub graceful : d.graceful_termination_signal_ ≡ c.graceful_termination_signal_

pub IsSame-changed :
    (code : SiCode) (status : ℕ) (c : ChildProcess) → IsSame c (changed code status c)
unfolding changed
IsSame-changed cld_exited status c = record { pid = refl; graceful = refl }
IsSame-changed cld_killed status c = record { pid = refl; graceful = refl }
IsSame-changed cld_dumped status c = record { pid = refl; graceful = refl }
IsSame-changed cld_stopped status c = record { pid = refl; graceful = refl }
IsSame-changed cld_continued status c = record { pid = refl; graceful = refl }
IsSame-changed other_code status c = record { pid = refl; graceful = refl }
