-- ===== src/Tests/Processes.antt =====
-- Child processes that change their states.
use mpshell_ext.Prelude.{ℕ, ◌≡◌, refl, Bool, true, false, [], ◌∷◌, none, some}
use mpshell_ext.Prelude.Result.{ok}
use mpshell_ext.Poller.{continue_, exit}
use mpshell_ext.ChildProcess.{
  ChildProcess, SigInfo, SiCode, cld_exited, cld_stopped, sigchld, sigcont, sighup, changed,
  destroy, handle_signal,
}
use mpshell_ext.ChildProcess.States.{IsLive, IsAbout}
use mpshell_ext.ChildProcess.Destroy.{destroy_lem}
use mpshell_ext.ChildProcess.Signals.{handle_signal-sigchld, handle_signal-sigcont}

abbrev child : ℕ → ChildProcess
child pid = record {
  pid_ = pid;
  running_ = true;
  terminated_ = false;
  exit_status_ = 0;
  died_on_signal_ = false;
  graceful_termination_signal_ = sighup;
  moved_away_ = false;
}

abbrev info : ℕ → SiCode → ℕ → SigInfo
info pid code status = record {
  si_pid = pid;
  si_signo = sigchld;
  si_code = code;
  si_status = status;
}

abbrev kill : ℕ → ℕ → Bool
kill pid sig = true

child-IsLive : (pid : ℕ) → IsLive (child pid)
child-IsLive pid = record { here = refl; not_ended = refl; no_signal = refl }

info-IsAbout : (pid : ℕ) (code : SiCode) (status : ℕ) → IsAbout (child pid) (info pid code status)
info-IsAbout pid code status = record { pid = refl; signo = refl }

-- The child stops before it ends: it is told to end, to continue, and again to end.
destroy_lem_example :
    destroy kill (some (info 7 cld_stopped 19) ∷ some (info 7 cld_exited 3) ∷ []) (child 7) []
    ≡ ok (
      record (child 7) { running_ = false; terminated_ = true; exit_status_ = 3 },
      (7, sighup) ∷ (7, sigcont) ∷ (7, sighup) ∷ [],
    )
unfolding changed
destroy_lem_example =
    destroy_lem kill (λ pid sig. refl) (info 7 cld_stopped 19 ∷ []) (info 7 cld_exited 3) []
      (child 7) [] (child-IsLive 7) ((info-IsAbout 7 cld_stopped 19, refl), tt)
      (info-IsAbout 7 cld_exited 3) refl

-- The second child ends with status 3, and the event loop leaves with it.
handle_signal-sigchld_example :
    handle_signal kill (λ pid. some (info pid cld_exited 3)) sigchld 8 (child 7 ∷ child 8 ∷ []) [] 0
    ≡ ok (record {
      result = exit 3;
      children = child 7 ∷ record (child 8) { terminated_ = true; exit_status_ = 3 } ∷ [];
      sent = [];
      stops = 0;
    })
unfolding changed
handle_signal-sigchld_example =
    handle_signal-sigchld kill (λ pid. some (info pid cld_exited 3)) (info 8 cld_exited 3)
      (child 7 ∷ []) (child 8) [] [] 0 (refl, tt) (child-IsLive 8) (info-IsAbout 8 cld_exited 3)
      refl

-- Only the child that is stopped is told to continue.
handle_signal-sigcont_example :
    handle_signal kill
      (λ pid. none)
      sigcont
      0
      (child 7 ∷ record (child 8) { running_ = false } ∷ [])
      []
      0
    ≡ ok (record {
      result = continue_;
      children = child 7 ∷ record (child 8) { running_ = false } ∷ [];
      sent = (8, sigcont) ∷ [];
      stops = 0;
    })
handle_signal-sigcont_example =
    handle_signal-sigcont kill (λ pid sig. refl) (λ pid. none) 0
      (child 7 ∷ record (child 8) { running_ = false } ∷ []) [] 0 (refl, (refl, tt))
