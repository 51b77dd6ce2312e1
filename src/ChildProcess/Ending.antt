-- ===== src/ChildProcess/Ending.antt =====
-- handle_signal of util.cc: its loops end, whatever the signal and the answers of waitid and kill.
use mpshell_ext.Prelude.{
  ℕ, refl, inl, inr, Bool, List, [], ◌∷◌, Option, none, some, ◌==◌, not, Bool-cases,
}
use mpshell_ext.Prelude.Result.{Result, exception, assert, require}
use mpshell_ext.Prelude.Ends.{Ends, Ends->>=, Ends-assert, Ends-require}
use mpshell_ext.ChildProcess.{
  ChildProcess, SigInfo, Sent, Handled, signal, resume, resume_all, wait, report, died_on_signal,
  exit_status, behind, reap, handle_signal, sigcont, sigchld, sighup, sigterm,
}

module _ (kill : ℕ → ℕ → Bool) where
  Ends-signal : (sig : ℕ) (c : ChildProcess) (sent : Sent) → Ends (signal kill sig c sent)
  unfolding signal
  Ends-signal sig c sent =
      Ends->>= (assert (not c.moved_away_)) _ (Ends-assert (not c.moved_away_)) (λ u e.
        elim (Bool-cases c.terminated_) [
          | inl t ↦ simp t refl
          | inr t ↦ simp t (
              Ends->>= (require (kill c.pid_ sig) exception) _
                (Ends-require (kill c.pid_ sig) exception refl) (λ v f. refl))
        ])

  Ends-resume : (c : ChildProcess) (sent : Sent) → Ends (resume kill c sent)
  unfolding resume
  Ends-resume c sent =
      Ends->>= (assert (not c.moved_away_)) _ (Ends-assert (not c.moved_away_)) (λ u e.
        elim (Bool-cases c.running_) [
          | inl t ↦ simp t refl
          | inr t ↦ simp t (Ends-signal sigcont c sent)
        ])

  Ends-resume_all : (xs : List ChildProcess) (sent : Sent) → Ends (resume_all kill xs sent)
  unfolding resume_all
  Ends-resume_all [] sent = refl
  Ends-resume_all (x ∷ xs) sent =
      Ends->>= (resume kill x sent) _ (Ends-resume x sent) (λ s e. Ends-resume_all xs s)

Ends-wait : (answer : Option SigInfo) (c : ChildProcess) → Ends (wait answer c)
unfolding wait
Ends-wait none c =
    Ends->>= (assert (not c.moved_away_)) _ (Ends-assert (not c.moved_away_)) (λ u e.
      Ends->>= (assert (not c.terminated_)) _ (Ends-assert (not c.terminated_)) (λ v f. refl))
Ends-wait (some info) c =
    Ends->>= (assert (not c.moved_away_)) _ (Ends-assert (not c.moved_away_)) (λ u e.
      Ends->>= (assert (not c.terminated_)) _ (Ends-assert (not c.terminated_)) (λ v f.
        Ends->>= (assert (info.si_pid == c.pid_)) _ (Ends-assert (info.si_pid == c.pid_)) (λ u' e'.
          Ends->>= (assert (info.si_signo == sigchld)) _ (Ends-assert (info.si_signo == sigchld))
            (λ v' f'. refl))))

Ends-report : (x : ChildProcess) → Ends (report x)
unfolding report died_on_signal exit_status
Ends-report x = elim (Bool-cases x.terminated_) [
  | inr t ↦ simp t refl
  | inl t ↦ elim (Bool-cases x.died_on_signal_) [
    | inl d ↦ simp (t, d) refl
    | inr d ↦ simp (t, d) refl
  ]
]

Ends-behind : (x : ChildProcess) (rest : Result Handled) → Ends rest → Ends (behind x rest)
Ends-behind x rest h = Ends->>= rest _ h (λ r e. refl)

Ends-reap :
    (waitid : ℕ → Option SigInfo) (pid : ℕ) (xs : List ChildProcess) (sent : Sent) (stops : ℕ)
    → Ends (reap waitid pid xs sent stops)
unfolding reap
Ends-reap waitid pid [] sent stops = refl
Ends-reap waitid pid (x ∷ xs) sent stops = elim (Bool-cases (pid == x.pid_)) [
  | inr e ↦
      simp e (Ends-behind x (reap waitid pid xs sent stops) (Ends-reap waitid pid xs sent stops))
  | inl e ↦ simp e (
      Ends->>= (wait (waitid x.pid_) x) _ (Ends-wait (waitid x.pid_) x)
        (λ x' f. Ends->>= (report x') _ (Ends-report x') (λ r g. refl)))
]

pub Ends-handle_signal :
    (kill : ℕ → ℕ → Bool) (waitid : ℕ → Option SigInfo) (signo pid : ℕ) (xs : List ChildProcess)
    (sent : Sent) (stops : ℕ)
    → Ends (handle_signal kill waitid signo pid xs sent stops)
unfolding handle_signal
Ends-handle_signal kill waitid signo pid xs sent stops = elim (Bool-cases (signo == sigcont)) [
  | inl e ↦
      simp e (Ends->>= (resume_all kill xs sent) _ (Ends-resume_all kill xs sent) (λ s f. refl))
  | inr e ↦ elim (Bool-cases (signo == sigchld)) [
    | inl f ↦ simp (e, f) (Ends-reap waitid pid xs sent stops)
    | inr f ↦ elim (Bool-cases (signo == sighup)) [
      | inl g ↦ simp (e, f, g) refl
      | inr g ↦ elim (Bool-cases (signo == sigterm)) [
        | inl h ↦ simp (e, f, g, h) refl
        | inr h ↦ simp (e, f, g, h) refl
      ]
    ]
  ]
]
