-- ===== src/ChildProcess/Destroy.antt =====
-- child_process.cc: the end of the loop of the destructor.
use mathlib.Core.List.{append_assoc, append-nil}
use mpshell_ext.Prelude.{
  ℕ, ◌≡◌, refl, sym, ap, ◌∙◌, map, All-imp, Bool, true, false, List, [], ◌∷◌, ◌++◌, Option, some,
  if◌then◌else◌, All, inl, inr, Bool-cases,
}
use mpshell_ext.Prelude.Result.{ok}
use mpshell_ext.ChildProcess.{
  SiCode, SigInfo, sigcont, ChildProcess, changed, Sent, signal, resume, terminate, destroy,
}
use mpshell_ext.ChildProcess.States.{
  IsLive, IsAbout, wait_lem, goes_on, IsLive-changed, terminated-changed, IsSame-changed,
}

-- The child after these changes.
abbrev pub after : List SigInfo → ChildProcess → ChildProcess
after [] c = c
after (info ∷ infos) c = after infos (changed info.si_code info.si_status c)

-- A round of the destructor: a child that is stopped is told to continue, and then to end.
abbrev pub round : ChildProcess → Sent
round c =
    (if c.running_ then [] else (c.pid_, sigcont) ∷ [])
    ++ (c.pid_, c.graceful_termination_signal_) ∷ []

-- The signals of a round before each of these changes, and of one more.
abbrev pub rounds : List SigInfo → ChildProcess → Sent
rounds [] c = round c
rounds (info ∷ infos) c = round c ++ rounds infos (changed info.si_code info.si_status c)

-- A change that is about this child, after which it is alive.
abbrev pub LeavesAlive : ChildProcess → SigInfo → Type 0
LeavesAlive c info = IsAbout c info × (goes_on info.si_code ≡ true)

IsAbout-changed :
    (code : SiCode) (status : ℕ) (c : ChildProcess) (info : SigInfo)
    → IsAbout c info
    → IsAbout (changed code status c) info
IsAbout-changed code status c info a = record {
  pid = a.pid ∙ sym (IsSame-changed code status c).pid;
  signo = a.signo;
}

module _ (kill : ℕ → ℕ → Bool) (kills : (pid sig : ℕ) → kill pid sig ≡ true) where
  signal_lem :
      (sig : ℕ) (c : ChildProcess) (sent : Sent)
      → IsLive c
      → signal kill sig c sent ≡ ok (sent ++ (c.pid_, sig) ∷ [])
  unfolding signal
  signal_lem sig c sent v = rw (v.here, v.not_ended, kills) refl

  resume_lem :
      (c : ChildProcess) (sent : Sent)
      → IsLive c
      → resume kill c sent ≡ ok (sent ++ (if c.running_ then [] else (c.pid_, sigcont) ∷ []))
  unfolding resume
  resume_lem c sent v = elim (Bool-cases c.running_) [
    | inl e ↦ simp (v.here, e, append-nil) refl
    | inr e ↦ simp (v.here, e, signal_lem sigcont c sent v) refl
  ]

  terminate-round :
      (info : SigInfo) (answers : List (Option SigInfo)) (c : ChildProcess) (sent : Sent)
      → IsLive c
      → IsAbout c info
      → terminate kill (some info ∷ answers) c sent
        ≡ terminate kill answers (changed info.si_code info.si_status c) (sent ++ round c)
  unfolding terminate
  terminate-round info answers c sent v a =
      simp
        (
          v.not_ended,
          resume_lem c sent v,
          signal_lem c.graceful_termination_signal_ c
              (sent ++ (if c.running_ then [] else (c.pid_, sigcont) ∷ [])) v,
          wait_lem c info v a,
        )
        (ap (λ l. terminate kill answers (changed info.si_code info.si_status c) l)
          (append_assoc sent (if c.running_ then [] else (c.pid_, sigcont) ∷ [])
            ((c.pid_, c.graceful_termination_signal_) ∷ [])))

  terminate-ended :
      (answers : List (Option SigInfo)) (c : ChildProcess) (sent : Sent)
      → c.terminated_ ≡ true
      → terminate kill answers c sent ≡ ok (c, sent)
  unfolding terminate
  terminate-ended [] c sent h = rw h refl
  terminate-ended (answer ∷ answers) c sent h = rw h refl

  terminate_lem :
      (infos : List SigInfo) (last : SigInfo) (rest : List (Option SigInfo)) (c : ChildProcess)
      (sent : Sent)
      → IsLive c
      → All (LeavesAlive c) infos
      → IsAbout c last
      → goes_on last.si_code ≡ false
      → terminate kill (map some infos ++ some last ∷ rest) c sent
        ≡ ok (changed last.si_code last.si_status (after infos c), sent ++ rounds infos c)
  terminate_lem [] last rest c sent v p a h =
      terminate-round last rest c sent v a
      ∙ terminate-ended rest (changed last.si_code last.si_status c) (sent ++ round c)
          (terminated-changed last.si_code last.si_status c h)
  terminate_lem (info ∷ infos) last rest c sent v p a h =
      let c' = changed info.si_code info.si_status c in
      terminate-round info (map some infos ++ some last ∷ rest) c sent v p.0.0
      ∙ terminate_lem infos last rest c' (sent ++ round c)
          (IsLive-changed info.si_code info.si_status c v p.0.1)
          (All-imp (LeavesAlive c) (LeavesAlive c')
            (λ i q. (IsAbout-changed info.si_code info.si_status c i q.0, q.1)) infos p.1)
          (IsAbout-changed info.si_code info.si_status c last a) h
      ∙ ap (λ l. ok (changed last.si_code last.si_status (after infos c'), l))
          (append_assoc sent (round c) (rounds infos c'))

  -- If waitid reports some changes of a child, after which it lives, and then one by which it ends,
  -- and each signal can be sent, then the destructor's loop ends with that change; before each
  -- report it has sent the termination signal, and before that SIGCONT if the child was stopped.
  pub destroy_lem :
      (infos : List SigInfo) (last : SigInfo) (rest : List (Option SigInfo)) (c : ChildProcess)
      (sent : Sent)
      → IsLive c
      → All (LeavesAlive c) infos
      → IsAbout c last
      → goes_on last.si_code ≡ false
      → destroy kill (map some infos ++ some last ∷ rest) c sent
        ≡ ok (changed last.si_code last.si_status (after infos c), sent ++ rounds infos c)
  unfolding destroy
  destroy_lem infos last rest c sent v p a h =
      simp v.here (terminate_lem infos last rest c sent v p a h)
