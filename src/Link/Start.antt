-- ===== src/Link/Start.antt =====
-- link_queue.cc: theorems on the constructor.
use mpshell_ext.Prelude.{
  Option, ℕ, ◌+◌, ◌<◌, ◌^◌, ◌≡◌, inl, inr, refl, sym, ap, subst, List, [], ◌∷◌, ◌++◌, some, Bool,
  true, arith, length, ◌||◌, leb, is_nil, leb→le,
}
use mpshell_ext.Prelude.Result.{ok, Result-cases}
use mpshell_ext.Packet.{Bytes}
use mpshell_ext.Queue.{PacketQueue, Contract}
use mpshell_ext.Ezio.{myatoi}
use mpshell_ext.Link.{LinkQueue, fresh, is_logged, init}
use mpshell_ext.Link.Trace.{back, get_lines, load_lines, load_schedule}
use mpshell_ext.Link.Clock.{Rising}
use mpshell_ext.Link.Rationalize.{IsValid}

Rising-append :
    (ts : List ℕ) (t : ℕ)
    → Rising ts
    → (is_nil ts || leb (back ts) t) ≡ true
    → Rising (ts ++ t ∷ [])
Rising-append [] t r h = tt
Rising-append (u ∷ []) t r h = (leb→le u t h, tt)
Rising-append (u ∷ v ∷ ts) t r h = (r.0, Rising-append (v ∷ ts) t r.1 h)

-- Inversion of a line that is accepted.
load_line_lem :
    (schedule : List ℕ) (line : Bytes) (lines : List Bytes) (s : List ℕ)
    → load_lines schedule (line ∷ lines) ≡ ok s
    → (ms : ℕ) × ((is_nil schedule || leb (back schedule) ms) ≡ true)
      × (load_lines (schedule ++ ms ∷ []) lines ≡ ok s)
unfolding load_lines
load_line_lem schedule line lines s h = elim (Result-cases (myatoi 10 line)) [
  | inl (ms, e) ↦ (ms, ground arith, ground arith)
  | inr (x, e) ↦ absurd (ground arith)
]

load_lines-nil : (schedule s : List ℕ) → load_lines schedule [] ≡ ok s → schedule ≡ s
unfolding load_lines
load_lines-nil schedule s h = cc

load_lines-Rising :
    (schedule : List ℕ) (lines : List Bytes) (s : List ℕ)
    → Rising schedule
    → load_lines schedule lines ≡ ok s
    → Rising s
load_lines-Rising schedule [] s r h = subst Rising (load_lines-nil schedule s h) r
load_lines-Rising schedule (line ∷ lines) s r h =
    let (ms, t, h') = load_line_lem schedule line lines s h in
    load_lines-Rising (schedule ++ ms ∷ []) lines s (Rising-append schedule ms r t) h'

-- A trace that is accepted has times that do not fall, and lasts for longer than 0.
pub load_schedule_lem :
    (file : Bytes) (s : List ℕ)
    → load_schedule file ≡ ok s
    → Rising s × (0 < length s) × (0 < back s)
unfolding load_schedule
load_schedule_lem file s h = elim (Result-cases (load_lines [] (get_lines [] file))) [
  | inl (t, e) ↦
      let same : t ≡ s = ground arith in
      (
        subst Rising same (load_lines-Rising [] (get_lines [] file) t tt e),
        ground arith,
        ground arith,
      )
  | inr (x, e) ↦ absurd (ground arith)
]

module _ {pq : PacketQueue} (c : Contract pq) where
  pub fresh-IsValid :
      (s : List ℕ) (base_timestamp : ℕ) (logs repeats : Bool) (q : pq.State)
      → Rising s × (0 < length s) × (0 < back s)
      → c.IsValid q
      → c.contents q ≡ []
      → length s < 2 ^ 32
      → base_timestamp + back s < 2 ^ 64
      → IsValid c (fresh s base_timestamp logs repeats q)
  fresh-IsValid s base_timestamp logs repeats q t v e few b = record {
    clocked = record { in_range = t.1; few = few; rising = t.0; lasting = t.2; no_wrap = b };
    loaded = record { queue_valid = v; queued = rw e tt; transit = inl refl };
  }

  -- The constructor, if it returns, has made a valid link, over a valid queue that is empty, when its
  -- times fit in 64 bits and its trace has fewer than 2 ^ 32 entries.
  pub init-IsValid :
      (root : Bool) (file : Bytes) (base_timestamp : ℕ) (log_file : Option Bool) (repeats : Bool)
      (q : pq.State) (l : LinkQueue pq.State)
      → init root (some file) base_timestamp log_file repeats q ≡ ok l
      → c.IsValid q
      → c.contents q ≡ []
      → length l.schedule < 2 ^ 32
      → base_timestamp + back l.schedule < 2 ^ 64
      → IsValid c l
  unfolding init
  init-IsValid root file base_timestamp log_file repeats q l h v e few b =
      elim (Result-cases (load_schedule file)) [
        | inr (x, d) ↦ absurd (ground arith)
        | inl (s, d) ↦
            let same : l ≡ fresh s base_timestamp (is_logged log_file) repeats q = ground arith in
            let times : l.schedule ≡ s = ap (λ (x : LinkQueue pq.State). x.schedule) same in
            subst (IsValid c) (sym same) (
              fresh-IsValid s base_timestamp (is_logged log_file) repeats q
                (load_schedule_lem file s d) v e (rw (← times) few) (rw (← times) b))
      ]
