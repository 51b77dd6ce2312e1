-- ===== src/Replay/Search.antt =====
-- replayserver.cc, main(): the loop over the recorded exchanges.
use mathlib.Core.List.{append_assoc, append-nil}
use mpshell_ext.Prelude.{
  ◌≡◌, refl, ap, ◌∙◌, ◌⊎◌, inl, inr, Bool, true, false, List, [], ◌∷◌, ◌++◌, none, some, All,
  Bool-cases, if◌then◌else◌, ◌&&◌, not,
}
use mpshell_ext.Prelude.Result.{ok}
use mpshell_ext.Http.Text.{same_bytes, find}
use mpshell_ext.Replay.{
  Environment, Exchange, request_line, check_all, possible_match, compare_requests, search,
}

module _ (env : Environment) where
  -- The request line is the one that was saved.
  abbrev pub same_line : Exchange → Bool
  same_line r = same_bytes (request_line env) r.req.first_line

  -- Another request line, with a query, for the same object.
  abbrev pub is_candidate : Exchange → Bool
  is_candidate r =
      not (same_line r) && possible_match env (find (b'?' ∷ []) r.req.first_line) r.req.first_line

  abbrev pub candidates : List Exchange → List Exchange
  candidates [] = []
  candidates (r ∷ rs) = let rest = candidates rs in if is_candidate r then r ∷ rest else rest

  -- What is true of all exchanges is true of the candidates.
  pub All-candidates :
      (P : Exchange → Type 0) (rs : List Exchange) → All P rs → All P (candidates rs)
  All-candidates P [] h = tt
  All-candidates P (r ∷ rs) h = elim (Bool-cases (is_candidate r)) [
    | inl e ↦ rw e (h.0, All-candidates P rs h.1)
    | inr e ↦ rw e (All-candidates P rs h.1)
  ]

  -- The checks of the saved headers can be made: each saved header has a colon.
  abbrev pub IsReadable : Exchange → Type 0
  IsReadable r = (b : Bool) × (check_all env r.req ≡ ok b)

  abbrev pub Accepted : Exchange → Type 0
  Accepted r = (same_line r ≡ true) × (check_all env r.req ≡ ok true)

  abbrev pub Rejected : Exchange → Type 0
  Rejected r = (same_line r ≡ false) ⊎ (same_line r ≡ true) × (check_all env r.req ≡ ok false)

  pub compare-accepted :
      (r : Exchange) (ps : List Exchange) → Accepted r → compare_requests env r ps ≡ ok (true, ps)
  unfolding compare_requests
  compare-accepted r ps (e, f) = rw (e, f) refl

  compare-rejected :
      (r : Exchange) (ps : List Exchange)
      → Rejected r
      → compare_requests env r ps ≡ ok (false, ps ++ candidates (r ∷ []))
  unfolding compare_requests
  compare-rejected r ps (inl e) =
      elim (Bool-cases (possible_match env (find (b'?' ∷ []) r.req.first_line) r.req.first_line)) [
        | inl f ↦ rw (e, f) refl
        | inr f ↦ rw (e, f, append-nil) refl
      ]
  compare-rejected r ps (inr (e, f)) = rw (e, f, append-nil) refl

  judge : (r : Exchange) → IsReadable r → Accepted r ⊎ Rejected r
  judge r (b, e) = elim (Bool-cases (same_line r)) [ inl f ↦ judged b e f | inr f ↦ inr (inl f) ]
    where
      judged :
          (b : Bool) → check_all env r.req ≡ ok b → same_line r ≡ true → Accepted r ⊎ Rejected r
      judged true e f = inl (f, e)
      judged false e f = inr (inr (f, e))

  pub candidates-next :
      (r : Exchange) (rs ps : List Exchange)
      → (ps ++ candidates (r ∷ [])) ++ candidates rs ≡ ps ++ candidates (r ∷ rs)
  candidates-next r rs ps = elim (Bool-cases (is_candidate r)) [
    | inl e ↦ rw e (append_assoc ps (r ∷ []) (candidates rs))
    | inr e ↦ rw (e, append-nil) refl
  ]

  -- The first exchange that is accepted.
  pub record FirstAccepted (files : List Exchange) : Type 0 where
    pub before : List Exchange
    pub found : Exchange
    pub after : List Exchange
    pub in_files : files ≡ before ++ found ∷ after
    pub rejected : All Rejected before
    pub accepted : Accepted found

  unfoldable pub Searched : List Exchange → List Exchange → Type 0
  Searched files ps =
      ((f : FirstAccepted files) × (search env files ps
          ≡ ok (some f.found, ps ++ candidates f.before)))
      ⊎ All Rejected files × (search env files ps ≡ ok (none, ps ++ candidates files))

  abbrev FirstAccepted-next :
      (r : Exchange) {files : List Exchange}
      → Rejected r
      → FirstAccepted files
      → FirstAccepted (r ∷ files)
  FirstAccepted-next r h f = record {
    before = r ∷ f.before;
    found = f.found;
    after = f.after;
    in_files = ap (λ l. r ∷ l) f.in_files;
    rejected = (h, f.rejected);
    accepted = f.accepted;
  }

  pub search-rejected :
      (r : Exchange) (files ps : List Exchange)
      → Rejected r
      → search env (r ∷ files) ps ≡ search env files (ps ++ candidates (r ∷ []))
  unfolding search
  search-rejected r files ps h = rw (compare-rejected r ps h) refl

  pub search_lem : (files ps : List Exchange) → All IsReadable files → Searched files ps
  unfolding search Searched
  search_lem [] ps h = inr (tt, rw append-nil refl)
  search_lem (r ∷ files) ps h = elim (judge r h.0) [
    | inl a ↦ inl (
      record {
        before = [];
        found = r;
        after = files;
        in_files = refl;
        rejected = tt;
        accepted = a;
      },
      rw (compare-accepted r ps a, append-nil) refl,
    )
    | inr b ↦ elim (search_lem files (ps ++ candidates (r ∷ [])) h.1) [
      | inl (f, e) ↦ inl (
        FirstAccepted-next r b f,
        search-rejected r files ps b
            ∙ e
            ∙ ap (λ l. ok (some f.found, l)) (candidates-next r f.before ps),
      )
      | inr (all, e) ↦ inr (
        (b, all),
        search-rejected r files ps b ∙ e ∙ ap (λ l. ok (none, l)) (candidates-next r files ps),
      )
    ]
  ]
