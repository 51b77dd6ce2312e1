-- ===== src/Replay/Answer.antt =====
-- replayserver.cc, main(): which of the recorded exchanges is printed.
use mathlib.Core.List.{append-nil}
use mpshell_ext.Prelude.{
  ℕ, zero, suc, ◌<◌, ◌^◌, ◌≡◌, refl, ap, ◌∙◌, ◌⊎◌, inl, inr, true, false, List, [], ◌∷◌, ◌++◌, some,
  arith, length, get_elem?, get_or, All, get_elem?-eq-get_or,
}
use mpshell_ext.Prelude.Result.{ok, Returns, ◌>>=◌}
use mpshell_ext.Replay.{
  Environment, Exchange, request_line, return_message, search, Reply, not_found, return_at,
  return_closest, reply_to, reply, replay, catch_exception,
}
use mpshell_ext.Replay.Closest.{IsShort, IsClosest, closest_match-IsClosest, IsClosest-inside}
use mpshell_ext.Replay.Search.{
  candidates, IsReadable, Accepted, Rejected, compare-accepted, candidates-next, FirstAccepted,
  Searched, search-rejected, search_lem,
}

module _ (env : Environment) where
  abbrev pub printed : Exchange → Reply
  printed r = record { output = return_message r; success = true }

  -- The candidate whose line shares the longest substring with the request line.
  pub record Closest (possible : List Exchange) : Type 0 where
    pub index : ℕ
    pub chosen : Exchange
    pub closest : IsClosest (request_line env) possible index
    pub at_index : get_elem? possible index ≡ some chosen

  -- What the reply must be: the first exchange that is accepted; if none is, the closest of the
  -- candidates; and if there are none either, the text that says so, with a failure.
  pub data IsReply (files : List Exchange) : Reply → Type 0 where
    exact : (f : FirstAccepted env files) → IsReply files (printed f.found)
    closest :
        All (Rejected env) files
        → (c : Closest (candidates env files)) → IsReply files (printed c.chosen)
    nothing :
        All (Rejected env) files
        → candidates env files ≡ []
        → IsReply files (record { output = not_found; success = false })

  return_at_lem :
      (rs : List Exchange) (index : ℕ) (r : Exchange)
      → get_elem? rs index ≡ some r
      → return_at rs index ≡ ok (printed r)
  unfolding return_at
  return_at_lem [] index r e = absurd (cc)
  return_at_lem (x ∷ xs) zero r e = cc
  return_at_lem (x ∷ xs) (suc index) r e = return_at_lem xs index r e

  return_closest_lem :
      (possible : List Exchange)
      → length (request_line env) < 2 ^ 31
      → All IsShort possible
      → (possible ≡ [])
          × (return_closest env possible ≡ ok (record { output = not_found; success = false }))
        ⊎ ((c : Closest possible) × (return_closest env possible ≡ ok (printed c.chosen)))
  unfolding return_closest
  return_closest_lem [] h short = inl (refl, refl)
  return_closest_lem (p ∷ ps) h short =
      let (index, returned, is_closest) =
        closest_match-IsClosest env (p ∷ ps) h short (omega arith) in
      let there =
        get_elem?-eq-get_or (p ∷ ps) index p
          (IsClosest-inside (request_line env) (p ∷ ps) index is_closest) in
      inr (
        record {
          index = index;
          chosen = get_or (p ∷ ps) index p;
          closest = is_closest;
          at_index = there;
        },
        ap (λ m. m >>= return_at (p ∷ ps)) returned
            ∙ return_at_lem (p ∷ ps) index (get_or (p ∷ ps) index p) there,
      )

  -- Where the saved headers can be read, the request line is shorter than 2 ^ 31 bytes and those of
  -- the candidates are shorter than 2 ^ 32, the program replies as IsReply says, and no error is
  -- raised.
  pub replay-IsReply :
      (files : List Exchange)
      → All (IsReadable env) files
      → length (request_line env) < 2 ^ 31
      → All IsShort (candidates env files)
      → Returns (replay env files) (IsReply files)
  unfolding replay catch_exception reply reply_to Searched
  replay-IsReply files h small short = elim (search_lem env files [] h) [
    | inl (f, e) ↦ (printed f.found, rw e refl, exact f)
    | inr (all, e) ↦ elim (return_closest_lem (candidates env files) small short) [
      | inl (none_left, c) ↦
          (record { output = not_found; success = false }, rw (e, c) refl, nothing all none_left)
      | inr (c, d) ↦ (printed c.chosen, rw (e, d) refl, closest all c)
    ]
  ]

  search-before :
      (before : List Exchange) (r : Exchange) (after ps : List Exchange)
      → All (Rejected env) before
      → Accepted env r
      → search env (before ++ r ∷ after) ps ≡ ok (some r, ps ++ candidates env before)
  unfolding search
  search-before [] r after ps h a = rw (compare-accepted env r ps a, append-nil) refl
  search-before (x ∷ xs) r after ps h a =
      search-rejected env x (xs ++ r ∷ after) ps h.0
      ∙ search-before xs r after (ps ++ candidates env (x ∷ [])) h.1 a
      ∙ ap (λ l. ok (some r, l)) (candidates-next env x xs ps)

  -- Behind exchanges that are rejected, the first that is accepted is printed.
  pub replay-accepted :
      (before : List Exchange) (r : Exchange) (after : List Exchange)
      → All (Rejected env) before
      → Accepted env r
      → replay env (before ++ r ∷ after) ≡ ok (printed r)
  unfolding replay catch_exception reply reply_to
  replay-accepted before r after h a = rw (search-before before r after [] h a) refl
