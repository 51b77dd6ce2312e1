-- ===== src/Link/Trace.antt =====
-- The trace of a link: the part of the constructor of link_queue.cc that reads it.
use mpshell_ext.Prelude.{ℕ, ◌||◌, not, List, [], ◌∷◌, ◌++◌, leb, ◌==◌, if◌then◌else◌, is_nil}
use mpshell_ext.Prelude.Result.{Result, ok, runtime_error, ◌>>=◌, ◌>>◌, require}
use mpshell_ext.Packet.{Bytes}
use mpshell_ext.Ezio.{myatoi}

-- schedule_.back()
abbrev pub back : List ℕ → ℕ
back [] = 0
back (t ∷ []) = t
back (t ∷ u ∷ ts) = back (u ∷ ts)

-- The lines of a file, as `getline` gives them: no line after a last newline.
unfoldable pub get_lines : Bytes → Bytes → List Bytes
get_lines line [] = if is_nil line then [] else line ∷ []
get_lines line (c ∷ cs) =
    let ended = line ∷ get_lines [] cs in
    let longer = get_lines (line ++ c ∷ []) cs in if c == 10 then ended else longer

unfoldable pub load_lines : List ℕ → List Bytes → Result (List ℕ)
load_lines schedule [] = ok schedule
load_lines schedule (line ∷ lines) = do
  require (not (is_nil line)) runtime_error
  ms ← myatoi 10 line
  require (is_nil schedule || leb (back schedule) ms) runtime_error
  load_lines (schedule ++ ms ∷ []) lines

unfoldable pub load_schedule : Bytes → Result (List ℕ)
load_schedule file = do
  schedule ← load_lines [] (get_lines [] file)
  require (not (is_nil schedule)) runtime_error
  require (not (back schedule == 0)) runtime_error
  ok schedule
