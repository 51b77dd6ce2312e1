-- ===== src/Http/Tokenize.antt =====
-- tokenize.hh: a string cut at each separator; and mime_type.cc, which uses it.
use mpshell_ext.Prelude.{ℕ, suc, ◌+◌, List, [], ◌∷◌, if◌then◌else◌, length, is_nil, take, drop}
use mpshell_ext.Prelude.Result.{Result, ok, err, exception}
use mpshell_ext.Words.{sub64}
use mpshell_ext.Packet.{Bytes}
use mpshell_ext.Http.Text.{starts_with}

-- The indices at which the separator stands, the first one being `i`.
unfoldable pub indices : Bytes → ℕ → Bytes → List ℕ
indices separator i [] = if is_nil separator then i ∷ [] else []
indices separator i (c ∷ cs) =
    let rest = indices separator (suc i) cs in
    if starts_with separator (c ∷ cs) then i ∷ rest else rest

-- The inner tokens and the last one.
unfoldable pub tokens : Bytes → Bytes → ℕ → List ℕ → List Bytes
tokens str separator i [] = drop (i + length separator) str ∷ []
tokens str separator i (j ∷ js) =
    take (sub64 (sub64 j i) (length separator)) (drop (i + length separator) str)
    ∷ tokens str separator j js

unfoldable pub split : Bytes → Bytes → List Bytes
unfolding tokens
split str separator = elim (indices separator 0 str) [
  | [] ↦ str ∷ []
  | i ∷ rest ↦ take i str ∷ tokens str separator i rest
]

-- The type of `MIMEType( content_type )`.
unfoldable pub mime_type : Bytes → Result Bytes
mime_type content_type = elim (split content_type (b';' ∷ [])) [
  | [] ↦ err exception
  | type ∷ parameters ↦ if is_nil type then err exception else ok type
]
