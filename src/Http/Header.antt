-- ===== src/Http/Header.antt =====
-- http_header.hh and .cc: a header line as a key and a value.
pub mod Laws
use mpshell_ext.Prelude.{
  ℕ, suc, List, [], ◌∷◌, ◌++◌, Option, none, some, if◌then◌else◌, is_nil, take, drop,
}
use mpshell_ext.Prelude.Result.{Result, ok, err, exception}
use mpshell_ext.Packet.{Bytes}
use mpshell_ext.Http.Text.{find, strip_initial_whitespace}

pub record HttpHeader : Type 0 where
  pub key : Bytes
  pub value : Bytes

-- The value without its first spaces, unless it is nothing but spaces.
unfoldable pub strip_value : Bytes → Bytes
strip_value value =
    if is_nil (strip_initial_whitespace value) then value else strip_initial_whitespace value

unfoldable pub parse : Bytes → Result HttpHeader
parse buf = elim (find (b':' ∷ []) buf) [
  | none ↦ err exception
  | some colon_location ↦ ok (record {
    key = take colon_location buf;
    value = strip_value (drop (suc colon_location) buf);
  })
]

unfoldable pub str : HttpHeader → Bytes
str h = h.key ++ (b':' ∷ 32 ∷ h.value)
