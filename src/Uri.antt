-- ===== src/Uri.antt =====
-- The texts that identify a book: RedactUri of src/engine/map.cpp, HasSupportedScheme and Sqlite3Path of
-- src/engine/session.cpp, and book_path, HexEncode and StripCredentials of src/main.cpp.
pub mod Credentials
pub mod Hex
use daichod.Base.{
  ℕ, ◌+◌, ◌-◌, ◌/◌, ◌%◌, Bool, true, false, ◌||◌, Option, none, some, List, [], ◌∷◌, ◌++◌, length,
  ltb, if◌then◌else◌,
}
use daichod.Base.Text.{Bytes, str, starts_with, take, drop}
use daichod.Base.Find.{find_text, find_byte_from}

abbrev pub authority_mark : Bytes
authority_mark = b':' ∷ b'/' ∷ b'/' ∷ []

-- RedactUri, once the '@' and the ':' have been looked for.
abbrev pub redact_between : Bytes → Option ℕ → Option ℕ → Bytes
redact_between uri none colon = uri
redact_between uri (some at) none = uri
redact_between uri (some at) (some colon) =
    if ltb at colon then uri else take (colon + 1) uri ++ (b'*' ∷ b'*' ∷ b'*' ∷ drop at uri)

abbrev pub redact_from : Bytes → Option ℕ → Bytes
redact_from uri none = uri
redact_from uri (some scheme_end) =
    redact_between uri (find_byte_from b'@' (scheme_end + 3) uri)
      (find_byte_from b':' (scheme_end + 3) uri)

-- RedactUri
unfoldable pub redact_uri : Bytes → Bytes
redact_uri uri = redact_from uri (find_text authority_mark uri)

-- StripCredentials, once the '@' and the '/' have been looked for.
abbrev pub strip_before : Bytes → ℕ → Option ℕ → Option ℕ → Bytes
strip_before uri authority_start none slash_pos = uri
strip_before uri authority_start (some at_pos) none =
    take authority_start uri ++ drop (at_pos + 1) uri
strip_before uri authority_start (some at_pos) (some slash_pos) =
    if ltb slash_pos at_pos then uri else take authority_start uri ++ drop (at_pos + 1) uri

abbrev pub strip_from : Bytes → Option ℕ → Bytes
strip_from uri none = uri
strip_from uri (some scheme_end) =
    strip_before uri (scheme_end + 3) (find_byte_from b'@' (scheme_end + 3) uri)
      (find_byte_from b'/' (scheme_end + 3) uri)

-- StripCredentials
unfoldable pub strip_credentials : Bytes → Bytes
strip_credentials uri = strip_from uri (find_text authority_mark uri)

abbrev pub sqlite3_prefix : Bytes
sqlite3_prefix = str "sqlite3://"

-- HasSupportedScheme
unfoldable pub has_supported_scheme : Bytes → Bool
has_supported_scheme uri = starts_with sqlite3_prefix uri || starts_with (str "postgres://") uri

-- Sqlite3Path, and Options::book_path
unfoldable pub sqlite3_path : Bytes → Bytes
sqlite3_path uri = if starts_with sqlite3_prefix uri then drop 10 uri else []

-- kHexDigits
abbrev pub hex_digit : ℕ → ℕ
hex_digit n = if ltb n 10 then b'0' + n else b'a' + (n - 10)

-- HexEncode
unfoldable pub hex_encode : Bytes → Bytes
hex_encode [] = []
hex_encode (byte ∷ data') = hex_digit (byte / 16) ∷ hex_digit (byte % 16) ∷ hex_encode data'
