-- ===== src/Boundaries/Escape.antt =====
-- The encoders of server/src/utils/ServerBoundaries.hpp: URL path segments, JavaScript string
-- literals, HTML text, page titles and attachment names.
pub mod Url
pub mod Script
pub mod Markup
use conspire.Prelude.{
  ℕ, ◌/◌, ◌%◌, ◌≤◌, ◌<◌, ◌≡◌, Bool, true, false, not, ◌&&◌, ◌||◌, List, [], ◌∷◌, ◌++◌, map, arith,
  ltb, leb, ◌==◌, length, get_or, if◌then◌else◌,
}
use conspire.Prelude.Bytes.{Bytes, codes}
use conspire.Boundaries.Text.{is_empty, begins_with, is_alphanumeric}

-- "0123456789ABCDEF"[digit]
unfoldable pub hex_digit : ℕ → ℕ
hex_digit digit = get_or (codes "0123456789ABCDEF") digit 0

-- A byte that a URL path segment keeps.
unfoldable pub is_unreserved : ℕ → Bool
is_unreserved c = is_alphanumeric c || c == b'-' || c == b'_' || c == b'.'

-- `character >> 4` and `character & 0x0f`
unfoldable pub url_byte : ℕ → Bytes
url_byte c = if is_unreserved c then c ∷ [] else b'%' ∷ hex_digit (c / 16) ∷ hex_digit (c % 16) ∷ []

unfoldable pub url_path_segment : Bytes → Bytes
url_path_segment [] = []
url_path_segment (c ∷ cs) = url_byte c ++ url_path_segment cs

-- The cases of the switch, in their order.
unfoldable pub script_byte : ℕ → Bytes
script_byte c =
    if c == b'\\'
    then b'\\' ∷ b'\\' ∷ []
    else if c == b'"'
    then b'\\' ∷ b'"' ∷ []
    else if c == b'\n'
    then b'\\' ∷ b'n' ∷ []
    else if c == b'\r'
    then b'\\' ∷ b'r' ∷ []
    else if c == b'\t'
    then b'\\' ∷ b't' ∷ []
    else if c == b'<'
    then b'\\' ∷ b'u' ∷ b'0' ∷ b'0' ∷ b'3' ∷ b'C' ∷ []
    else if c == b'>'
    then b'\\' ∷ b'u' ∷ b'0' ∷ b'0' ∷ b'3' ∷ b'E' ∷ []
    else if ltb c 0x20 || c == 0x7f
    then b'\\' ∷ b'u' ∷ b'0' ∷ b'0' ∷ hex_digit (c / 16) ∷ hex_digit (c % 16) ∷ []
    else c ∷ []

unfoldable pub script_body : Bytes → Bytes
script_body [] = []
script_body (c ∷ cs) = script_byte c ++ script_body cs

unfoldable pub javascript_string : Bytes → Bytes
javascript_string value = b'"' ∷ (script_body value ++ b'"' ∷ [])

unfoldable pub html_byte : ℕ → Bytes
html_byte c =
    if c == b'&'
    then codes "&amp;"
    else if c == b'<'
    then codes "&lt;"
    else if c == b'>'
    then codes "&gt;"
    else if c == b'"'
    then codes "&quot;"
    else if c == b'\''
    then codes "&#39;"
    else c ∷ []

unfoldable pub html_text : Bytes → Bytes
html_text [] = []
html_text (c ∷ cs) = html_byte c ++ html_text cs

-- version.remove_prefix(1)
unfoldable pub without_first : Bytes → Bytes
without_first [] = []
without_first (c ∷ cs) = cs

unfoldable pub page_title : Bytes → Bytes
page_title version =
    let shown = if begins_with b'v' version then without_first version else version in
    codes "Conspire v" ++ (html_text shown ++ codes " by Dyne.org")

unfoldable pub attachment_byte : ℕ → ℕ
attachment_byte c = if ltb c 0x20 || leb 0x7f c || c == b'"' || c == b'\\' then b'_' else c

unfoldable pub attachment_filename : Bytes → Bytes
attachment_filename filename =
    let result = map attachment_byte filename in
    if is_empty result then codes "download" else result
