-- ===== src/Boundaries/Escape/Markup.antt =====
-- `htmlText`, `pageTitle` and `attachmentFilename` of server/src/utils/ServerBoundaries.hpp.
use conspire.Prelude.{ℕ, ◌≤◌, ◌<◌, ◌≢◌, [], ◌∷◌, map, arith}
use conspire.Prelude.Bytes.{Bytes, codes, All, All-append}
use conspire.Boundaries.Text.{is_empty}
use conspire.Boundaries.Escape.{
  html_byte, html_text, page_title, attachment_byte, attachment_filename,
}

-- Neither opens or closes a tag nor ends a quoted attribute.
abbrev pub IsInert : ℕ → Type 0
IsInert c = (c ≢ b'<') × (c ≢ b'>') × (c ≢ b'"') × (c ≢ b'\'')

html_byte-IsInert : (c : ℕ) → All IsInert (html_byte c)
unfolding html_byte
html_byte-IsInert c = ground arith

-- HTML text, whatever it was made from, holds no angle bracket and no quote: it opens no tag and
-- ends no attribute.
pub html_text-IsInert : (value : Bytes) → All IsInert (html_text value)
unfolding html_text
html_text-IsInert [] = tt
html_text-IsInert (c ∷ cs) =
    All-append IsInert (html_byte c) (html_text cs) (html_byte-IsInert c) (html_text-IsInert cs)

-- A title opens no tag, whatever the version.
pub page_title-IsInert : (version : Bytes) → All IsInert (page_title version)
unfolding page_title
page_title-IsInert version =
    All-append IsInert (codes "Conspire v") _ (omega arith)
      (All-append IsInert (html_text _) (codes " by Dyne.org") (html_text-IsInert _) (omega arith))

-- A byte that may stand in a quoted string of an HTTP header.
abbrev pub IsQuotable : ℕ → Type 0
IsQuotable c = (0x20 ≤ c) × (c < 0x7f) × (c ≢ b'"') × (c ≢ b'\\')

attachment_byte-IsQuotable : (c : ℕ) → IsQuotable (attachment_byte c)
unfolding attachment_byte
attachment_byte-IsQuotable c = ground arith

map-IsQuotable : (name : Bytes) → All IsQuotable (map attachment_byte name)
map-IsQuotable [] = tt
map-IsQuotable (c ∷ cs) = (attachment_byte-IsQuotable c, map-IsQuotable cs)

-- The name in a content disposition is never empty and holds only visible ASCII and spaces, with
-- no quote and no backslash.
pub attachment_filename-IsQuotable :
    (filename : Bytes)
    → All IsQuotable (attachment_filename filename) × (attachment_filename filename ≢ [])
unfolding attachment_filename is_empty
attachment_filename-IsQuotable [] = (omega arith, λ e. cc)
attachment_filename-IsQuotable (c ∷ cs) = (map-IsQuotable (c ∷ cs), λ e. cc)
