-- ===== src/Boundaries/Text/Sound.antt =====
-- What the validators of server/src/utils/ServerBoundaries.hpp guarantee of a value they accept.
use mathlib.Core.Bool.{false≢true}
use conspire.Prelude.{
  ℕ, ◌+◌, ◌≤◌, ◌<◌, ◌≡◌, ◌≢◌, ◌↔◌, refl, sym, ap, ◌∙◌, ==_iff, true, false, [], ◌∷◌, ◌++◌, arith,
  length,
}
use conspire.Prelude.Int.{ℤ, pos, negsuc}
use conspire.Prelude.Bytes.{Bytes, codes, All, is_prefix, find, find-eq-none}
use conspire.Boundaries.Limits.{limits}
use conspire.Boundaries.Text.{
  is_empty, begins_with, contains_control, is_none, is_at_start, valid_chunk, valid_relative_path,
  valid_request_path, valid_file_descriptor,
}

-- A chunk is admitted exactly if it declares as many bytes as arrived, at most 64 KiB, and lies
-- within the file. No sum is formed that could wrap.
pub valid_chunk_iff :
    (position declared_size total_size : ℤ) (received : ℕ)
    → (valid_chunk position declared_size received total_size ≡ true) ↔ (
        (p : ℕ) × (t : ℕ) × (position ≡ pos p)
        × (declared_size ≡ pos received)
        × (total_size ≡ pos t)
        × (received ≤ limits.chunk_bytes)
        × (p + received ≤ t))
unfolding valid_chunk
valid_chunk_iff (pos p) (pos s) (pos t) received = (
  λ h. (p, t, refl, ground arith, refl, ground arith, ground arith),
  λ (p', t', ep, es, et, small, fits). ground arith,
)
valid_chunk_iff (pos p) (pos s) (negsuc t) received =
    (λ h. absurd (false≢true h), λ (p', t', ep, es, et, small, fits). cc)
valid_chunk_iff (pos p) (negsuc s) t received =
    (λ h. absurd (false≢true h), λ (p', t', ep, es, et, small, fits). cc)
valid_chunk_iff (negsuc p) s t received =
    (λ h. absurd (false≢true h), λ (p', t', ep, es, et, small, fits). cc)

-- The bytes of a text that `containsControl` passes.
abbrev pub HasNoControl : Bytes → Type 0
HasNoControl = All (λ c. (0x20 ≤ c) × (c ≢ 0x7f))

pub contains_control-eq-false :
    (value : Bytes) → contains_control value ≡ false → HasNoControl value
unfolding contains_control
contains_control-eq-false [] h = tt
contains_control-eq-false (c ∷ cs) h = ground (arith, contains_control-eq-false cs)

is_none-find :
    (before needle after : Bytes) → is_none (find needle (before ++ (needle ++ after))) ≡ false
unfolding is_none
is_none-find before needle after = ground (arith, find-eq-none before needle after)

slashes_rejected : (rest : Bytes) → valid_request_path (codes "//" ++ rest) ≡ false
unfolding valid_request_path is_empty begins_with is_at_start find is_prefix
slashes_rejected rest = refl

parent_rejected :
    (before after : Bytes) → valid_request_path (before ++ (codes ".." ++ after)) ≡ false
unfolding valid_request_path
parent_rejected before after = ground (arith, is_none-find before (codes "..") after)

absolute : (path : Bytes) → begins_with b'/' path ≡ true → (rest : Bytes) × (path ≡ b'/' ∷ rest)
unfolding begins_with
absolute [] h = absurd (false≢true h)
absolute (c ∷ cs) h = (cs, ground (arith, ==_iff c b'/'))

-- A request path that is accepted is absolute, names no parent directory anywhere, does not begin
-- with two slashes and holds no control character.
pub valid_request_path_sound :
    (path : Bytes)
    → valid_request_path path ≡ true
    → ((rest : Bytes) → path ≢ codes "//" ++ rest)
      × ((before after : Bytes) → path ≢ before ++ (codes ".." ++ after))
      × ((rest : Bytes) × (path ≡ b'/' ∷ rest))
      × HasNoControl path
unfolding valid_request_path
valid_request_path_sound path h = (
  λ rest e. false≢true (sym (slashes_rejected rest) ∙ ap valid_request_path (sym e) ∙ h),
  λ before after e.
      false≢true (sym (parent_rejected before after) ∙ ap valid_request_path (sym e) ∙ h),
  absolute path (ground arith),
  contains_control-eq-false path (ground arith),
)

slash_rejected : (rest : Bytes) → valid_relative_path (b'/' ∷ rest) ≡ false
unfolding valid_relative_path is_empty begins_with
slash_rejected rest = refl

module _ (before after : Bytes) where
  up_rejected : valid_relative_path (before ++ (codes ".." ++ after)) ≡ false
  unfolding valid_relative_path
  up_rejected = ground (arith, is_none-find before (codes "..") after)

  query_rejected : valid_relative_path (before ++ (codes "?" ++ after)) ≡ false
  unfolding valid_relative_path
  query_rejected = ground (arith, is_none-find before (codes "?") after)

  fragment_rejected : valid_relative_path (before ++ (codes "#" ++ after)) ≡ false
  unfolding valid_relative_path
  fragment_rejected = ground (arith, is_none-find before (codes "#") after)

-- A relative path that is accepted, such as the statistics route, is not absolute and names no
-- parent directory, no query and no fragment.
pub valid_relative_path_sound :
    (path : Bytes)
    → valid_relative_path path ≡ true
    → ((rest : Bytes) → path ≢ b'/' ∷ rest)
      × ((before after : Bytes) → path ≢ before ++ (codes ".." ++ after))
      × ((before after : Bytes) → path ≢ before ++ (codes "?" ++ after))
      × ((before after : Bytes) → path ≢ before ++ (codes "#" ++ after))
      × HasNoControl path
unfolding valid_relative_path
valid_relative_path_sound path h = (
  λ rest e. false≢true (sym (slash_rejected rest) ∙ ap valid_relative_path (sym e) ∙ h),
  λ before after e.
      false≢true (sym (up_rejected before after) ∙ ap valid_relative_path (sym e) ∙ h),
  λ before after e.
      false≢true (sym (query_rejected before after) ∙ ap valid_relative_path (sym e) ∙ h),
  λ before after e.
      false≢true (sym (fragment_rejected before after) ∙ ap valid_relative_path (sym e) ∙ h),
  contains_control-eq-false path (ground arith),
)

-- A file descriptor is accepted exactly if the name has 1 to 255 bytes, none of them a control
-- character, and the size lies between 0 and the limit.
pub valid_file_descriptor_iff :
    (filename : Bytes) (size : ℤ) (maximum_size : ℕ)
    → (valid_file_descriptor filename size maximum_size ≡ true) ↔ (
        (0 < length filename)
        × (length filename ≤ limits.filename)
        × (contains_control filename ≡ false)
        × (n : ℕ) × (size ≡ pos n)
        × (n ≤ maximum_size))
unfolding valid_file_descriptor is_empty
valid_file_descriptor_iff [] size maximum_size =
    (λ h. absurd (false≢true h), λ (some_byte, short, clean, m, e, fits). absurd (omega arith))
valid_file_descriptor_iff (c ∷ cs) (pos n) maximum_size = (
  λ h. (omega arith, ground arith, ground arith, n, refl, ground arith),
  λ (some_byte, short, clean, m, e, fits). ground arith,
)
valid_file_descriptor_iff (c ∷ cs) (negsuc n) maximum_size =
    (λ h. absurd (false≢true (ground arith)), λ (some_byte, short, clean, m, e, fits). cc)
