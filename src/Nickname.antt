-- ===== src/Nickname.antt =====
-- `Nickname::random` of server/src/utils/Nickname.hpp and server/src/utils/Nickname.cpp. The
-- generator and its distributions are the standard library's: the three indices that were drawn
-- are arguments, and a distribution over `(0, n - 1)` draws an index below `n`.
pub mod Tables
use conspire.Prelude.{
  ℕ, suc, zero, ◌+◌, ◌*◌, ◌/◌, ◌%◌, ◌≤◌, ◌<◌, ◌≡◌, refl, sym, ◌≢◌, Bool, true, false, not, ◌&&◌,
  List, [], ◌∷◌, ◌++◌, Option, none, some, Option-cases, inl, inr, arith, ltb, length,
  if◌then◌else◌,
}
use Prim.Native.Char.{code}
use Prim.Native.String.{String}
use conspire.Prelude.Bytes.{Bytes, codes, same, same_iff, all_below, all_below_sound}
use Tables.{avatars, adjectives, nouns}

abbrev pub avatars_size : ℕ
avatars_size = 70

abbrev pub adjectives_size : ℕ
adjectives_size = 103

abbrev pub nouns_size : ℕ
nouns_size = 49

-- The bytes of a character of the source file.
unfoldable pub utf8 : ℕ → Bytes
utf8 c =
    if ltb c 128
    then c ∷ []
    else if ltb c 2048
    then (192 + c / 64) ∷ (128 + c % 64) ∷ []
    else if ltb c 65536
    then (224 + c / 4096) ∷ (128 + c / 64 % 64) ∷ (128 + c % 64) ∷ []
    else (240 + c / 262144) ∷ (128 + c / 4096 % 64) ∷ (128 + c / 64 % 64) ∷ (128 + c % 64) ∷ []

abbrev utf8_text : String → Bytes
utf8_text String.[] = []
utf8_text (String.◌∷◌ c s) = utf8 (code c) ++ utf8_text s

-- TABLE[index]; `none` is a read out of bounds.
unfoldable pub word : List String → ℕ → Option Bytes
word [] index = none
word (w ∷ ws) zero = some (utf8_text w)
word (w ∷ ws) (suc index) = word ws index

unfoldable pub joined : Option Bytes → Option Bytes → Option Bytes → Option Bytes
joined (some avatar) (some adjective) (some noun) =
    some (avatar ++ codes " " ++ adjective ++ codes " " ++ noun)
joined avatar adjective noun = none

unfoldable pub random : ℕ → ℕ → ℕ → Option Bytes
random a j n = joined (word avatars a) (word adjectives j) (word nouns n)

abbrev is_word : Option Bytes → Bool
is_word none = false
is_word (some w) = true

abbrev pub is_the_word : Bytes → Option Bytes → Bool
is_the_word text none = false
is_the_word text (some w) = same text w

avatars_in_bounds : all_below avatars_size (λ i. is_word (word avatars i)) ≡ true
unfolding all_below word
avatars_in_bounds = refl

adjectives_without_last :
    all_below adjectives_size
      (λ i. is_word (word adjectives i) && not (is_the_word (codes "Tiny") (word adjectives i)))
    ≡ true
unfolding all_below word utf8 same
adjectives_without_last = refl

nouns_without_last :
    all_below nouns_size
      (λ i. is_word (word nouns i) && not (is_the_word (codes "Year") (word nouns i)))
    ≡ true
unfolding all_below word utf8 same
nouns_without_last = refl

-- The word at a place of a table is there, and is not this one.
abbrev pub Draws : List String → ℕ → Bytes → Bytes → Type 0
Draws table index excluded drawn = (word table index ≡ some drawn) × (drawn ≢ excluded)

drawn_word :
    (table : List String) (index : ℕ) (excluded : Bytes)
    → (is_word (word table index) && not (is_the_word excluded (word table index))) ≡ true
    → (w : Bytes) × Draws table index excluded w
drawn_word table index excluded h = elim (Option-cases (word table index)) [
  | inl e ↦ absurd (ground (arith, e))
  | inr found ↦
      let (w, e) = found in
      let other : same excluded w ≡ false = ground (arith, e) in
      (w, (e, λ equal. cc ((same_iff excluded w).1 (sym equal), other)))
]

avatar_word :
    (table : List String) (index : ℕ)
    → is_word (word table index) ≡ true
    → (w : Bytes) × (word table index ≡ some w)
avatar_word table index h = elim (Option-cases (word table index)) [
  | inl e ↦ absurd (ground (arith, e))
  | inr found ↦ found
]

-- Whatever the distributions draw, no table is read out of bounds, and the name is the avatar, the
-- adjective and the noun at the drawn places with a space between. The adjective is never "Tiny"
-- and the noun never "Year".
pub random_lem :
    (a j n : ℕ)
    → a < avatars_size
    → j < adjectives_size
    → n < nouns_size
    → (avatar adjective noun : Bytes) × (word avatars a ≡ some avatar)
      × Draws adjectives j (codes "Tiny") adjective
      × Draws nouns n (codes "Year") noun
      × (random a j n ≡ some (avatar ++ codes " " ++ adjective ++ codes " " ++ noun))
unfolding random joined
random_lem a j n ha hj hn =
    let (avatar, pa) =
      avatar_word avatars a (all_below_sound avatars_size _ a avatars_in_bounds ha) in
    let (adjective, pj) =
      drawn_word adjectives j (codes "Tiny")
        (all_below_sound adjectives_size _ j adjectives_without_last hj) in
    let (noun, pn) =
      drawn_word nouns n (codes "Year") (all_below_sound nouns_size _ n nouns_without_last hn) in
    (avatar, adjective, noun, pa, pj, pn, rw (pa, pj.0, pn.0, joined) refl)
