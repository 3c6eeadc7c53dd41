-- ===== src/Tor/Wire/Lines.antt =====
-- A line arrives whole, however the connection cuts what it delivers.
use conspire.Prelude.{
  ℕ, suc, ◌+◌, ◌≤◌, ◌<◌, ◌≡◌, ◌≢◌, refl, sym, ap, ◌∙◌, Bool, true, false, ◌&&◌, List, [], ◌∷◌, ◌++◌,
  Option, none, some, arith, leb, ◌==◌, length, if◌then◌else◌, Option-cases, inl, inr,
}
use mathlib.Core.List.{append_assoc, append-nil}
use conspire.Prelude.Bytes.{Bytes, All}
use conspire.Prelude.Result.{ok}
use conspire.Tor.Wire.{
  Received, read_interrupted, read_error, received, onto_line, split_line, at_head, unless_ended,
  Reading, read_from, max_line_bytes,
}

-- What the connection has yet to deliver, where it neither fails nor ends.
abbrev pub arriving : List Received → Bytes
arriving [] = []
arriving (received bytes ∷ script) = bytes ++ arriving script
arriving (answer ∷ script) = arriving script

abbrev pub IsDelivering : List Received → Type 0
IsDelivering [] = Unit
IsDelivering (read_interrupted ∷ script) = IsDelivering script
IsDelivering (read_error ∷ script) = ⊥
IsDelivering (received bytes ∷ script) = (bytes ≢ []) × IsDelivering script

-- A text with no CR.
abbrev pub IsLine : Bytes → Type 0
IsLine = All (λ c. c ≢ 13)

pub split_line-append_crlf :
    (line rest : Bytes) → IsLine line → split_line (line ++ (13 ∷ 10 ∷ rest)) ≡ some (line, rest)
unfolding split_line
split_line-append_crlf [] rest h = refl
split_line-append_crlf (c ∷ []) rest h = ground arith
split_line-append_crlf (c ∷ d ∷ cs) rest h =
    ground (arith, split_line-append_crlf (d ∷ cs) rest h.1)

-- More bytes after a line leave it as it is.
longer-eq-some :
    (here : Bool) (c : ℕ) (cs more : Bytes) (found found' : Option (Bytes × Bytes))
    (line rest : Bytes)
    → ((l r : Bytes) → found ≡ some (l, r) → found' ≡ some (l, r ++ more))
    → (if here then some ([], cs) else onto_line c found) ≡ some (line, rest)
    → (if here then some ([], cs ++ more) else onto_line c found') ≡ some (line, rest ++ more)
longer-eq-some true c cs more found found' line rest ih h = ap (λ o. more_after o) h
  where
    more_after : Option (Bytes × Bytes) → Option (Bytes × Bytes)
    more_after none = none
    more_after (some (l, r)) = some (l, r ++ more)
longer-eq-some false c cs more none found' line rest ih h = absurd cc
longer-eq-some false c cs more (some (l, r)) found' line rest ih h =
    rw (ih l r refl) (ap (λ o. more_after o) h)
  where
    more_after : Option (Bytes × Bytes) → Option (Bytes × Bytes)
    more_after none = none
    more_after (some (l', r')) = some (l', r' ++ more)

split_line-append :
    (buffer more line rest : Bytes)
    → split_line buffer ≡ some (line, rest)
    → split_line (buffer ++ more) ≡ some (line, rest ++ more)
unfolding split_line
split_line-append [] more line rest h = absurd cc
split_line-append (c ∷ []) more line rest h = absurd cc
split_line-append (c ∷ d ∷ cs) more line rest h =
    longer-eq-some (c == 13 && d == 10) c cs more (split_line (d ∷ cs))
      (split_line (d ∷ (cs ++ more))) line rest (λ l r e. split_line-append (d ∷ cs) more l r e) h

shorter-eq-some :
    (here : Bool) (c : ℕ) (cs cs' : Bytes) (found found' : Option (Bytes × Bytes))
    (line rest : Bytes) (n : ℕ)
    → ((l r : Bytes) → found ≡ none → found' ≡ some (l, r) → n < length l + 2)
    → (if here then some ([], cs) else onto_line c found) ≡ none
    → (if here then some ([], cs') else onto_line c found') ≡ some (line, rest)
    → suc n < length line + 2
shorter-eq-some true c cs cs' found found' line rest n ih h h' = absurd (cc h)
shorter-eq-some false c cs cs' (some found) found' line rest n ih h h' = absurd (cc h)
shorter-eq-some false c cs cs' none none line rest n ih h h' = absurd (cc h')
shorter-eq-some false c cs cs' none (some (l, r)) line rest n ih h h' =
    omega (arith, ih l r refl refl, ap measure h')
  where
    measure : Option (Bytes × Bytes) → ℕ
    measure none = 0
    measure (some (l', r')) = length l'

-- A buffer that has no line yet ends before the line feed does.
split_line_short :
    (buffer more line rest : Bytes)
    → split_line buffer ≡ none
    → split_line (buffer ++ more) ≡ some (line, rest)
    → length buffer < length line + 2
unfolding split_line
split_line_short [] more line rest h found = omega arith
split_line_short (c ∷ []) more line rest h found = omega arith
split_line_short (c ∷ d ∷ cs) more line rest h found =
    shorter-eq-some (c == 13 && d == 10) c cs (cs ++ more) (split_line (d ∷ cs))
      (split_line (d ∷ (cs ++ more))) line rest (length (d ∷ cs))
      (λ l r e e'. split_line_short (d ∷ cs) more l r e e') h found

-- The reading ended with the line, and what follows the line is still to be read.
pub record ArrivesAs (line rest : Bytes) (reading : Reading) : Type 0 where
  pub result : reading.0 ≡ ok line
  pub left : reading.1 ++ arriving reading.2 ≡ rest
  pub delivering : IsDelivering reading.2

at_head-eq-none :
    (buffer : Bytes)
    → split_line buffer ≡ none
    → leb max_line_bytes (length buffer) ≡ false
    → at_head buffer ≡ none
unfolding at_head
at_head-eq-none buffer absent small = rw (absent, at_head) (rw (small))

at_head-eq-some :
    (buffer : Bytes) (found : Bytes × Bytes)
    → split_line buffer ≡ some found
    → at_head buffer ≡ some (ok found.0, found.1)
unfolding at_head
at_head-eq-some buffer found here = rw (here, at_head)

unless_ended-ArrivesAs :
    (buffer : Bytes) (script : List Received) (line rest : Bytes) (tail : Reading)
    → split_line (buffer ++ arriving script) ≡ some (line, rest)
    → length line + 2 ≤ max_line_bytes
    → IsDelivering script
    → (split_line buffer ≡ none → ArrivesAs line rest tail)
    → ArrivesAs line rest (unless_ended script (at_head buffer) tail)
unless_ended-ArrivesAs buffer script line rest tail whole short delivering later =
    elim (Option-cases (split_line buffer)) [
      | inl absent ↦
          let small : leb max_line_bytes (length buffer) ≡ false =
            ground (arith, split_line_short buffer (arriving script) line rest absent whole) in
          rw (at_head-eq-none buffer absent small, unless_ended) (later absent)
      | inr ((l, r), found) ↦
          let same = sym (split_line-append buffer (arriving script) l r found) ∙ whole in
          rw (at_head-eq-some buffer (l, r) found, unless_ended)
            record {
              result = ap ok (ap (λ o. line_of o) same);
              left = ap (λ o. rest_of o) same;
              delivering = delivering;
            }
    ]
  where
    line_of : Option (Bytes × Bytes) → Bytes
    line_of none = []
    line_of (some (l, r)) = l

    rest_of : Option (Bytes × Bytes) → Bytes
    rest_of none = []
    rest_of (some (l, r)) = r

pub read_from-ArrivesAs :
    (buffer : Bytes) (script : List Received) (line rest : Bytes)
    → split_line (buffer ++ arriving script) ≡ some (line, rest)
    → length line + 2 ≤ max_line_bytes
    → IsDelivering script
    → ArrivesAs line rest (read_from buffer script)
unfolding read_from
read_from-ArrivesAs buffer [] line rest whole short delivering =
    unless_ended-ArrivesAs buffer [] line rest _ whole short delivering
      λ absent. absurd (cc (sym absent ∙ ap split_line (sym (append-nil buffer)) ∙ whole))
read_from-ArrivesAs buffer (read_interrupted ∷ script) line rest whole short delivering =
    unless_ended-ArrivesAs buffer (read_interrupted ∷ script) line rest _ whole short delivering
      λ absent. read_from-ArrivesAs buffer script line rest whole short delivering
read_from-ArrivesAs buffer (read_error ∷ script) line rest whole short delivering =
    absurd delivering
read_from-ArrivesAs buffer (received [] ∷ script) line rest whole short delivering =
    absurd (delivering.0 refl)
read_from-ArrivesAs buffer (received (c ∷ cs) ∷ script) line rest whole short delivering =
    unless_ended-ArrivesAs buffer (received (c ∷ cs) ∷ script) line rest _ whole short delivering
      λ absent.
        read_from-ArrivesAs (buffer ++ (c ∷ cs)) script line rest
          (ap split_line (append_assoc buffer (c ∷ cs) (arriving script)) ∙ whole) short
          delivering.1
