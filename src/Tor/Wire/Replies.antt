-- ===== src/Tor/Wire/Replies.antt =====
-- A reply arrives whole: `readReply` reads back what the protocol writes for a status and texts.
use mathlib.Core.Path.{subst}
use conspire.Prelude.{
  ℕ, zero, suc, ◌+◌, ◌*◌, ◌/◌, ◌%◌, ◌≤◌, ◌<◌, ◌≡◌, ◌≢◌, refl, ap, ◌∙◌, true, false, List, [], ◌∷◌,
  ◌++◌, some, arith, ltb, ==_iff, length,
}
use mathlib.Core.List.{append_assoc}
use conspire.Prelude.Bytes.{Bytes, All, within}
use conspire.Prelude.Result.{Result, ok}
use conspire.Tor.Wire.{
  OnionService, split_line, read_from, read_line, max_line_bytes, max_reply_bytes, TorError, Reply,
  reply_line, is_digit, judge, judge_parts, ended, unended, expected_status, reply_loop, reply_fuel,
  read_reply, no_reply, go_on,
}
use conspire.Tor.Wire.Lines.{
  IsLine, IsDelivering, arriving, ArrivesAs, read_from-ArrivesAs, split_line-append_crlf,
}

-- A line of a reply: three digits, a mark, the text.
unfoldable pub numbered : ℕ → ℕ → Bytes → Bytes
numbered status mark text =
    (b'0' + status / 100) ∷ (b'0' + status / 10 % 10) ∷ (b'0' + status % 10) ∷ mark ∷ text

-- All lines of a reply; a hyphen says that another follows.
unfoldable pub print_reply : ℕ → Bytes → List Bytes → Bytes
print_reply status text [] = numbered status b' ' text ++ (13 ∷ 10 ∷ [])
print_reply status text (text' ∷ texts) =
    numbered status b'-' text ++ (13 ∷ 10 ∷ print_reply status text' texts)

-- The bytes of the lines.
unfoldable pub reply_size : Bytes → List Bytes → ℕ
reply_size text [] = 4 + length text
reply_size text (text' ∷ texts) = 4 + length text + reply_size text' texts

reply_line-numbered :
    (status mark : ℕ) (text : Bytes)
    → status < 1000
    → reply_line (numbered status mark text) ≡ some (status, mark, text)
unfolding numbered reply_line is_digit
reply_line-numbered status mark text small =
    let hundreds : within b'0' b'9' (b'0' + status / 100) ≡ true = ground arith in
    let tens : within b'0' b'9' (b'0' + status / 10 % 10) ≡ true = ground arith in
    let ones : within b'0' b'9' (b'0' + status % 10) ≡ true = ground arith in
    rw (hundreds, tens, ones) (ap (λ value. some (value, mark, text)) (omega arith))

judge-numbered :
    (reply : Reply) (total status mark : ℕ) (text : Bytes)
    → status < 1000
    → total ≤ max_reply_bytes
    → judge reply total (numbered status mark text) ≡ judge_parts reply (some (status, mark, text))
unfolding judge
judge-numbered reply total status mark text small bounded =
    let fits : ltb max_reply_bytes total ≡ false = ground arith in
    rw (fits, reply_line-numbered status mark text small)

numbered-IsLine :
    (status mark : ℕ) (text : Bytes) → mark ≢ 13 → IsLine text → IsLine (numbered status mark text)
unfolding numbered
numbered-IsLine status mark text h line = (omega arith, (omega arith, (omega arith, (h, line))))

-- What a reading of a reply leaves of the connection.
pub record Leaves (reply : Reply) (rest : Bytes) (outcome : Result TorError Reply × OnionService)
    : Type 0 where
  pub result : outcome.0 ≡ ok reply
  pub left : outcome.1.read_buffer ++ arriving outcome.1.incoming ≡ rest
  pub delivering : IsDelivering outcome.1.incoming

-- Texts that the protocol may send: no CR, and short enough for a line.
abbrev pub IsText : Bytes → Type 0
IsText text = IsLine text × (length text + 6 ≤ max_line_bytes)

-- One line is read and judged.
one_line :
    (fuel : ℕ) (reply : Reply) (total status mark : ℕ) (text after rest : Bytes) (expected : Reply)
    (s : OnionService)
    → status < 1000
    → mark ≢ 13
    → total + (4 + length text) ≤ max_reply_bytes
    → IsText text
    → IsDelivering s.incoming
    → s.read_buffer ++ arriving s.incoming ≡ numbered status mark text ++ (13 ∷ 10 ∷ after)
    → ((s' : OnionService)
        → IsDelivering s'.incoming
        → s'.read_buffer ++ arriving s'.incoming ≡ after
        → Leaves expected rest (
            go_on
              (judge_parts reply (some (status, mark, text)))
              (λ reply'. reply_loop fuel reply' (total + (4 + length text)))
              s'))
    → Leaves expected rest (reply_loop (suc fuel) reply total s)
unfolding reply_loop read_line
one_line fuel reply total status mark text after rest expected s small feed bounded (line, short)
      delivering stream next =
    let arrives : ArrivesAs (numbered status mark text) after (read_from s.read_buffer s.incoming) =
      read_from-ArrivesAs s.read_buffer s.incoming (numbered status mark text) after
        (ap split_line stream
          ∙ split_line-append_crlf (numbered status mark text) after
              (numbered-IsLine status mark text feed line))
        (unfold numbered in omega (arith, short)) delivering in
    let size : length (numbered status mark text) ≡ 4 + length text =
      unfold numbered in omega arith in
    rw
      (
        arrives.result,
        size,
        judge-numbered reply (total + (4 + length text)) status mark text small bounded,
      )
      (next _ arrives.delivering arrives.left)

judge_parts-eq-ended :
    (reply : Reply) (status : ℕ) (text : Bytes)
    → expected_status reply status ≡ status
    → judge_parts reply (some (status, b' ', text))
      ≡ ended (record { status = status; lines = reply.lines ++ (text ∷ []) })
unfolding judge_parts
judge_parts-eq-ended reply status text same = rw (same, (==_iff status status).1 refl)

judge_parts-eq-unended :
    (reply : Reply) (status : ℕ) (text : Bytes)
    → expected_status reply status ≡ status
    → judge_parts reply (some (status, b'-', text))
      ≡ unended (record { status = status; lines = reply.lines ++ (text ∷ []) })
unfolding judge_parts
judge_parts-eq-unended reply status text same = rw (same, (==_iff status status).1 refl)

expected_status_kept :
    (status : ℕ) (lines : List Bytes)
    → expected_status (record { status = status; lines = lines }) status ≡ status
expected_status_kept status lines = ground arith

Leaves-lines :
    (status : ℕ) (rest : Bytes) (outcome : Result TorError Reply × OnionService)
    {lines lines' : List Bytes}
    → lines ≡ lines'
    → Leaves (record { status = status; lines = lines }) rest outcome
    → Leaves (record { status = status; lines = lines' }) rest outcome
Leaves-lines status rest outcome same =
    subst (λ texts. Leaves (record { status = status; lines = texts }) rest outcome) same

reply_loop-Leaves :
    (texts : List Bytes) (text : Bytes) (fuel : ℕ) (reply : Reply) (total status : ℕ) (rest : Bytes)
    (s : OnionService)
    → status < 1000
    → expected_status reply status ≡ status
    → length texts < fuel
    → total + reply_size text texts ≤ max_reply_bytes
    → All IsText (text ∷ texts)
    → IsDelivering s.incoming
    → s.read_buffer ++ arriving s.incoming ≡ print_reply status text texts ++ rest
    → Leaves
        (record { status = status; lines = reply.lines ++ (text ∷ texts) })
        rest
        (reply_loop fuel reply total s)
unfolding print_reply reply_size
reply_loop-Leaves texts text zero reply total status rest s small same enough bounded fine
      delivering stream =
    absurd (omega arith)
reply_loop-Leaves [] text (suc fuel) reply total status rest s small same enough bounded fine
      delivering stream =
    one_line fuel reply total status b' ' text rest rest _ s small (omega arith) bounded fine.0
      delivering (stream ∙ append_assoc (numbered status b' ' text) (13 ∷ 10 ∷ []) rest)
      λ s' delivering' left.
        rw (judge_parts-eq-ended reply status text same)
          record { result = refl; left = left; delivering = delivering' }
reply_loop-Leaves (text' ∷ texts) text (suc fuel) reply total status rest s small same enough
      bounded fine delivering stream =
    one_line fuel reply total status b'-' text (print_reply status text' texts ++ rest) rest _ s
      small (omega arith) (omega arith) fine.0 delivering
      (stream
        ∙ append_assoc (numbered status b'-' text) (13 ∷ 10 ∷ print_reply status text' texts) rest)
      λ s' delivering' left. rw (judge_parts-eq-unended reply status text same) (
        Leaves-lines status rest _ (append_assoc reply.lines (text ∷ []) (text' ∷ texts)) (
          reply_loop-Leaves texts text' fuel
            (record { status = status; lines = reply.lines ++ (text ∷ []) })
            (total + (4 + length text)) status rest s' small
            (expected_status_kept status (reply.lines ++ (text ∷ []))) (omega arith)
            (omega (arith, bounded)) fine.1 delivering' left))

reply_size-le : (text : Bytes) (texts : List Bytes) → 4 * length texts + 4 ≤ reply_size text texts
unfolding reply_size
reply_size-le text [] = omega arith
reply_size-le text (text' ∷ texts) = omega (arith, reply_size-le text' texts)

-- A reply that the connection delivers, in pieces of any size and with interruptions, is read
-- back with its status and its texts, and what follows it stays to be read; its texts have no CR,
-- each line fits 8192 bytes and all of them 64 KiB.
pub read_reply-print_reply :
    (status : ℕ) (text : Bytes) (texts : List Bytes) (rest : Bytes) (s : OnionService)
    → status < 1000
    → reply_size text texts ≤ max_reply_bytes
    → All IsText (text ∷ texts)
    → IsDelivering s.incoming
    → s.read_buffer ++ arriving s.incoming ≡ print_reply status text texts ++ rest
    → Leaves (record { status = status; lines = text ∷ texts }) rest (read_reply s)
unfolding read_reply
read_reply-print_reply status text texts rest s small bounded fine delivering stream =
    reply_loop-Leaves texts text reply_fuel no_reply 0 status rest s small refl
      (omega (arith, bounded, reply_size-le text texts)) (omega (arith, bounded)) fine delivering
      stream
