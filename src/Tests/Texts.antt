-- ===== src/Tests/Texts.antt =====
-- The checks of untrusted values, their encodings and the names at concrete inputs.
use conspire.Prelude.{◌+◌, ◌≡◌, ◌↔◌, refl, false, [], List, ◌∷◌, ◌++◌, none, some, arith, length}
use conspire.Prelude.Int.{pos}
use conspire.Prelude.Bytes.{Bytes, codes, find}
use conspire.Boundaries.Chunk.{accept, begin, initial, accepted, duplicate}
use conspire.Boundaries.Chunk as Chunk
use conspire.Boundaries.Chunk.Once.{accept_once}
use conspire.Boundaries.Escape.{javascript_string, url_path_segment}
use conspire.Boundaries.Escape.Script.{read_literal, read_literal-javascript_string}
use conspire.Boundaries.Escape.Url.{percent_decode, percent_decode-url_path_segment}
use conspire.Boundaries.Replace.{replace_literal, replace_loop}
use conspire.Boundaries.Replace.Pieces.{join, IsSplit, replace_literal_pieces}
use conspire.Nickname.{random, word, Draws, random_lem}
use conspire.Nickname.Tables.{avatars, adjectives, nouns}

abbrev answered : Chunk.ChunkRequest
answered = (Chunk.accept (Chunk.begin initial (pos 0) (pos 2)).0 1 (pos 0) (pos 2) 2).0

accept_once_example :
    (Chunk.accept answered 1 (pos 0) (pos 2) 2 ≡ (answered, duplicate))
    × (Chunk.accept (Chunk.begin answered (pos 2) (pos 4)).0 1 (pos 0) (pos 2) 2
        ≡ ((Chunk.begin answered (pos 2) (pos 4)).0, duplicate))
unfolding Chunk.accept Chunk.begin Chunk.size_mismatch Chunk.repeats Chunk.answers Chunk.next_id
accept_once_example =
    accept_once (Chunk.begin initial (pos 0) (pos 2)).0 1 (pos 0) (pos 2) (pos 2) (pos 4) 2 refl

read_literal-javascript_string_example :
    (body : Bytes) × (javascript_string (codes "a\"<") ++ codes ";" ≡ b'"' ∷ body)
    × (read_literal body ≡ some (codes "a\"<", codes ";"))
read_literal-javascript_string_example =
    read_literal-javascript_string (codes "a\"<") (codes ";")
      (omega arith, (omega arith, (omega arith, tt)))

percent_decode-url_path_segment_example :
    percent_decode (url_path_segment (codes "a b")) ≡ codes "a b"
percent_decode-url_path_segment_example =
    percent_decode-url_path_segment (codes "a b") (omega arith, (omega arith, (omega arith, tt)))

random_lem_example :
    (avatar adjective noun : Bytes) × (word avatars 69 ≡ some avatar)
    × Draws adjectives 102 (codes "Tiny") adjective
    × Draws nouns 48 (codes "Year") noun
    × (random 69 102 48 ≡ some (avatar ++ codes " " ++ adjective ++ codes " " ++ noun))
random_lem_example = random_lem 69 102 48 (omega arith) (omega arith) (omega arith)

abbrev page : Bytes
page = codes "a{x}b"

abbrev marker : Bytes
marker = codes "{x}"

replace_literal_pieces_example :
    ((first : Bytes) × (pieces : List Bytes) × (join marker first pieces ≡ page)
      × IsSplit marker first pieces
      × ((replace_literal page marker (codes "1")).0 ≡ join (codes "1") first pieces))
    × (((replace_literal page marker (codes "1")).1 ≡ false) ↔ (find marker page ≡ none))
    × ((replace_literal page marker (codes "1") ≡ (page, false)) ↔ (find marker page ≡ none))
    × (replace_literal page [] (codes "1") ≡ (page, false))
    × (replace_literal page marker (codes "1")
        ≡ replace_loop (length page + 2) marker (codes "1") [] page false)
replace_literal_pieces_example = replace_literal_pieces page marker (codes "1") 2 (omega arith)
