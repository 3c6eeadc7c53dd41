-- ===== src/Lifecycle/Pid.antt =====
-- `PidFile` of server/src/utils/Lifecycle.hpp: it removes only a path that it created.
use conspire.Prelude.{
  ◌≡◌, refl, Bool, true, false, List, [], ◌∷◌, ◌⊎◌, inl, inr, Bool-cases, if◌then◌else◌,
}
use conspire.Prelude.Bytes.{Bytes, same, same_iff}
use conspire.Boundaries.Text.{is_empty}

-- The path of the object, and the paths that are files now.
pub record PidFile : Type 0 where
  pub path : Bytes
  pub files : List Bytes

unfoldable pub exists : Bytes → List Bytes → Bool
exists path [] = false
exists path (file ∷ files) = let rest = exists path files in if same path file then true else rest

-- std::remove
unfoldable pub remove : Bytes → List Bytes → List Bytes
remove path [] = []
remove path (file ∷ files) =
    let rest = remove path files in if same path file then rest else file ∷ rest

unfoldable pub reset : PidFile → PidFile
unfolding remove
reset p = if is_empty p.path then p else record { path = []; files = remove p.path p.files }

-- What follows an open file: whether writing and closing went well.
unfoldable pub fill : Bytes → Bool → PidFile → Bool × PidFile
unfolding remove
fill path true p = (true, record { path = path; files = path ∷ p.files })
fill path false p = (false, record p { files = remove path (path ∷ p.files) })

-- The flags are the answers of the stream, after opening and after closing.
unfoldable pub create : Bytes → Bool → Bool → PidFile → Bool × PidFile
unfolding reset fill
create path opens fills p =
    if is_empty path
    then (true, reset p)
    else if opens
    then fill path fills (reset p)
    else (false, reset p)

exists-remove : (path : Bytes) (files : List Bytes) → exists path (remove path files) ≡ false
unfolding exists remove
exists-remove path [] = refl
exists-remove path (file ∷ files) = elim (Bool-cases (same path file)) [
  | inl here ↦ rw (here) (exists-remove path files)
  | inr other ↦ rw (other) (rw (other) (exists-remove path files))
]

is_empty-eq-true : (text : Bytes) → is_empty text ≡ true → text ≡ []
unfolding is_empty
is_empty-eq-true [] h = refl
is_empty-eq-true (c ∷ cs) h = absurd (cc h)

-- After a reset the object has no path, and the path that it had is no file.
pub reset_lem :
    (p : PidFile)
    → ((reset p).path ≡ []) × ((p.path ≡ []) ⊎ (exists p.path (reset p).files ≡ false))
unfolding reset
reset_lem p = elim (Bool-cases (is_empty p.path)) [
  | inl none_set ↦
      rw (none_set) (is_empty-eq-true p.path none_set, inl (is_empty-eq-true p.path none_set))
  | inr path_set ↦ rw (path_set) (refl, inr (exists-remove p.path p.files))
]

fill_lem :
    (path : Bytes) (fills : Bool) (p : PidFile)
    → p.path ≡ []
    → ((fill path fills p).1.path ≡ [])
      ⊎ (exists (fill path fills p).1.path (fill path fills p).1.files ≡ true)
unfolding fill
fill_lem path false p h = inl h
fill_lem path true p h = inr (unfold exists in rw ((same_iff path path).1 refl))

-- However the calls go, a creation leaves an object with no path or with one that is a file.
pub create_lem :
    (path : Bytes) (opens fills : Bool) (p : PidFile)
    → ((create path opens fills p).1.path ≡ [])
      ⊎ (exists (create path opens fills p).1.path (create path opens fills p).1.files ≡ true)
unfolding create
create_lem path opens fills p = elim (Bool-cases (is_empty path)) [
  | inl nothing ↦ rw (nothing) (inl (reset_lem p).0)
  | inr named ↦ elim (Bool-cases opens) [
    | inl opened ↦ rw (named, opened) (fill_lem path fills (reset p) (reset_lem p).0)
    | inr failed ↦ rw (named, failed) (inl (reset_lem p).0)
  ]
]
