-- ===== src/Statistics/State/Whole.antt =====
-- The state file is replaced as a whole or not at all.
use conspire.Prelude.{
  zero, suc, ◌≡◌, refl, sym, ap, ◌∙◌, true, false, ◌&&◌, List, [], ◌∷◌, ◌++◌, Option, some, arith,
  take, drop, take-append-drop, Bool-cases, inl, inr, ◌⊎◌,
}
use mathlib.Core.List.{append_assoc, append-nil}
use conspire.Prelude.Bytes.{Bytes}
use conspire.Statistics.State.{
  Written, interrupted, failed, wrote, write_all, Disk, write_atomically,
}

write_all-eq-true :
    (text : Bytes) (script : List Written) (content : Bytes)
    → (write_all text script content).0 ≡ true
    → (write_all text script content).1 ≡ content ++ text
unfolding write_all
write_all-eq-true [] script content h = sym (append-nil content)
write_all-eq-true (c ∷ cs) [] content h = absurd (cc h)
write_all-eq-true (c ∷ cs) (interrupted ∷ script) content h =
    write_all-eq-true (c ∷ cs) script content h
write_all-eq-true (c ∷ cs) (failed ∷ script) content h = absurd (cc h)
write_all-eq-true (c ∷ cs) (wrote zero ∷ script) content h = absurd (cc h)
write_all-eq-true (c ∷ cs) (wrote (suc n) ∷ script) content h =
    write_all-eq-true (drop n cs) script (content ++ (c ∷ take n cs)) h
    ∙ append_assoc content (c ∷ take n cs) (drop n cs)
    ∙ ap (λ t. content ++ (c ∷ t)) (take-append-drop n cs)

-- However the system calls go, the file afterwards holds all of the new text, or it is as it was
-- and the failure is reported.
pub write_atomically_lem :
    (disk : Disk) (text : Bytes) (before : Option Bytes)
    → ((write_atomically disk text before).1 ≡ some text)
      ⊎ ((write_atomically disk text before).1 ≡ before)
        × ((write_atomically disk text before).0 ≡ false)
unfolding write_atomically
write_atomically_lem disk text before = elim (Bool-cases disk.mkstemp) [
  | inr no_file ↦ rw (no_file) (inr (refl, refl))
  | inl made ↦
      elim (Bool-cases
        ((write_all text disk.writes []).0 && disk.fsync && disk.close && disk.rename)) [
          | inl renamed ↦
              rw (made, renamed)
                (inl (ap some (write_all-eq-true text disk.writes [] (ground arith))))
          | inr not_renamed ↦ rw (made, not_renamed) (inr (refl, refl))
        ]
]

-- What reports success has replaced the file.
pub write_atomically-eq-true :
    (disk : Disk) (text : Bytes) (before : Option Bytes)
    → (write_atomically disk text before).0 ≡ true
    → (write_atomically disk text before).1 ≡ some text
write_atomically-eq-true disk text before h = elim (write_atomically_lem disk text before) [
  | inl replaced ↦ replaced
  | inr kept ↦ absurd (cc (kept.1, h))
]
