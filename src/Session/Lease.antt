-- ===== src/Session/Lease.antt =====
-- `SessionLease` and `PendingHelloLease` of server/src/utils/SessionReliability.hpp. Time points
-- are counts of the monotonic clock.
use conspire.Prelude.{
  ℕ, ◌+◌, ◌<◌, ◌≡◌, ◌↔◌, ◌⊎◌, Bool, true, false, not, ◌&&◌, ◌||◌, Option, none, some, arith, ltb,
  leb, if◌then◌else◌, seconds,
}

abbrev pub grace_period : ℕ
grace_period = seconds 300

abbrev pub pending_hello_period : ℕ
pending_hello_period = seconds 10

pub record SessionLease : Type 0 where
  pub deadline : Option ℕ

abbrev pub connected : SessionLease
connected = record { deadline = none }

unfoldable pub detach : SessionLease → ℕ → SessionLease
detach l now = record { deadline = some (now + grace_period) }

unfoldable pub disconnected : SessionLease → Bool
disconnected l = elim l.deadline [ none ↦ false | some d ↦ true ]

unfoldable pub can_resume : SessionLease → ℕ → Bool
can_resume l now = elim l.deadline [ none ↦ false | some d ↦ ltb now d ]

unfoldable pub expires : SessionLease → ℕ → Bool
expires l now = elim l.deadline [ none ↦ false | some d ↦ leb d now ]

unfoldable pub resume : SessionLease → ℕ → SessionLease × Bool
resume l now = if not (can_resume l now) then (l, false) else (record { deadline = none }, true)

-- At every moment a disconnected session can either be resumed or has expired, never both, and a
-- connected one neither resumes nor expires.
pub resume_or_expire :
    (l : SessionLease) (now : ℕ)
    → ((disconnected l ≡ true) ↔ ((can_resume l now ≡ true) ⊎ (expires l now ≡ true)))
      × ¬ ((can_resume l now ≡ true) × (expires l now ≡ true))
unfolding disconnected can_resume expires
resume_or_expire l now = (ground arith, ground arith)

-- A session that lost its transport at `start` resumes exactly within the grace period.
pub resume_within_grace :
    (l : SessionLease) (start now : ℕ)
    → ((resume (detach l start) now).1 ≡ true) ↔ (now < start + grace_period)
unfolding resume detach can_resume
resume_within_grace l start now = ground arith

-- A session that has resumed neither resumes again nor expires before it is detached again.
pub resume_once :
    (l : SessionLease) (now later : ℕ)
    → (resume l now).1 ≡ true
    → ((resume (resume l now).0 later).1 ≡ false) × (expires (resume l now).0 later ≡ false)
unfolding resume can_resume expires
resume_once l now later h = ground arith

-- A refused attempt to resume changes nothing.
pub resume_refused : (l : SessionLease) (now : ℕ) → (resume l now).1 ≡ false → (resume l now).0 ≡ l
unfolding resume
resume_refused l now h = ground arith

pub record PendingHelloLease : Type 0 where
  pub deadline : ℕ
  pub consumed : Bool

unfoldable pub pending_hello : ℕ → PendingHelloLease
pending_hello created = record { deadline = created + pending_hello_period; consumed = false }

unfoldable pub accept : PendingHelloLease → ℕ → PendingHelloLease × Bool
accept l now =
    if l.consumed || leb l.deadline now then (l, false) else (record l { consumed = true }, true)

unfoldable pub hello_expires : PendingHelloLease → ℕ → Bool
hello_expires l now = not l.consumed && leb l.deadline now

-- A transport has one hello: it is accepted exactly within ten seconds, after that no other is,
-- and an accepted transport does not expire for want of a hello.
pub hello_once :
    (created now later : ℕ)
    → (((accept (pending_hello created) now).1 ≡ true) ↔ (now < created + pending_hello_period))
      × ((accept (pending_hello created) now).1 ≡ true
          → ((accept (accept (pending_hello created) now).0 later).1 ≡ false)
            × (hello_expires (accept (pending_hello created) now).0 later ≡ false))
unfolding accept pending_hello hello_expires
hello_once created now later = ground arith
