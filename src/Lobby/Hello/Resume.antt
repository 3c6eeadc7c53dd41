-- ===== src/Lobby/Hello/Resume.antt =====
-- What a resume token is worth (`Lobby::acceptSessionHello`, server/src/rooms/Lobby.cpp).
use conspire.Prelude.{
  ℕ, ◌≡◌, refl, sym, ap, ◌∙◌, true, false, Option, none, some, inl, inr, Bool-cases, Option-cases,
  arith,
}
use conspire.Prelude.Maps.{nat_eq, lookup, insert, lookup-insert}
use conspire.Prelude.Bytes.{Bytes, bytes_eq, same_iff}
use conspire.Session.Dedupe.{valid_base64_url_id}
use conspire.Session.Lease.{SessionLease, connected, resume, can_resume}
use conspire.Session.Tokens.{digest_token}
use conspire.Lobby.{Lobby, SessionRecord, in_room}
use conspire.Lobby.Kept.{in_room-IsKept}
use conspire.Lobby.Hello.{rebind, agreeing, known_session, resume_session}

agreeing-eq-some :
    (digest name : Bytes) (l : Lobby) (o : Option SessionRecord) (s : SessionRecord)
    → agreeing digest name l o ≡ some s
    → o ≡ some s
unfolding agreeing
agreeing-eq-some digest name l none s h = h
agreeing-eq-some digest name l (some t) s h = ground arith

module _ (sha256 : Bytes → Bytes) where
  -- The lobby once the session is connected again and its peer has the new socket.
  abbrev pub resumed_lobby : ℕ → Bytes → ℕ → SessionRecord → Lobby → Lobby
  resumed_lobby socket token now s l = in_room s.room (rebind socket now s.peer) (record l {
    sessions = insert (digest_token sha256 token) (record s { lease = connected }) l.sessions;
  })

  resume_eq :
      (lease : SessionLease) (now : ℕ)
      → can_resume lease now ≡ true
      → resume lease now ≡ (connected, true)
  unfolding resume
  resume_eq lease now h = rw h

  resume_session-eq :
      (socket : ℕ) (name token : Bytes) (now : ℕ) (l : Lobby) (s : SessionRecord)
      → valid_base64_url_id token 32 ≡ true
      → known_session sha256 token name l ≡ some s
      → can_resume s.lease now ≡ true
      → resume_session sha256 socket name token now l
        ≡ some (
          resumed_lobby socket token now s l,
          record { room = s.room; peer = s.peer; resumed = true; token = token },
        )
  unfolding resume_session
  resume_session-eq socket name token now l s valid known open_ =
      rw (valid, known, resume_eq s.lease now open_, resume_session)

  known_session-eq-some :
      (token name : Bytes) (l : Lobby) (s : SessionRecord)
      → known_session sha256 token name l ≡ some s
      → lookup (digest_token sha256 token) l.sessions ≡ some s
  unfolding known_session
  known_session-eq-some token name l s h =
      agreeing-eq-some (digest_token sha256 token) name l
        (lookup (digest_token sha256 token) l.sessions) s h

  lookup-resumed :
      (socket : ℕ) (token : Bytes) (now : ℕ) (s : SessionRecord) (l : Lobby)
      → lookup (digest_token sha256 token) (resumed_lobby socket token now s l).sessions
        ≡ some (record s { lease = connected })
  lookup-resumed socket token now s l =
      ap (lookup (digest_token sha256 token))
        (in_room-IsKept s.room (rebind socket now s.peer) _).sessions
      ∙ lookup-insert (digest_token sha256 token) (digest_token sha256 token) _ l.sessions
      ∙ rw ((same_iff (digest_token sha256 token) (digest_token sha256 token)).1 refl)

  -- Whatever session is found, one whose lease does not resume is refused.
  lease-refused :
      (socket : ℕ) (name token : Bytes) (now : ℕ) (l : Lobby) (t : SessionRecord)
      → known_session sha256 token name l ≡ some t
      → (resume t.lease now).1 ≡ false
      → resume_session sha256 socket name token now l ≡ none
  unfolding resume_session
  lease-refused socket name token now l t known closed =
      elim (Bool-cases (valid_base64_url_id token 32)) [
        | inl valid ↦ rw (valid, known, closed, resume_session)
        | inr bad ↦ rw (bad, resume_session)
      ]

  unknown-refused :
      (socket : ℕ) (name token : Bytes) (now : ℕ) (l : Lobby)
      → known_session sha256 token name l ≡ none
      → resume_session sha256 socket name token now l ≡ none
  unfolding resume_session
  unknown-refused socket name token now l unknown =
      elim (Bool-cases (valid_base64_url_id token 32)) [
        | inl valid ↦ rw (valid, unknown, resume_session)
        | inr bad ↦ rw (bad, resume_session)
      ]

  connected-refused :
      (socket : ℕ) (name token : Bytes) (now : ℕ) (l : Lobby) (s : SessionRecord)
      → lookup (digest_token sha256 token) l.sessions ≡ some (record s { lease = connected })
      → resume_session sha256 socket name token now l ≡ none
  unfolding resume can_resume
  connected-refused socket name token now l s at =
      elim (Option-cases (known_session sha256 token name l)) [
        | inl unknown ↦ unknown-refused socket name token now l unknown
        | inr found ↦
            let (t, known) = found in
            let held : some t ≡ some (record s { lease = connected }) =
              sym (known_session-eq-some token name l t known) ∙ at in
            let lease : t.lease ≡ connected = ground (arith, held) in
            lease-refused socket name token now l t known
              (ap (λ (held_lease : SessionLease). (resume held_lease now).1) lease)
      ]

  -- A valid token whose session is known for this room and within its grace period resumes that
  -- session: the same peer in the same room. From then on the token is refused, to whatever socket
  -- and at whatever time, until the session is detached again.
  pub resume_session_once :
      (socket other : ℕ) (name any_name token : Bytes) (now later : ℕ) (l : Lobby)
      (s : SessionRecord)
      → valid_base64_url_id token 32 ≡ true
      → known_session sha256 token name l ≡ some s
      → can_resume s.lease now ≡ true
      → (resume_session sha256 socket name token now l
          ≡ some (
            resumed_lobby socket token now s l,
            record { room = s.room; peer = s.peer; resumed = true; token = token },
          ))
        × (resume_session sha256 other any_name token later (resumed_lobby socket token now s l)
            ≡ none)
  resume_session_once socket other name any_name token now later l s valid known open_ = (
    resume_session-eq socket name token now l s valid known open_,
    connected-refused other any_name token later (resumed_lobby socket token now s l) s
        (lookup-resumed socket token now s l),
  )
