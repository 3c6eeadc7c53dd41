-- ===== src/Http/Safe.antt =====
-- What the checks before a response let through.
use conspire.Prelude.{
  ◌≡◌, ◌≢◌, refl, Bool, true, not, ◌||◌, [], ◌∷◌, ◌++◌, Option, none, some, arith, Bool-cases, inl,
  inr,
}
use conspire.Prelude.Bytes.{Bytes, codes}
use conspire.Prelude.Result.{ok}
use conspire.Boundaries.Text.{valid_room_id, valid_host, valid_request_path}
use conspire.Boundaries.Text.Sound.{valid_request_path_sound}
use conspire.Config.Dto.{
  ConfigDto, get_canonical_base_url, is_allowed_request_host, is_allowed_origin,
}
use conspire.Http.{
  Response, Intercepted, intercept_host, intercept, no_store, Upgrade, upgrade_to_websocket,
}

-- A redirection to the configured host: the path follows its base URL, and begins with one slash.
pub record IsRedirection (config : ConfigDto) (path : Bytes) (r : Response) : Type 0 where
  pub status : r.status ≡ 301
  pub location :
      r.headers ≡ (codes "Location", get_canonical_base_url config ++ path) ∷ no_store ∷ []
  pub absolute : (rest : Bytes) × (path ≡ b'/' ∷ rest)
  pub no_host : (rest : Bytes) → path ≢ codes "//" ++ rest

module _ (null_text null_number : Bytes) (config : ConfigDto) where
  -- What the interceptor may return for a request.
  pub data IsIntercepted (host : Option Bytes) (path : Bytes) : Intercepted → Type 0 where
    bad_request :
        IsIntercepted host path (some (record { status = 400; headers = []; body = none }))
    redirected : {r : Response} → IsRedirection config path r → IsIntercepted host path (some r)
    passed_on :
        (h : Bytes)
        → host ≡ some h
        → valid_host h ≡ true
        → valid_request_path path ≡ true
        → is_allowed_request_host null_text null_number config h ≡ true
        → IsIntercepted host path none

  intercept_host-IsIntercepted :
      (host path : Bytes)
      → IsIntercepted (some host) path (intercept_host null_text null_number config host path)
  unfolding intercept_host
  intercept_host-IsIntercepted host path =
      elim (Bool-cases (not (valid_host host) || not (valid_request_path path))) [
        | inl bad ↦ rw (bad) bad_request
        | inr good ↦
            let valid : valid_request_path path ≡ true = ground arith in
            let sound = valid_request_path_sound path valid in
            elim (Bool-cases (is_allowed_request_host null_text null_number config host)) [
              | inl allowed ↦ rw (good, allowed) (passed_on host refl (ground arith) valid allowed)
              | inr foreign ↦
                  rw (good, foreign)
                    (redirected record {
                      status = refl;
                      location = refl;
                      absolute = sound.2;
                      no_host = sound.0;
                    })
            ]
      ]

  -- A request goes on only with a valid host that the configuration allows and a valid path. A
  -- redirection goes to the configured base URL with the path after it, which begins with exactly
  -- one slash. Everything else is a 400 with no header and no body.
  pub intercept_lem :
      (host : Option Bytes) (path : Bytes)
      → IsIntercepted host path (intercept null_text null_number config host path)
  unfolding intercept
  intercept_lem none path = bad_request
  intercept_lem (some host) path = intercept_host-IsIntercepted host path

-- An upgrade is for a room with a valid name and an origin that the configuration allows, and the
-- room it is for is the one of the path.
pub upgrade_to_websocket_sound :
    (config : ConfigDto) (development_override : Bool) (room_id origin : Option Bytes)
    (nickname : Bytes) (u : Upgrade)
    → upgrade_to_websocket config development_override room_id origin nickname ≡ ok u
    → (room_id ≡ some u.room_name)
      × (valid_room_id u.room_name ≡ true)
      × ((o : Bytes) × (origin ≡ some o) × (is_allowed_origin config o development_override ≡ true))
unfolding upgrade_to_websocket
upgrade_to_websocket_sound config development_override none origin nickname u h = absurd (cc h)
upgrade_to_websocket_sound config development_override (some room) none nickname u h =
    absurd (ground arith)
upgrade_to_websocket_sound config development_override (some room) (some o) nickname u h =
    ground arith
