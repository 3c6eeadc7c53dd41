-- ===== src/Tor/Service/Outcome.antt =====
-- Starting the service leaves it published, or closed as after a stop.

use conspire.Prelude.{
  ℕ, ◌≡◌, refl, ◌∙◌, Bool, true, false, [], ◌++◌, Option, none, some, Bool-cases, inl, inr, ◌⊎◌,
}
use conspire.Prelude.Bytes.{Bytes, codes}
use conspire.Prelude.Result.{Result, ok, err}
use conspire.Tor.Text.{valid_service_id, valid_private_key}
use conspire.Tor.Wire.{
  OnionService, TorError, Action, next, ensure, Reply, send_command, invalid_service_id,
  invalid_returned_key, invalid_key, control_unavailable,
}
use conspire.Tor.Service.{
  System, Options, KeyLoadResult, missing_key, bad_key, valid_key, load_private_key, open_unix,
  connect_control, connect_tcp, connect_either, Link, add_loaded, authenticate, reply_value,
  add_command, save_private_key, store_key, keep_key, publish, add_key, add, unless_failed,
  bring_up, start, stop, close_connection,
}
use conspire.Tor.Service.Frame.{
  Keeps, >>=-Keeps, ensure-Keeps, return-Keeps, send_command-Keeps, same_refl, same_trans, Same,
}
use conspire.Tor.Service.Authentic.{
  IsTrusted, authenticate-IsTrusted, authenticate-Keeps, ensure-eq-ok,
}

-- No service has a name.
abbrev pub IsUnnamed : OnionService → Type 0
IsUnnamed s = (s.service_id ≡ []) × (s.hostname ≡ [])

pub record IsInactive (s : OnionService) : Type 0 where
  pub descriptor : s.descriptor ≡ none
  pub control_endpoint : s.control_endpoint ≡ []
  pub read_buffer : s.read_buffer ≡ []
  pub unnamed : IsUnnamed s

named_same : (s s' : OnionService) → Same s s' → IsUnnamed s → IsUnnamed s'
named_same s s' same h = (same.service_id ∙ h.0, same.hostname ∙ h.1)

next_post {ℓ κ} :
    {A : Type ℓ} {B : Type κ} (Post : Result TorError B × OnionService → Type 0)
    (outcome : Result TorError A × OnionService) (f : A → Action B)
    → ((e : TorError) → outcome.0 ≡ err e → Post (err e, outcome.1))
    → ((a : A) → outcome.0 ≡ ok a → Post (f a outcome.1))
    → Post (next f outcome)
next_post Post (ok a, s) f failed worked = worked a refl
next_post Post (err e, s) f failed worked = failed e refl

module _ (system : System) where
  -- The service on the connection that was opened: it is authenticated and the connection is that.
  pub record IsPublished (opened s : OnionService) : Type 0 where
    pub connected : (d : ℕ) × (opened.descriptor ≡ some d) × (s.descriptor ≡ some d)
    pub control_endpoint : s.control_endpoint ≡ opened.control_endpoint
    pub service_id : valid_service_id s.service_id ≡ true
    pub hostname : s.hostname ≡ s.service_id ++ codes ".onion"
    pub trusted : IsTrusted system opened

  -- Either way of an action that ends the start.
  abbrev pub IsStarted : OnionService → Result TorError (Unit {0}) × OnionService → Type 0
  IsStarted opened outcome =
      ((e : TorError) × (outcome.0 ≡ err e) × IsUnnamed outcome.1)
      ⊎ (outcome.0 ≡ ok tt) × IsPublished opened outcome.1

  -- The service is on this open connection, and the other end may be trusted.
  record IsOpen (opened s : OnionService) : Type 0 where
    linked : (d : ℕ) × (opened.descriptor ≡ some d) × (s.descriptor ≡ some d)
    control_endpoint : s.control_endpoint ≡ opened.control_endpoint
    trusted : IsTrusted system opened

  store_key-Keeps :
      (options : Options) (service_id key : Bytes) → Keeps (store_key system options service_id key)
  unfolding store_key
  store_key-Keeps options service_id key = record {
    same = λ s. elim (Bool-cases (save_private_key system options.key_path key)) [
      | inl saved ↦ rw (saved) (same_refl s)
      | inr unsaved ↦ rw (unsaved) ((send_command-Keeps (codes "DEL_ONION " ++ service_id)).same s)
    ];
  }

  keep_key-Keeps :
      (options : Options) (service_id : Bytes) (added : Reply) (generating : Bool)
      → Keeps (keep_key system options service_id added generating)
  unfolding keep_key
  keep_key-Keeps options service_id added false = return-Keeps tt
  keep_key-Keeps options service_id added true =
      >>=-Keeps
        (ensure-Keeps (valid_private_key (reply_value added (codes "PrivateKey=")))
          invalid_returned_key)
        λ u. store_key-Keeps options service_id (reply_value added (codes "PrivateKey="))

  publish-IsStarted :
      (service_id : Bytes) (opened s s' : OnionService)
      → Same s s'
      → IsOpen opened s
      → valid_service_id service_id ≡ true
      → IsStarted opened (publish system service_id s')
  unfolding publish
  publish-IsStarted service_id opened s s' same open_ valid =
      let (d, was, is) = open_.linked in
      inr (
        refl,
        record {
          connected = (d, was, same.descriptor ∙ is);
          control_endpoint = same.control_endpoint ∙ open_.control_endpoint;
          service_id = valid;
          hostname = refl;
          trusted = open_.trusted;
        },
      )

  add_key-IsStarted :
      (options : Options) (key : Bytes) (generating : Bool) (opened s : OnionService)
      → IsUnnamed s
      → IsOpen opened s
      → IsStarted opened (add_key system options key generating s)
  unfolding add_key
  add_key-IsStarted options key generating opened s unnamed open_ =
      let sent = (send_command-Keeps (add_command system options key)).same s in
      next_post (IsStarted opened) (send_command (add_command system options key) s) _
        (λ e failed. inl (e, refl, named_same s _ sent unnamed))
        λ added worked.
          let service_id = reply_value added (codes "ServiceID=") in
          let s1 = (send_command (add_command system options key) s).1 in
          let s2 = (ensure (valid_service_id service_id) invalid_service_id s1).1 in
          let checked =
            same_trans sent
              ((ensure-Keeps (valid_service_id service_id) invalid_service_id).same s1) in
          let kept =
            same_trans checked ((keep_key-Keeps options service_id added generating).same s2) in
          next_post (IsStarted opened) (ensure (valid_service_id service_id) invalid_service_id s1)
            _ (λ e failed. inl (e, refl, named_same s _ checked unnamed))
            λ u valid.
              next_post (IsStarted opened) (keep_key system options service_id added generating s2)
                _ (λ e failed. inl (e, refl, named_same s _ kept unnamed))
                λ u' saved.
                  publish-IsStarted service_id opened s _ kept open_
                    (ensure-eq-ok (valid_service_id service_id) invalid_service_id s1 valid)

  add_loaded-IsStarted :
      (options : Options) (loaded : KeyLoadResult) (opened s : OnionService)
      → IsUnnamed s
      → IsOpen opened s
      → IsStarted opened (add_loaded system options loaded s)
  unfolding add_loaded
  add_loaded-IsStarted options bad_key opened s unnamed open_ = inl (invalid_key, refl, unnamed)
  add_loaded-IsStarted options missing_key opened s unnamed open_ =
      add_key-IsStarted options (codes "NEW:ED25519-V3") true opened s unnamed open_
  add_loaded-IsStarted options (valid_key key) opened s unnamed open_ =
      add_key-IsStarted options key false opened s unnamed open_

  -- What connecting does: an error leaves all as it was, else there is a descriptor.
  connect_either_lem :
      (options : Options) (unix tcp : Option Link) (s : OnionService)
      → IsUnnamed s
      → IsUnnamed (connect_either system options unix tcp s).1
        × (((e : TorError) × ((connect_either system options unix tcp s).0 ≡ err e))
            ⊎ ((d : ℕ) × ((connect_either system options unix tcp s).1.descriptor ≡ some d)))
  unfolding connect_either
  connect_either_lem options (some link) tcp s unnamed = (unnamed, inr (link.descriptor, refl))
  connect_either_lem options none (some link) s unnamed = (unnamed, inr (link.descriptor, refl))
  connect_either_lem options none none s unnamed = (unnamed, inl (control_unavailable, refl))

  bring_up-IsStarted :
      (options : Options) (s : OnionService)
      → IsUnnamed s
      → IsStarted (connect_control system options s).1 (bring_up system options s)
  unfolding bring_up add connect_control
  bring_up-IsStarted options s unnamed =
      let connected =
        connect_either_lem options (open_unix system options.control_socket)
          (connect_tcp (system.resolve options.control_host options.control_port)) s unnamed in
      let s1 = (connect_control system options s).1 in
      next_post (IsStarted s1) (connect_control system options s) _
        (λ e failed. inl (e, refl, connected.0))
        λ u worked.
          let kept = (authenticate-Keeps system).same s1 in
          next_post (IsStarted s1) (authenticate system s1) _
            (λ e failed. inl (e, refl, named_same s1 _ kept connected.0))
            λ reply authentic. elim connected.1 [
              | inl (e, failed) ↦ absurd (cc (failed, worked))
              | inr (d, linked) ↦
                  add_loaded-IsStarted options (load_private_key (system.key_file options.key_path))
                    s1 _ (named_same s1 _ kept connected.0)
                    record {
                      linked = (d, linked, kept.descriptor ∙ linked);
                      control_endpoint = kept.control_endpoint;
                      trusted = authenticate-IsTrusted system s1 reply authentic;
                    }
            ]

  close_failed :
      (opened : OnionService) (outcome : Result TorError (Unit {0}) × OnionService)
      → IsStarted opened outcome
      → ((e : TorError) × ((unless_failed system outcome).0 ≡ err e)
          × IsInactive (unless_failed system outcome).1)
        ⊎ ((unless_failed system outcome).0 ≡ ok tt)
          × IsPublished opened (unless_failed system outcome).1
  unfolding close_connection
  close_failed opened (ok u, s) (inl (e, failed, unnamed)) = absurd (cc failed)
  close_failed opened (ok u, s) (inr (worked, published)) = inr (refl, published)
  close_failed opened (err e, s) (inl (e', failed, unnamed)) = inl (
    e,
    refl,
    record { descriptor = refl; control_endpoint = refl; read_buffer = refl; unnamed = unnamed },
  )
  close_failed opened (err e, s) (inr (worked, published)) = absurd (cc worked)

  -- Starting the service, from any state and whatever the connection and the files do, succeeds or
  -- it fails. If it succeeds, it is still on the connection that it opened after the stop, by whose
  -- replies the other end is trusted, and it has a valid name and the host of that name with
  -- `.onion`. If it fails, no descriptor, no buffered bytes, no endpoint and no name are left.
  pub start_outcome :
      (options : Options) (s : OnionService)
      → ((e : TorError) × ((start system options s).0 ≡ err e)
          × IsInactive (start system options s).1)
        ⊎ ((start system options s).0 ≡ ok tt)
          × IsPublished (connect_control system options (stop s)).1 (start system options s).1
  unfolding start
  start_outcome options s =
      close_failed (connect_control system options (stop s)).1 (bring_up system options (stop s))
        (bring_up-IsStarted options (stop s) (unfold stop in (refl, refl)))
