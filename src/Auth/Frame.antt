-- ===== src/Auth/Frame.antt =====
-- The helpers of the handlers return, and change only what they are for.
use sentinel_auth.Prelude.{
  ℕ, zero, suc, String, false, Option, none, some, ◌≡◌, refl, List, [], ◌∷◌, ◌++◌, inl, inr,
  Bool-cases, Option-cases, ap, find, update, ◌==◌, nat_eq, string_eq, ◌+◌, ◌&&◌,
}
use sentinel_auth.Core.{
  is_internal_auth_configured, Uuid, User, IpAddress, Session, Db, Outside, LoginEvent, ok, World,
  Action,
}
use sentinel_auth.Auth.Events.{login_event, deliver, delivered, reply_status, send_login_event}
use sentinel_auth.Auth.Sessions.{
  LoginResponse, is_unusable_ip, hash_token, new_session, resolve_ip_address, create_session,
}

-- The action returns a value, and leaves the database and the session's view alone.
abbrev pub IsQuiet {ℓ} : {A : Type ℓ} → Action A → World → Type ℓ
IsQuiet {A} m w =
    (a : A) × (w' : World) × (m w ≡ (ok a, w'))
    × (w'.committed ≡ w.committed)
    × (w'.working ≡ w.working)

module _ (outside : Outside) where
  pub deliver-IsQuiet : (n : ℕ) (e : LoginEvent) (w : World) → IsQuiet (deliver outside n e) w
  unfolding deliver
  deliver-IsQuiet zero e w = (false, w, refl, refl, refl)
  deliver-IsQuiet (suc n) e w =
      let asked : World = record w { posted = e ∷ w.posted; calls = w.calls + 1 } in
      elim (Option-cases (delivered outside (reply_status (outside.detection w.calls)))) [
        | inl more ↦ rw more (deliver-IsQuiet n e asked)
        | inr (b, done) ↦ rw done (b, asked, refl, refl, refl)
      ]

  pub send_login_event-IsQuiet :
      (e : LoginEvent) (w : World) → IsQuiet (send_login_event outside e) w
  unfolding send_login_event
  send_login_event-IsQuiet e w =
      elim (Bool-cases (
        outside.run_login_event_delivery
        && outside.detection_url_set
        && is_internal_auth_configured outside)) [
          | inl on ↦ rw on (deliver-IsQuiet 2 e w)
          | inr off ↦ rw off (false, w, refl, refl, refl)
        ]

  -- Resolving an address touches only `ip_addresses`.
  pub resolve_ip_address-frame :
      (ip : String) (w : World)
      → (id : Option Uuid) × (w' : World) × (resolve_ip_address outside ip w ≡ (ok id, w'))
        × (w'.committed ≡ w.committed)
        × (rows : List IpAddress) × (w'.working ≡ record w.working { ip_addresses = rows })
  unfolding resolve_ip_address
  resolve_ip_address-frame ip w = elim (Bool-cases (is_unusable_ip ip)) [
    | inl unusable ↦ rw unusable (none, w, refl, refl, w.working.ip_addresses, refl)
    | inr usable ↦
        elim (Option-cases (find (λ (r : IpAddress). r.ip_address == ip) w.working.ip_addresses)) [
          | inl new ↦ rw (usable, new) (_, _, refl, refl, _, refl)
          | inr (row, known) ↦ rw (usable, known) (_, _, refl, refl, _, refl)
        ]
  ]

-- What `create_session` has done: a fresh, open session of the user, and nothing in the tables of
-- MFA and rate limits.
pub record Opened (user : User) (w : World) (r : LoginResponse) (w' : World) : Type 0 where
  pub row : Session
  pub committed : w'.committed ≡ w.committed
  pub sessions : w'.working.sessions ≡ w.working.sessions ++ row ∷ []
  pub users :
      w'.working.users
      ≡ update
          (λ u. u.id == user.id)
          (λ u. record u { last_login_at = row.last_activity_at })
          w.working.users
  pub owner : row.user_id ≡ user.id
  pub unrevoked : row.revoked_at ≡ none
  pub named : r.session_id ≡ row.id
  pub no_challenge : r.mfa_required ≡ false
  pub transactions : w'.working.mfa_transactions ≡ w.working.mfa_transactions
  pub notifications : w'.working.mfa_notifications ≡ w.working.mfa_notifications
  pub rates : w'.working.rate_limits ≡ w.working.rate_limits

module _ (outside : Outside) where
  pub create_session-Opened :
      (user : User) (ip : String) (agent : Option String) (fingerprint : String) (w : World)
      → (r : LoginResponse) × (event : LoginEvent) × (w' : World) × (create_session outside user ip
            agent fingerprint w
          ≡ (ok (r, event), w'))
        × Opened user w r w'
  unfolding create_session login_event
  create_session-Opened user ip agent fingerprint w =
      let n = w.calls in
      let (ip_id, w1, ran, kept, rows, view) =
        resolve_ip_address-frame outside ip (record w { calls = n + 1 + 1 + 1 + 1 + 1 }) in
      let row =
        new_session outside user.id (hash_token outside (outside.token_urlsafe (n + 1)))
          (hash_token outside (outside.token_urlsafe (n + 1 + 1)))
          (outside.uuid4 (n + 1 + 1 + 1 + 1)) (outside.uuid4 (n + 1 + 1 + 1)) (outside.clock n)
          ip_id agent (outside.uuid4 w1.calls) in
      rw ran (
        _,
        _,
        _,
        refl,
        record {
          row = row;
          committed = kept;
          sessions = ap (λ (d : Db). d.sessions ++ row ∷ []) view;
          users =
              ap
                (λ (d : Db).
                  update (λ u. u.id == user.id)
                    (λ u. record u { last_login_at = some (outside.clock n) }) d.users)
                view;
          owner = refl;
          unrevoked = refl;
          named = refl;
          no_challenge = refl;
          transactions = ap (λ (d : Db). d.mfa_transactions) view;
          notifications = ap (λ (d : Db). d.mfa_notifications) view;
          rates = ap (λ (d : Db). d.rate_limits) view;
        },
      )

  -- The run of a delivery, for rewriting.
  pub send_login_event_lem :
      (e : LoginEvent) (w : World)
      → send_login_event outside e w
        ≡ (ok (send_login_event-IsQuiet outside e w).0, (send_login_event-IsQuiet outside e w).1)
  send_login_event_lem e w = (send_login_event-IsQuiet outside e w).2
