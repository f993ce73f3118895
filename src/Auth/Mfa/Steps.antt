-- ===== src/Auth/Mfa/Steps.antt =====
-- The steps of `mfa_verify`: what has been checked when a step succeeds.
use sentinel_auth.Prelude.{
  ◌<◌, String, ◌≡◌, ◌≢◌, refl, sym, ap, ◌∙◌, Option, some, arith, ◌==◌, nat_eq, string_eq, update,
  List, ◌++◌, ◌∷◌, [],
}
use sentinel_auth.Core.{
  Time, Uuid, User, Session, fingerprint_from_request, MfaType, MfaStatus, MfaTransaction,
  MfaNotification, Db, Outside, HttpRequest, get_client_ip, ok, raise, http, World,
}
use sentinel_auth.Auth.Events.{login_event}
use sentinel_auth.Auth.Sessions.{LoginResponse}
use sentinel_auth.Auth.Login.{update_transaction, update_notification}
use sentinel_auth.Auth.Mfa.{
  count_failure, check_state, check_expiry, check_binding, reject_code, consume, clear_one_time,
}
use sentinel_auth.Auth.Frame.{send_login_event-IsQuiet, send_login_event_lem, create_session-Opened}

pub check_state-eq-ok :
    (t : MfaType) (s : MfaStatus) (w : World) {a : Unit {0}} {w' : World}
    → check_state t s w ≡ (ok a, w')
    → (t ≢ MfaType.trusted_device) × (s ≡ MfaStatus.pending) × (w' ≡ w)
unfolding check_state
check_state-eq-ok t s w e = ground arith

module _ (outside : Outside) where
  pub check_binding-eq-ok :
      (bound : Option String) (ip : String) (w : World) {a : Unit {0}} {w' : World}
      → check_binding outside bound ip w ≡ (ok a, w')
      → w' ≡ w
  unfolding check_binding
  check_binding-eq-ok bound ip w e = ground arith

clear_one_time-frame :
    (t : MfaType) (id : Uuid) (db : Db)
    → ((clear_one_time t id db).mfa_transactions ≡ db.mfa_transactions)
      × ((clear_one_time t id db).sessions ≡ db.sessions)
clear_one_time-frame MfaType.one_time id db = (refl, refl)
clear_one_time-frame MfaType.persistent id db = (refl, refl)
clear_one_time-frame MfaType.trusted_device id db = (refl, refl)

-- What consuming a challenge has done: the transaction is completed in the commit that holds the
-- new session.
pub record Consumed (txn : MfaTransaction) (user : User) (w : World) (r : LoginResponse)
    (w' : World) : Type 0 where
  pub view : w'.working ≡ w'.committed
  pub transactions :
      w'.committed.mfa_transactions
      ≡ update
          (λ t. t.id == txn.id)
          (λ t. record t { status = MfaStatus.completed })
          w.working.mfa_transactions
  pub row : Session
  pub owner : row.user_id ≡ user.id
  pub named : r.session_id ≡ row.id
  pub sessions : w'.committed.sessions ≡ w.working.sessions ++ row ∷ []

module _ (outside : Outside) (req : HttpRequest) (now : Time) where
  pub check_expiry-eq-ok :
      (txn : MfaTransaction) (w : World) {a : Unit {0}} {w' : World}
      → check_expiry outside req now txn w ≡ (ok a, w')
      → (now < txn.expires_at) × (w' ≡ w)
  unfolding check_expiry
  check_expiry-eq-ok txn w e = ground arith

  -- A wrong code always ends the request, with the count committed.
  pub reject_code_lem :
      (txn : MfaTransaction) (user : User) (w : World)
      → (w' : World) × (reject_code outside req now txn user w
          ≡ (raise (http 401 "Invalid MFA code"), w'))
        × (w'.committed ≡ update_transaction txn.id count_failure w.working)
        × (w'.working ≡ update_transaction txn.id count_failure w.working)
  unfolding reject_code login_event
  reject_code_lem txn user w =
      rw (send_login_event_lem outside) (
        _,
        refl,
        (send_login_event-IsQuiet outside _ _).3,
        (send_login_event-IsQuiet outside _ _).4,
      )

  pub consume_lem :
      (txn : MfaTransaction) (n : MfaNotification) (user : User) (w : World)
      → (r : LoginResponse) × (w' : World) × (consume outside req now txn n user w ≡ (ok r, w'))
        × Consumed txn user w r w'
  unfolding consume login_event
  consume_lem txn n user w =
      let before : World = record w {
        working = clear_one_time txn.mfa_type user.id (
            update_notification n.id (λ m. record m { verified_at = some now })
              (update_transaction txn.id (λ t. record t { status = MfaStatus.completed })
                w.working));
      } in
      let (r, event, w1, ran, opened) =
        create_session-Opened outside user (get_client_ip req) req.user_agent
          (fingerprint_from_request outside req) before in
      let frame = clear_one_time-frame txn.mfa_type user.id (
        update_notification n.id (λ m. record m { verified_at = some now })
          (update_transaction txn.id (λ t. record t { status = MfaStatus.completed }) w.working)) in
      rw (ran, send_login_event_lem outside)
        (
          r,
          _,
          refl,
          record {
            view =
                (send_login_event-IsQuiet outside _ _).4
                ∙ sym (send_login_event-IsQuiet outside _ _).3;
            transactions =
                ap (λ (d : Db). d.mfa_transactions) (send_login_event-IsQuiet outside _ _).3
                ∙ opened.transactions
                ∙ frame.0;
            row = opened.row;
            owner = opened.owner;
            named = opened.named;
            sessions =
                ap (λ (d : Db). d.sessions) (send_login_event-IsQuiet outside _ _).3
                ∙ opened.sessions
                ∙ ap (λ (l : List Session). l ++ opened.row ∷ []) frame.1;
          },
        )
