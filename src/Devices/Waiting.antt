-- ===== src/Devices/Waiting.antt =====
-- app/devices.py: a request for approval that has not been approved.
pub mod Kept
pub mod Foreign
pub mod Consent
use sentinel_auth.Prelude.{
  Option, ℕ, ◌+◌, String, Bool, true, false, not, ◌&&◌, ◌||◌, ◌≡◌, ◌≢◌, refl, sym, ap, ◌∙◌, subst,
  Option, none, some, or_else, List, [], ◌∷◌, ◌++◌, leb, ltb, ◌==◌, nat_eq, string_eq, nat_beq_iff,
  arith, find, update, is_some, is_value, find-eq-some, find-append_hit, find-update_hit,
  find-update_miss, if◌then◌else◌, Bool-cases, Option-cases, inl, inr,
}
use native.Mathlib.Decide.{ℕ_discrete}
use sentinel_auth.Core.{Time, Uuid, minute, User, MfaStatus, MfaTransaction, Db}
use sentinel_auth.Devices.Approval.{is_device_type, find_request}

abbrev pub is_completed : MfaStatus → Bool
is_completed MfaStatus.completed = true
is_completed _ = false

-- A property of the transactions that no handler ends, approvals and MFA codes left aside.
pub record Lasting (Q : List MfaTransaction → Type 0) : Type 0 where
  pub append : (rows : List MfaTransaction) (row : MfaTransaction) → Q rows → Q (rows ++ row ∷ [])
  pub close :
      (key : Uuid) (s : MfaStatus) (rows : List MfaTransaction)
      → is_completed s ≡ false
      → Q rows
      → Q (update (λ t. t.id == key) (λ t. record t { status = s }) rows)
  pub consume :
      (key : Uuid) (now : Time) (rows : List MfaTransaction)
      → Q rows
      → Q (update (λ t. t.id == key) (λ t. record t { consumed_at = some now }) rows)
  pub link :
      (key : Uuid) (n : Option Uuid) (rows : List MfaTransaction)
      → Q rows
      → Q (update (λ t. t.id == key) (λ t. record t { notification_id = n }) rows)

-- The first row of a key, and what it is.
module _ (id : Uuid) (K : MfaTransaction → Type 0) where
  abbrev pub Held : List MfaTransaction → Type 0
  Held rows = (t : MfaTransaction) × (find (λ (u : MfaTransaction). u.id == id) rows ≡ some t) × K t

  pub Held-append :
      (rows : List MfaTransaction) (row : MfaTransaction) → Held rows → Held (rows ++ row ∷ [])
  Held-append rows row (t, found, kept) =
      (t, find-append_hit (λ (u : MfaTransaction). u.id == id) rows (row ∷ []) found, kept)

  module _ (key : Uuid) (f : MfaTransaction → MfaTransaction) (rows : List MfaTransaction)
      (keep : (t : MfaTransaction) → (f t).id ≡ t.id) where
    -- Another row may become anything.
    pub Held-other : key ≢ id → Held rows → Held (update (λ t. t.id == key) f rows)
    Held-other ne (t, found, kept) = (
      t,
      find-update_miss (λ (u : MfaTransaction). u.id == id) (λ u. u.id == key) f rows
            (λ u h. apart u h)
          ∙ found,
      kept,
    )
      where
        apart :
            (u : MfaTransaction)
            → (u.id == key) ≡ true
            → ((u.id == id) ≡ false) × (((f u).id == id) ≡ false)
        apart u h = rw (keep u) (ground arith)

    pub Held-update :
        ((t : MfaTransaction) → K t → K (f t)) → Held rows → Held (update (λ t. t.id == key) f rows)
    Held-update stays (t, found, kept) = elim (ℕ_discrete key id) [
      | yes same ↦ rw same (
        f t,
        find-update_hit (λ (u : MfaTransaction). u.id == id) f rows (λ u h. rw (keep u) h) found,
        stays t kept,
      )
      | no other ↦ Held-other other (t, found, kept)
    ]

module _ (id owner : Uuid) where
  -- A request of the owner that is not marked as approved.
  abbrev pub IsWaiting : MfaTransaction → Type 0
  IsWaiting t =
      (is_device_type t.mfa_type ≡ true) × (t.user_id ≡ owner) × (is_completed t.status ≡ false)

  -- The row that the key finds is such a request.
  abbrev pub Waiting : List MfaTransaction → Type 0
  Waiting = Held id IsWaiting

  pub Waiting-Lasting : Lasting Waiting
  Waiting-Lasting = record {
    append = Held-append id IsWaiting;
    close = λ key s rows still.
        Held-update id IsWaiting key (λ t. record t { status = s }) rows (λ t. refl)
          (λ t waits. (waits.0, waits.1, still));
    consume = λ key now rows.
        Held-update id IsWaiting key (λ t. record t { consumed_at = some now }) rows (λ t. refl)
          (λ t waits. waits);
    link = λ key n rows.
        Held-update id IsWaiting key (λ t. record t { notification_id = n }) rows (λ t. refl)
          (λ t waits. waits);
  }

  -- The request is found as such, too.
  pub find_request-Waiting :
      (rows : List MfaTransaction) (t : MfaTransaction)
      → find (λ (u : MfaTransaction). u.id == id) rows ≡ some t
      → is_device_type t.mfa_type ≡ true
      → find (λ (u : MfaTransaction). u.id == id && is_device_type u.mfa_type) rows ≡ some t
  find_request-Waiting [] t found device = cc
  find_request-Waiting (u ∷ rows) t found device = elim (Bool-cases (u.id == id)) [
    | inl own ↦ let same : u ≡ t = cc (rw own at found) in rw (own, same, device) refl
    | inr other ↦ rw other (find_request-Waiting rows t (rw other at found) device)
  ]
