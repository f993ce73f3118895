-- ===== src/Auth/Mfa/Guesses.antt =====
-- The budget of wrong codes over any run of requests.
use sentinel_auth.Prelude.{
  ℕ, ◌+◌, ◌-◌, ◌≤◌, Bool, true, false, ◌&&◌, ◌≡◌, ◌≢◌, refl, sym, ap, ◌∙◌, inl, inr, Option, none,
  some, arith, find, ◌==◌, nat_eq, nat_beq_iff, update, List, [], ◌∷◌, Option-cases, find-eq-some,
  find-update_miss,
}
use native.Mathlib.Decide.{ℕ_discrete}
use sentinel_auth.Core.{
  Uuid, MfaStatus, MfaTransaction, Outside, HttpRequest, Result, World, respond,
}
use sentinel_auth.Auth.Sessions.{LoginResponse}
use sentinel_auth.Auth.Mfa.{MfaVerifyRequest, count_failure, find_transaction, mfa_verify}
use sentinel_auth.Auth.Mfa.Once.{row_after}
use sentinel_auth.Auth.Mfa.Budget.{
  is_wrong, is_pending, Outcome, kept, closed, counted, verify_pending-Outcome,
}

-- The wrong codes that a transaction still answers.
abbrev guesses_left : MfaStatus → ℕ → ℕ
guesses_left MfaStatus.pending fail_count = 1 + (2 - fail_count)
guesses_left _ _ = 0

abbrev left_in : Option MfaTransaction → ℕ
left_in none = 0
left_in (some t) = guesses_left t.status t.fail_count

abbrev pub left_of : Uuid → List MfaTransaction → ℕ
left_of id rows = left_in (find (λ t. t.id == id) rows)

abbrev cost : Bool → ℕ
cost true = 1
cost false = 0

-- Does this request spend a wrong code on the transaction?
abbrev pub spends : Uuid → MfaVerifyRequest → Result LoginResponse → Bool
spends id request res = request.session_id == id && is_wrong res

cost-le : (b : Bool) → cost b ≤ 1
cost-le true = omega arith
cost-le false = omega arith

guesses_left-counted :
    (t : MfaTransaction)
    → t.status ≡ MfaStatus.pending
    → 1 + left_in (some (count_failure t)) ≤ left_in (some t)
guesses_left-counted t p = ground arith

guesses_left-closed : (s : MfaStatus) (n : ℕ) → is_pending s ≡ false → guesses_left s n ≡ 0
guesses_left-closed s n h = ground arith

module _ (id : Uuid) (rows : List MfaTransaction) (txn : MfaTransaction) where
  -- Another transaction's row is not concerned.
  left_of-other :
      (f : MfaTransaction → MfaTransaction)
      → ((t : MfaTransaction) → (f t).id ≡ t.id)
      → txn.id ≢ id
      → left_of id (update (λ t. t.id == txn.id) f rows) ≡ left_of id rows
  left_of-other f keep ne = ap left_in (
      find-update_miss (λ (t : MfaTransaction). t.id == id) (λ t. t.id == txn.id) f rows
        (λ t h. apart t h))
    where
      apart :
          (t : MfaTransaction)
          → (t.id == txn.id) ≡ true
          → ((t.id == id) ≡ false) × (((f t).id == id) ≡ false)
      apart t h = rw (keep t) (ground arith)

  Outcome-own :
      (res : Result LoginResponse) (rows' : List MfaTransaction)
      → find (λ t. t.id == id) rows ≡ some txn
      → Outcome txn rows res rows'
      → cost (is_wrong res) + left_of id rows' ≤ left_of id rows
  Outcome-own res rows' found (kept h e) = rw (h, e) (omega arith)
  Outcome-own res rows' found (closed s off h e) =
      rw (h, e, row_after id (λ t. record t { status = s }) rows (λ t. refl) found)
        (omega (arith, guesses_left-closed s txn.fail_count off))
  Outcome-own res rows' found (counted p e) =
      rw (e, row_after id count_failure rows (λ t. refl) found, found)
        (omega (arith, guesses_left-counted txn p, cost-le (is_wrong res)))

  Outcome-other :
      (res : Result LoginResponse) (rows' : List MfaTransaction)
      → txn.id ≢ id
      → Outcome txn rows res rows'
      → left_of id rows' ≡ left_of id rows
  Outcome-other res rows' ne (kept h e) = rw e
  Outcome-other res rows' ne (closed s off h e) = rw e (left_of-other _ (λ t. refl) ne)
  Outcome-other res rows' ne (counted p e) = rw e (left_of-other _ (λ t. refl) ne)

module _ (id : Uuid) (rows : List MfaTransaction) where
  Outcome-spends :
      (request : MfaVerifyRequest) (txn : MfaTransaction) (res : Result LoginResponse)
      (rows' : List MfaTransaction)
      → find (λ t. t.id == request.session_id) rows ≡ some txn
      → Outcome txn rows res rows'
      → cost (spends id request res) + left_of id rows' ≤ left_of id rows
  Outcome-spends request txn res rows' found out =
      let named : txn.id ≡ request.session_id =
        (nat_beq_iff txn.id request.session_id).0
          (find-eq-some (λ t. t.id == request.session_id) rows found) in
      elim (ℕ_discrete request.session_id id) [
        | yes same ↦
            rw (same, (nat_beq_iff id id).1 refl)
              (Outcome-own id rows txn res rows' (rw same at found) out)
        | no other ↦
            rw (Outcome-other id rows txn res rows' (λ e. other (sym named ∙ e)) out)
              (ground (arith, other))
      ]

-- One request: a wrong code is paid for.
mfa_verify-spends :
    (id : Uuid) (outside : Outside) (request : MfaVerifyRequest) (req : HttpRequest) (w : World)
    → cost (spends id request (respond (mfa_verify outside request req) w).0)
        + left_of id (respond (mfa_verify outside request req) w).1.committed.mfa_transactions
      ≤ left_of id w.committed.mfa_transactions
unfolding mfa_verify
mfa_verify-spends id outside request req w =
    elim (Option-cases (find_transaction request.session_id w.committed)) [
      | inl missing ↦ rw missing (ground arith)
      | inr (txn, found) ↦
          let opened : World = record w { working = w.committed; calls = w.calls + 1 } in
          rw found (
            Outcome-spends id w.committed.mfa_transactions request txn _ _ found
              (verify_pending-Outcome outside req (outside.clock w.calls) request txn opened refl))
    ]

-- The wrong codes answered for a transaction in a run of requests, one after the other.
unfoldable pub wrong_codes : Uuid → Outside → List (MfaVerifyRequest × HttpRequest) → World → ℕ
wrong_codes id outside [] w = 0
wrong_codes id outside ((request, req) ∷ rest) w =
    let (res, w') = respond (mfa_verify outside request req) w in
    cost (spends id request res) + wrong_codes id outside rest w'

wrong_codes-le-left :
    (id : Uuid) (outside : Outside) (requests : List (MfaVerifyRequest × HttpRequest)) (w : World)
    → wrong_codes id outside requests w ≤ left_of id w.committed.mfa_transactions
unfolding wrong_codes
wrong_codes-le-left id outside [] w = omega arith
wrong_codes-le-left id outside ((request, req) ∷ rest) w = omega (
  arith,
  mfa_verify-spends id outside request req w,
  wrong_codes-le-left id outside rest (respond (mfa_verify outside request req) w).1,
)

left_in-le : (t : Option MfaTransaction) → left_in t ≤ 3
left_in-le t = ground arith

-- Over any run of verifications, from any clients and about any transactions, one transaction
-- answers "Invalid MFA code" three times at most: a six-digit code cannot be searched for.
pub wrong_codes-le-three :
    (id : Uuid) (outside : Outside) (requests : List (MfaVerifyRequest × HttpRequest)) (w : World)
    → wrong_codes id outside requests w ≤ 3
wrong_codes-le-three id outside requests w = omega (
  arith,
  wrong_codes-le-left id outside requests w,
  left_in-le (find (λ t. t.id == id) w.committed.mfa_transactions),
)
