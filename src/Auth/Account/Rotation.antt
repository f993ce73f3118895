-- ===== src/Auth/Account/Rotation.antt =====
-- A refresh token is spent by its use.
use sentinel_auth.Prelude.{
  ℕ, ◌+◌, String, Bool, true, false, not, ◌&&◌, ◌≡◌, ◌≢◌, sym, ap, ◌∙◌, none, some, arith, is_some,
  All, ◌==◌, nat_eq, string_eq, eq_of_==, find, find-eq-none, All-update_from, update, List, leb,
  find-eq-some, find-All, inl, inr, Bool-cases,
}
use sentinel_auth.Core.{
  Time, Uuid, Session, Outside, Result, ok, raise, http, World, respond, fetch-eq-ok, guard-eq-ok,
  respond-eq-ok,
}
use sentinel_auth.Auth.Sessions.{hash_token}
use sentinel_auth.Auth.Account.{RefreshResponse, refreshable, rotate, refresh_token}

abbrev has_hash : String → Session → Bool
has_hash hash s = s.refresh_token_hash == hash

-- At most one session has the hash: all that have it are one row.
abbrev pub IsUnshared : String → List Session → Type 0
IsUnshared hash rows = (id : Uuid) × All (λ s. has_hash hash s ≡ true → s.id ≡ id) rows

-- No token drawn anew has the hash.
abbrev pub IsFresh : Outside → String → Type 0
IsFresh outside hash = (n : ℕ) → hash_token outside (outside.token_urlsafe n) ≢ hash

hash_of_found :
    (hash : String) (s : Session)
    → (has_hash hash s && not (is_some s.revoked_at)) ≡ true
    → has_hash hash s ≡ true
hash_of_found hash s h = ground arith

refuse_hash :
    (hash : String) (s : Session)
    → has_hash hash s ≡ false
    → (has_hash hash s && not (is_some s.revoked_at)) ≡ false
refuse_hash hash s h = rw h

other_hash : (a b : String) → a ≢ b → (a == b) ≡ false
other_hash a b ne = elim (Bool-cases (a == b)) [
  | inl same ↦ absurd (ne (eq_of_== a b same))
  | inr other ↦ other
]

spent_rows :
    (hash fresh access : String) (jti : Uuid) (at : Time) (rows : List Session) {s : Session}
    → IsUnshared hash rows
    → fresh ≢ hash
    → find (λ t. has_hash hash t && not (is_some t.revoked_at)) rows ≡ some s
    → find
        (λ t. has_hash hash t && not (is_some t.revoked_at))
        (update (λ t. t.id == s.id) (rotate access jti at fresh) rows)
      ≡ none
spent_rows hash fresh access jti at rows {s} (id, one) ne found =
    let live = λ (t : Session). has_hash hash t && not (is_some t.revoked_at) in
    let mine : s.id ≡ id =
      find-All (λ (t : Session). has_hash hash t ≡ true → t.id ≡ id) live rows one found
        (hash_of_found hash s (find-eq-some live rows found)) in
    find-eq-none live (update (λ t. t.id == s.id) (rotate access jti at fresh) rows) (
      All-update_from (λ (t : Session). has_hash hash t ≡ true → t.id ≡ id) (λ t. live t ≡ false)
        (λ t. t.id == s.id) (rotate access jti at fresh) rows
        (λ t h hit. rw (other_hash fresh hash ne)) (λ t h miss. stay t h miss mine) one)
  where
    stay :
        (t : Session)
        → (has_hash hash t ≡ true → t.id ≡ id)
        → (t.id == s.id) ≡ false
        → s.id ≡ id
        → (has_hash hash t && not (is_some t.revoked_at)) ≡ false
    stay t h miss mine = elim (Bool-cases (has_hash hash t)) [
      | inl has ↦ absurd (ground (arith, h has))
      | inr lacks ↦ refuse_hash hash t lacks
    ]

-- A refresh token is good for one use: when a refresh has succeeded, the same refresh token is
-- refused, provided that no other session has its hash and no newly drawn token collides with it.
pub refresh_token_once :
    (outside : Outside) (token : String) (w : World) {r : RefreshResponse} {w' : World}
    → IsUnshared (hash_token outside token) w.committed.sessions
    → IsFresh outside (hash_token outside token)
    → respond (refresh_token outside token) w ≡ (ok r, w')
    → (respond (refresh_token outside token) w').0 ≡ raise (http 401 "Invalid refresh token")
unfolding refresh_token
refresh_token_once outside token w {r} {w'} one fresh e =
    let hash = hash_token outside token in
    let (v, ran, ended) = respond-eq-ok (refresh_token outside token) w e in
    let (s, found, k1) = fetch-eq-ok (refreshable hash) 401 "Invalid refresh token" _ _ ran in
    let (late, k2) =
      guard-eq-ok (leb s.expires_at (outside.clock w.calls)) 401 "Session expired" _ _ k1 in
    let n = w.calls + 1 in
    let new_hash = hash_token outside (outside.token_urlsafe (n + 1 + 1 + 1)) in
    let rows =
      update (λ t. t.id == s.id)
        (rotate (hash_token outside (outside.token_urlsafe n)) (outside.uuid4 (n + 1))
          (outside.clock (n + 1 + 1)) new_hash)
        w.committed.sessions in
    let written : v.committed.sessions ≡ rows =
      ap (λ (p : Result RefreshResponse × World). p.1.committed.sessions) (sym k2) in
    let gone : refreshable hash v.committed ≡ none =
      ap (find (λ t. has_hash hash t && not (is_some t.revoked_at))) written
      ∙ spent_rows hash new_hash _ _ _ w.committed.sessions one (fresh (n + 1 + 1 + 1)) found in
    rw (ended, gone)
