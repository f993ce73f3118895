-- ===== src/Actions/Details.antt =====
-- What the answer to a retry says.
use sentinel_auth.Prelude.{
  String, true, false, ◌≡◌, refl, ◌∙◌, some, [], ◌∷◌, ◌==◌, nat_eq, string_eq, ==_refl, eq_of_==,
  Bool-cases, inl, inr,
}
use sentinel_auth.Core.{User, Value, Dict, AuditLog}
use sentinel_auth.Actions.{SecurityAction, ActionRequest, put, get, replayed_details, replay}

get-put_hit : (k : String) (v : Value) (d : Dict) → get k (put k v d) ≡ some v
unfolding get put
get-put_hit k v [] = rw (==_refl k) refl
get-put_hit k v ((k', v') ∷ rest) = elim (Bool-cases (k' == k)) [
  | inl hit ↦ rw (hit, hit) refl
  | inr miss ↦ rw (miss, miss) (get-put_hit k v rest)
]

get-put_miss :
    (j k : String) (v : Value) (d : Dict) → (k == j) ≡ false → get j (put k v d) ≡ get j d
unfolding get put
get-put_miss j k v [] ne = rw ne refl
get-put_miss j k v ((k', v') ∷ rest) ne = elim (Bool-cases (k' == k)) [
  | inl hit ↦ let apart : (k' == j) ≡ false = rw (eq_of_== k' k hit) ne in rw (hit, apart) refl
  | inr miss ↦ rw miss (rw (get-put_miss j k v rest ne) refl)
]

-- The key is none of those that a replay adds for its action.
replayed_details-other :
    (key : String) (action : SecurityAction) (u : User) (d : Dict)
    → ("one_time" == key) ≡ false
    → ("mfa_enabled" == key) ≡ false
    → ("status" == key) ≡ false
    → get key (replayed_details action u d) ≡ get key d
replayed_details-other key SecurityAction.require_mfa u d a b c =
    get-put_miss key "one_time" _ _ a ∙ get-put_miss key "mfa_enabled" _ _ b
replayed_details-other key SecurityAction.lock_user u d a b c = get-put_miss key "status" _ _ c
replayed_details-other key SecurityAction.revoke_sessions u d a b c = refl
replayed_details-other key SecurityAction.force_logout u d a b c = refl

-- The details of a replay say that nothing was done.
pub replay_details :
    (payload : ActionRequest) (u : User) (previous : AuditLog)
    → (get "deduplicated" (replay payload u previous).details ≡ some (Value.boolean true))
      × (get "sessions_revoked" (replay payload u previous).details ≡ some (Value.number 0))
unfolding replay
replay_details payload u previous = (
  replayed_details-other "deduplicated" payload.action u _ refl refl refl
      ∙ get-put_miss "deduplicated" "already_applied" _ _ refl
      ∙ get-put_miss "deduplicated" "revoked_count" _ _ refl
      ∙ get-put_miss "deduplicated" "sessions_revoked" _ _ refl
      ∙ get-put_hit "deduplicated" _ _,
  replayed_details-other "sessions_revoked" payload.action u _ refl refl refl
      ∙ get-put_miss "sessions_revoked" "already_applied" _ _ refl
      ∙ get-put_miss "sessions_revoked" "revoked_count" _ _ refl
      ∙ get-put_hit "sessions_revoked" _ _,
)
