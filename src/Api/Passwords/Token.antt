-- ===== src/Api/Passwords/Token.antt =====
-- src/api.ts: the token that a password's reset consumes.
use scheduleos.Base.{
  Any-append_right, not, str_eq, subst, Any, Bool, ◌&&◌, ltb→lt, ◌<◌, ◌≡◌, refl, sym, ◌∙◌, ap, true,
  false, List, [], ◌∷◌, Option, none, some, ok, ok-injective, >>=-eq-ok, String, eq_iff, All,
  Bool-cases, inl, inr, filter, find,
}
use mathlib.Core.Option.{some-injective}
use scheduleos.Domain.{Instant, Timestamp, iso, Scope}
use scheduleos.Records.{AuthPasswordResetToken}
use scheduleos.Repositories.{assert_can_access, ApiStore, system, matches_scope}
use scheduleos.Repositories.Access.{matches_scope-eq}
use scheduleos.Repositories.Tables.{find-holds, or_not_found}
use scheduleos.Repositories.Auth.{
  get_password_reset_token, list_password_reset_tokens, mark_password_reset_token_used, store_token,
  is_token,
}
use scheduleos.Api.{Platform, Response, is_after}
use scheduleos.Api.Sessions.{is_unset}
use scheduleos.Api.Handlers.{continue-ok, perform, perform-ok}
use scheduleos.Api.Passwords.{is_usable_token, mark_found, consume_valid_password_reset_token}
use scheduleos.Api.Passwords.SignedOut.{find-All, or_not_found-ok}

pub both-true : (a b : Bool) → (a && b) ≡ true → (a ≡ true) × (b ≡ true)
both-true true true h = (refl, refl)
both-true false b h = cc
both-true true false h = cc

-- A token of an id that is marked as used at an instant is there.
abbrev pub IsUsed : String → Instant → ApiStore → Type 0
IsUsed id now store =
    Any (λ (t : AuthPasswordResetToken). (t.id ≡ id) × (t.used_at ≡ some (iso now)))
      store.auth_password_reset_tokens

get_token-id :
    (id : String) (store : ApiStore) (token : AuthPasswordResetToken)
    → get_password_reset_token system id store ≡ ok token
    → token.id ≡ id
unfolding get_password_reset_token
get_token-id id store token h =
    let q = λ (t : AuthPasswordResetToken). str_eq t.id id in
    let (found, looked, h₁) =
      >>=-eq-ok
        (or_not_found "Password reset token not found." (find q store.auth_password_reset_tokens)) _
        h in
    let (allowed, access, h₂) =
      >>=-eq-ok (assert_can_access system found.scope) (λ _. ok found) h₁ in
    let holds = find-holds q store.auth_password_reset_tokens (or_not_found-ok _ _ looked) in
    sym (ap (λ (t : AuthPasswordResetToken). t.id) (ok-injective h₂)) ∙ (eq_iff found.id id).0 holds

mark-sessions :
    (id : String) (now : Instant) (store store' : ApiStore) {t : AuthPasswordResetToken}
    → mark_password_reset_token_used system id (iso now) store ≡ ok (t, store')
    → (store'.auth_sessions ≡ store.auth_sessions) × IsUsed id now store'
unfolding mark_password_reset_token_used store_token
mark-sessions id now store store' h =
    let (token, read, h₁) = >>=-eq-ok (get_password_reset_token system id store) _ h in
    let used_token : AuthPasswordResetToken = record token { used_at = some (iso now) } in
    let others =
      filter (λ (t : AuthPasswordResetToken). not (is_token token.scope token.id t))
        store.auth_password_reset_tokens in
    let left : store_token used_token store ≡ store' =
      ap (λ (x : AuthPasswordResetToken × ApiStore). x.1) (ok-injective h₁) in
    (
      sym (ap (λ (x : ApiStore). x.auth_sessions) left),
      subst (IsUsed id now) left (
          Any-append_right
            (λ (t : AuthPasswordResetToken). (t.id ≡ id) × (t.used_at ≡ some (iso now))) others
            (used_token ∷ []) (inl (get_token-id id store token read, refl))),
    )

-- The token that is consumed, and what marking it leaves.
pub record Consumed (platform : Platform) (scope : Scope) (reset_token : String) (now : Instant)
    (store store' : ApiStore) : Type 0 where
  pub token : AuthPasswordResetToken
  pub listed : Any (λ (t : AuthPasswordResetToken). t ≡ token) store.auth_password_reset_tokens
  pub of_scope : token.scope ≡ scope
  pub usable : is_usable_token (platform.sha256_hex reset_token) now token ≡ true
  pub sessions : store'.auth_sessions ≡ store.auth_sessions
  pub used : IsUsed token.id now store'

mark_found-some :
    (now : Instant) (o : Option AuthPasswordResetToken) (store store' : ApiStore)
    (used : AuthPasswordResetToken)
    → mark_found now o store ≡ (ok (some used), store')
    → ((token : AuthPasswordResetToken) × (o ≡ some token) × IsUsed token.id now store')
      × (store'.auth_sessions ≡ store.auth_sessions)
unfolding mark_found
mark_found-some now none store store' used h =
    absurd (none-some (ok-injective (ap (λ (x : Response (Option AuthPasswordResetToken)). x.0) h)))
  where
    none-some : ◌≡◌ {A = Option AuthPasswordResetToken} none (some used) → ⊥
    none-some k = cc
mark_found-some now (some token) store store' used h =
    let mark = mark_password_reset_token_used system token.id (iso now) in
    let (marked, s₁, r₁, h₁) = continue-ok (perform mark store) _ h in
    let (sessions, used_up) = mark-sessions token.id now store s₁ (perform-ok mark store s₁ r₁) in
    let left = ap (λ (x : Response (Option AuthPasswordResetToken)). x.1) h₁ in
    (
      (token, refl, subst (IsUsed token.id now) left used_up),
      sym (ap (λ (x : ApiStore). x.auth_sessions) left) ∙ sessions,
    )

all_mine :
    (scope : Scope) (xs : List AuthPasswordResetToken)
    → All
        (λ (t : AuthPasswordResetToken). matches_scope t.scope scope ≡ true)
        (filter (λ (t : AuthPasswordResetToken). matches_scope t.scope scope) xs)
all_mine scope [] = tt
all_mine scope (t ∷ xs) = elim (Bool-cases (matches_scope t.scope scope)) [
  | inl e ↦ rw e (e, all_mine scope xs)
  | inr e ↦ rw e (all_mine scope xs)
]

-- What is found in a filtered list is listed.
find-listed :
    (p q : AuthPasswordResetToken → Bool) (xs : List AuthPasswordResetToken)
    {token : AuthPasswordResetToken}
    → find p (filter q xs) ≡ some token
    → Any (λ (t : AuthPasswordResetToken). t ≡ token) xs
find-listed p q [] h = cc
find-listed p q (t ∷ xs) h = elim (Bool-cases (q t)) [
  | inr e ↦ inr (find-listed p q xs (rw e at h))
  | inl e ↦ elim (Bool-cases (p t)) [
    | inl k ↦ inl (some-injective _ _ (rw (e, k) at h))
    | inr k ↦ inr (find-listed p q xs (rw (e, k) at h))
  ]
]

-- A token that may be used has the hash, is not used and has not expired.
pub usable-facts :
    (token_hash : String) (now : Instant) (token : AuthPasswordResetToken)
    → is_usable_token token_hash now token ≡ true
    → (token.token_hash ≡ token_hash)
      × (token.used_at ≡ none)
      × ((end : Instant) × (token.expires_at ≡ iso end) × (now < end))
unfolding is_after
usable-facts token_hash now token h =
    let (hash, rest) = both-true _ _ h in
    let (free, unexpired) = both-true _ _ rest in
    (
      (eq_iff token.token_hash token_hash).0 hash,
      unset-none token.used_at free,
      after token.expires_at refl unexpired,
    )
  where
    unset-none : (o : Option Timestamp) → is_unset o ≡ true → o ≡ none
    unset-none none k = refl
    unset-none (some t) k = cc

    after :
        (t : Timestamp)
        → token.expires_at ≡ t
        → is_after t now ≡ true
        → (end : Instant) × (token.expires_at ≡ iso end) × (now < end)
    after (iso end) e k = (end, e, ltb→lt _ _ k)
    after Timestamp.malformed e k = cc

pub consume-Consumed :
    (platform : Platform) (scope : Scope) (reset_token : String) (now : Instant)
    (store store' : ApiStore) (used : AuthPasswordResetToken)
    → consume_valid_password_reset_token platform scope reset_token now store
      ≡ (ok (some used), store')
    → Consumed platform scope reset_token now store store'
unfolding consume_valid_password_reset_token list_password_reset_tokens
consume-Consumed platform scope reset_token now store store' used h =
    let p = is_usable_token (platform.sha256_hex reset_token) now in
    let mine = λ (t : AuthPasswordResetToken). matches_scope t.scope scope in
    let tokens = filter mine store.auth_password_reset_tokens in
    let ((token, e, used_up), sessions) = mark_found-some now (find p tokens) store store' used h in
    record {
      token = token;
      listed = find-listed p mine store.auth_password_reset_tokens e;
      of_scope = matches_scope-eq token.scope scope (
          find-All (λ (t : AuthPasswordResetToken). mine t ≡ true) p tokens
            (all_mine scope store.auth_password_reset_tokens) e);
      usable = find-holds p tokens e;
      sessions = sessions;
      used = used_up;
    }
