-- ===== src/Identity.antt =====
-- The refresh tokens of identity-service (services/identity-service/src/main/java/dev/souq/identity,
-- token/TokenService.java, token/JdbcRefreshTokenRepository.java, and `/refresh` of
-- api/AuthController.java), which the sessions of the apps stand on. A token stands for its hash.
use ecomerce_microservices_o.Prelude.{
  ℕ, ◌+◌, Bool, true, false, String, Option, none, some, if◌then◌else◌, str_eq, ltb,
}
use ecomerce_microservices_o.Prelude.Store.{update}

pub data TokenState : Type 0 where
  active used revoked : TokenState

pub record RefreshToken : Type 0 where
  pub user_id : String
  pub session_id : String
  pub state : TokenState
  pub expires_at : ℕ

-- The table `refresh_tokens`
abbrev pub Tokens : Type 0
Tokens = String → Option RefreshToken

-- What one call meets: the clock, the time to live of a refresh token, the users with whether they
-- are enabled, the access token that is signed and the refresh token that is drawn, and whether a
-- transaction that throws keeps what it wrote.
pub record Env : Type 0 where
  pub now : ℕ
  pub refresh_ttl : ℕ
  pub load_user_snapshot : String → Option Bool
  pub access : String
  pub next : String
  pub keeps_on_throw : Bool

pub record TokenPair : Type 0 where
  pub access_token : String
  pub refresh_token : String

-- TokenReuseException and InvalidTokenException, which both answer 401.
pub data Answer : Type 0 where
  issued : TokenPair → Answer
  reused : Answer
  invalid : Answer

-- markUsed, on the token that was found: only an active one changes.
abbrev pub marked : RefreshToken → Option RefreshToken
marked t = elim t.state [
  | active ↦ some (record t { state = used })
  | used ↦ some t
  | revoked ↦ some t
]

abbrev pub revoke : String → Option RefreshToken → Option RefreshToken
revoke session_id none = none
revoke session_id (some t) =
    if str_eq t.session_id session_id then some (record t { state = revoked }) else some t

unfoldable pub revoke_family : String → Tokens → Tokens
revoke_family session_id tokens token = revoke session_id (tokens token)

-- mintRefreshToken
abbrev pub mint : Env → RefreshToken → Tokens → Tokens
mint env t tokens = update tokens env.next (
    some (record {
      user_id = t.user_id;
      session_id = t.session_id;
      state = active;
      expires_at = env.now + env.refresh_ttl;
    }))

-- After `markUsed`: the user as the snapshot has them.
abbrev pub issue_for : Env → RefreshToken → Option Bool → Tokens → Answer × Tokens
issue_for env t none tokens = (invalid, tokens)
issue_for env t (some false) tokens = (invalid, revoke_family t.session_id tokens)
issue_for env t (some true) tokens =
    (issued (record { access_token = env.access; refresh_token = env.next }), mint env t tokens)

abbrev pub refresh_active : Env → String → RefreshToken → Tokens → Answer × Tokens
refresh_active env presented t tokens =
    if ltb t.expires_at env.now
    then (invalid, tokens)
    else issue_for env t (env.load_user_snapshot t.user_id) (update tokens presented (marked t))

abbrev pub refresh_in : TokenState → Env → String → RefreshToken → Tokens → Answer × Tokens
refresh_in used env presented t tokens = (reused, revoke_family t.session_id tokens)
refresh_in revoked env presented t tokens = (invalid, tokens)
refresh_in active env presented t tokens = refresh_active env presented t tokens

abbrev pub refresh_stored : Env → String → Option RefreshToken → Tokens → Answer × Tokens
refresh_stored env presented none tokens = (invalid, tokens)
refresh_stored env presented (some t) tokens = refresh_in t.state env presented t tokens

-- What a transaction leaves of the table.
abbrev pub committed : Env → Tokens → Answer × Tokens → Answer × Tokens
committed env before (issued pair, tokens) = (issued pair, tokens)
committed env before (reused, tokens) = (reused, if env.keeps_on_throw then tokens else before)
committed env before (invalid, tokens) = (invalid, if env.keeps_on_throw then tokens else before)

-- TokenService.refresh
unfoldable pub refresh : Env → String → Tokens → Answer × Tokens
refresh env presented tokens =
    committed env tokens (refresh_stored env presented (tokens presented) tokens)
