-- ===== src/Session/Exchange.antt =====
-- The exchanges of the storefront's session (apps/storefront/src/lib/session.ts) with
-- identity-service.
use ecomerce_microservices_o.Prelude.{
  ℕ, zero, suc, ◌+◌, ◌≡◌, ◌≢◌, refl, sym, ap, ◌∙◌, true, false, String, Option, none, some,
  str_eq_self, str_eq_ne, Option-cases, inl, inr, ltb, if◌then◌else◌,
}
use ecomerce_microservices_o.Prelude.Store.{update}
use ecomerce_microservices_o.Bff.Call.{Result, ok}
use ecomerce_microservices_o.Session.{
  Request, presented, settled, get_access_token, get_many, exchange_cached, required, exchange_with,
  unauthenticated,
}
use ecomerce_microservices_o.Identity.{
  Env, Tokens, RefreshToken, issued, reused, active, used, refresh, refresh_in, committed, mint,
  marked, revoke_family,
}

module _ {Identity : Type 0} (exchange : String → Identity → Result String × Identity) where
  exchange_cached-again :
      (cached : Option (Result (Option String))) (token : String) (r : Request) (i : Identity)
      → r.cached ≡ cached
      → let (answer, r', i') = exchange_cached exchange cached token r i in
        exchange_cached exchange r'.cached token r' i' ≡ (answer, r', i')
  exchange_cached-again (some answer) token r i e = rw e refl
  exchange_cached-again none token r i e = refl

  exchange_cached-cookie :
      (cached : Option (Result (Option String))) (token : String) (r : Request) (i : Identity)
      → (exchange_cached exchange cached token r i).1.refresh_cookie ≡ r.refresh_cookie
  exchange_cached-cookie (some answer) token r i = refl
  exchange_cached-cookie none token r i = refl

  get_access_token-again :
      (r : Request) (i : Identity)
      → let (answer, r', i') = get_access_token exchange r i in
        get_access_token exchange r' i' ≡ (answer, r', i')
  unfolding get_access_token
  get_access_token-again r i = elim (Option-cases (presented r.refresh_cookie)) [
    | inl missing ↦ rw missing (rw missing refl)
    | inr (token, shown) ↦ rw shown (
        rw (exchange_cached-cookie r.cached token r i)
          (rw shown (exchange_cached-again r.cached token r i refl)))
  ]

  get_many-suc :
      (n : ℕ) (r : Request) (i : Identity)
      → let (_, r', i') = get_access_token exchange r i in
        get_many exchange (suc n) r i ≡ get_many exchange n r' i'
  unfolding get_many
  get_many-suc n r i = refl

  -- However often the access token is asked for within one request, every later call gives the
  -- answer of the first one and leaves identity-service as it was.
  pub get_access_token-once :
      (n : ℕ) (r : Request) (i : Identity)
      → let (answer, r', i') = get_access_token exchange r i in
        let (r'', i'') = get_many exchange n r' i' in
        get_access_token exchange r'' i'' ≡ (answer, r', i')
  unfolding get_many
  get_access_token-once zero r i = get_access_token-again r i
  get_access_token-once (suc n) r i =
      let (_, r', i') = get_access_token exchange r i in
      rw (get_many-suc n r' i') (rw (get_access_token-again r i) (get_access_token-once n r i))

-- A token that identity-service would exchange.
abbrev pub IsLive : Env → String → RefreshToken → Tokens → Type 0
IsLive env token t tokens =
    (tokens token ≡ some t)
    × (t.state ≡ active)
    × (ltb t.expires_at env.now ≡ false)
    × (env.load_user_snapshot t.user_id ≡ some true)

refresh-live :
    (env : Env) (token : String) (t : RefreshToken) (tokens : Tokens)
    → IsLive env token t tokens
    → refresh env token tokens ≡ (
      issued (record { access_token = env.access; refresh_token = env.next }),
      mint env t (update tokens token (marked t)),
    )
unfolding refresh
refresh-live env token t tokens (found, is_active, unexpired, enabled) = rw found (
    ap (λ s. committed env tokens (refresh_in s env token t tokens)) is_active
    ∙ rw unexpired (rw enabled refl))

marked-active : (t : RefreshToken) → t.state ≡ active → marked t ≡ some (record t { state = used })
marked-active t h = rw h refl

-- The table after an exchange of `token`, which `t` is the row of.
abbrev exchanged : Env → String → RefreshToken → Tokens → Tokens
exchanged env token t tokens = mint env t (update tokens token (marked t))

-- A token that was exchanged once is refused.
refresh-again :
    (env env' : Env) (token : String) (t : RefreshToken) (tokens : Tokens)
    → env.next ≢ token
    → IsLive env token t tokens
    → refresh env' token (exchanged env token t tokens) ≡ (
      reused,
      if env'.keeps_on_throw
          then revoke_family t.session_id (exchanged env token t tokens)
          else exchanged env token t tokens,
    )
unfolding refresh
refresh-again env env' token t tokens fresh live =
    rw (str_eq_ne token env.next (λ e. fresh (sym e)))
      (rw (str_eq_self token) (rw (marked-active t live.1) refl))

abbrev pub request : String → Request
request token = record { refresh_cookie = some token; cached = none }

-- When a browser sends the same refresh-token cookie on two requests, its token live at the first
-- and not the one issued in exchange, the first request gets an access token, and the second is
-- taken for signed out and refused by requireAccessToken.
pub second_request :
    (env env' : Env) (token : String) (t : RefreshToken) (tokens : Tokens)
    → token ≢ ""
    → env.next ≢ token
    → IsLive env token t tokens
    → let (first, r, tokens') = get_access_token (exchange_with env) (request token) tokens in
      let (second, r', tokens'') = get_access_token (exchange_with env') (request token) tokens' in
      (first ≡ ok (some env.access)) × (second ≡ ok none) × (required second ≡ unauthenticated)
unfolding get_access_token exchange_with settled required
second_request env env' token t tokens shown fresh live = rw (str_eq_ne token "" shown) (
    rw (refresh-live env token t tokens live)
      (rw (refresh-again env env' token t tokens fresh live) (refl, refl, refl)))

-- When a live refresh token was exchanged for another one and is presented again, in a transaction
-- that keeps nothing when it throws, the reuse is detected, but the token it was exchanged for is
-- still accepted until it expires, while the user is enabled.
pub successor_survives :
    (env env' env'' : Env) (token : String) (t : RefreshToken) (tokens : Tokens)
    → env.next ≢ token
    → IsLive env token t tokens
    → env'.keeps_on_throw ≡ false
    → ltb (env.now + env.refresh_ttl) env''.now ≡ false
    → env''.load_user_snapshot t.user_id ≡ some true
    → let (first, tokens') = refresh env token tokens in
      let (second, tokens'') = refresh env' token tokens' in
      let (third, _) = refresh env'' env.next tokens'' in
      (first ≡ issued (record { access_token = env.access; refresh_token = env.next }))
      × (second ≡ reused)
      × (third ≡ issued (record { access_token = env''.access; refresh_token = env''.next }))
successor_survives env env' env'' token t tokens fresh live rolls_back unexpired enabled =
    let next : RefreshToken = record t { state = active; expires_at = env.now + env.refresh_ttl } in
    rw (refresh-live env token t tokens live) (
      rw (refresh-again env env' token t tokens fresh live) (
        rw rolls_back (
          rw
            (refresh-live env'' env.next next (exchanged env token t tokens)
              (rw (str_eq_self env.next) refl, refl, unexpired, enabled))
            (refl, refl, refl))))
