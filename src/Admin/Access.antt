-- ===== src/Admin/Access.antt =====
-- Who gets past the guard of the admin routes, and how often a service is asked
-- (apps/admin/src/app/api/admin/_guard.ts, apps/admin/src/lib/session.ts and admin-api.ts).
use ecomerce_microservices_o.Prelude.{
  suc, ◌≤◌, ◌≡◌, refl, ◌⊎◌, inl, inr, true, String, List, [], ◌∷◌, Option, none, some, str_eq,
  arith, All, Bool-cases, length, includes, ◌||◌,
}
use ecomerce_microservices_o.Admin.Client.{
  identity, Result, ok, err, AdminError, Request, Env, admin_call,
}
use ecomerce_microservices_o.Admin.Session.{
  UserProfile, AdminSession, Schemas, Reply, authorised, with_profile, with_token, with_cookie,
  require_admin, refresh_request, me_request, guarded, replied, admin_problem, with_admin,
}

module _ {J : Type 0} where
  abbrev pub IsForIdentity : Request J → Type 0
  IsForIdentity q = q.service ≡ identity

  -- What the session's own calls leave in the log.
  abbrev pub IsSignIn : List (Request J) → Type 0
  IsSignIn log = All IsForIdentity log × (length log ≤ 2)

-- An operator: ADMIN or OPS, with a second factor.
abbrev pub IsOperator : AdminSession → Type 0
IsOperator session =
    ((includes "ADMIN" session.user.roles || includes "OPS" session.user.roles) ≡ true)
    × (session.user.mfa_enabled ≡ true)

abbrev IsOperatorIf : Result AdminSession → Type 0
IsOperatorIf (err e) = Unit
IsOperatorIf (ok session) = IsOperator session

module _ {J : Type 0} (env : Env J) where
  pub admin_call-log :
      {A : Type 0} (q : Request J) (parse : Option J → Option A) (log : List (Request J))
      → ((admin_call env q parse log).1 ≡ log) ⊎ ((admin_call env q parse log).1 ≡ q ∷ log)
  unfolding admin_call
  admin_call-log q parse log = elim (Bool-cases (env.configured q.service)) [
    | inl on ↦ rw on (inr refl)
    | inr off ↦ rw off (inl refl)
  ]

  admin_call-identity :
      {A : Type 0} (q : Request J) (parse : Option J → Option A) (log : List (Request J))
      → q.service ≡ identity
      → All IsForIdentity log
      → All IsForIdentity (admin_call env q parse log).1
        × (length (admin_call env q parse log).1 ≤ suc (length log))
  admin_call-identity q parse log own h = elim (admin_call-log q parse log) [
    | inl same ↦ rw same (h, omega arith)
    | inr more ↦ rw more ((own, h), omega arith)
  ]

module _ {J : Type 0} (env : Env J) (schemas : Schemas J) where
  authorised-IsOperator :
      (token : String) (user : UserProfile) → IsOperatorIf (authorised env schemas token user)
  unfolding authorised
  authorised-IsOperator token user =
      elim (Bool-cases (includes "ADMIN" user.roles || includes "OPS" user.roles)) [
        | inl allowed ↦ elim (Bool-cases user.mfa_enabled) [
          | inl on ↦ ground arith
          | inr off ↦ rw allowed (rw off tt)
        ]
        | inr other ↦ rw other tt
      ]

  with_profile-IsSignIn :
      (token : String) (res : Result UserProfile × List (Request J))
      → IsSignIn res.1
      → IsSignIn (with_profile env schemas token res).1
        × IsOperatorIf (with_profile env schemas token res).0
  with_profile-IsSignIn token (err e, log) h = (h, tt)
  with_profile-IsSignIn token (ok user, log) h = (h, authorised-IsOperator token user)

  with_token-IsSignIn :
      (res : Result String × List (Request J))
      → All IsForIdentity res.1
      → length res.1 ≤ 1
      → IsSignIn (with_token env schemas res).1 × IsOperatorIf (with_token env schemas res).0
  with_token-IsSignIn (err e, log) h short = ((h, omega (arith, short)), tt)
  with_token-IsSignIn (ok token, log) h short =
      let (own, le) =
        admin_call-identity env (me_request env schemas token) schemas.user_profile log refl h in
      with_profile-IsSignIn token
        (admin_call env (me_request env schemas token) schemas.user_profile log)
        (own, omega (arith, le, short))

  with_cookie-IsSignIn :
      (cookie : Option String)
      → IsSignIn (with_cookie env schemas cookie []).1
        × IsOperatorIf (with_cookie env schemas cookie []).0
  with_cookie-IsSignIn none = ((tt, omega arith), tt)
  with_cookie-IsSignIn (some token) = elim (Bool-cases (str_eq token "")) [
    | inl blank ↦ rw blank ((tt, omega arith), tt)
    | inr shown ↦
        let (own, le) =
          admin_call-identity env (refresh_request env schemas token) schemas.token_pair [] refl
            tt in
        rw shown (
          with_token-IsSignIn
            (admin_call env (refresh_request env schemas token) schemas.token_pair []) own le)
  ]

  -- How a guarded route ends: refused after the session's own calls, or with what the handler makes
  -- of an operator's session.
  abbrev pub IsGuarded :
      {A : Type 0}
      → (AdminSession → List (Request J) → Result A × List (Request J))
      → Reply A × List (Request J)
      → Type 0
  IsGuarded handler end =
      ((e : AdminError) × (log : List (Request J)) × IsSignIn log
        × (end ≡ (admin_problem env e, log)))
      ⊎ ((session : AdminSession) × (log : List (Request J)) × IsSignIn log
          × IsOperator session
          × (end ≡ replied env (handler session log)))

  guarded-IsGuarded :
      {A : Type 0} (handler : AdminSession → List (Request J) → Result A × List (Request J))
      (res : Result AdminSession × List (Request J))
      → IsSignIn res.1
      → IsOperatorIf res.0
      → IsGuarded handler (guarded env handler res)
  guarded-IsGuarded handler (err e, log) h op = inl (e, log, h, refl)
  guarded-IsGuarded handler (ok session, log) h op = inr (session, log, h, op, refl)

  -- A guarded admin route either answers a problem after at most two requests, all to identity-
  -- service, or runs its handler after such requests on a session whose profile has the role ADMIN
  -- or OPS and a second factor, and answers what the handler makes.
  pub with_admin-IsGuarded :
      {A : Type 0} (cookie : Option String)
      (handler : AdminSession → List (Request J) → Result A × List (Request J))
      → IsGuarded handler (with_admin env schemas cookie handler [])
  unfolding with_admin require_admin
  with_admin-IsGuarded cookie handler =
      let (h, op) = with_cookie-IsSignIn cookie in
      guarded-IsGuarded handler (with_cookie env schemas cookie []) h op
