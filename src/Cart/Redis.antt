-- ===== src/Cart/Redis.antt =====
-- The carts in Redis and the compare-and-swap script (services/cart-service/src/cart.ts). An action
-- keeps what it wrote when it throws. `hmget`, `get`, `set` and `del` are taken to answer; what
-- `evalsha` answers is given as a list. The stored JSON is modelled by the cart that it encodes.
pub mod Versions
use ecomerce_microservices_o.Prelude.{
  ℕ, ◌+◌, ◌≡◌, refl, ap, Bool, true, false, String, List, [], ◌∷◌, Option, none, some, ◌==◌,
  if◌then◌else◌,
}
use ecomerce_microservices_o.Prelude.Int.{ℤ, pos, negsuc}
use ecomerce_microservices_o.Prelude.Store.{update}
use ecomerce_microservices_o.Cart.Types.{StoredCart, cart_ttl_seconds, anon_cart_ttl_seconds}

-- The hash under `cart:<id>`, with its expiry in seconds.
pub record Entry : Type 0 where
  pub cart : StoredCart
  pub version : ℕ
  pub ttl : ℕ

-- `carts` holds the keys `cart:<id>`, `user_index` the keys `cart:user:<id>`, and `cas_sha` whether
-- the process has loaded the script.
pub record Redis : Type 0 where
  pub carts : String → Option Entry
  pub user_index : String → Option String
  pub cas_sha : Bool

pub data CartError : Type 0 where
  cart_stale : ℕ → ℤ → CartError
  cart_full cart_not_found product_not_found product_not_available line_not_found : CartError
  currency_mismatch redis_failed : CartError

pub data Result (A : Type 0) : Type 0 where
  ok : A → Result A
  err : CartError → Result A

abbrev pub Action : Type 0 → Type 0
Action A = Redis → Result A × Redis

module _ {A : Type 0} where
  abbrev pub pure : A → Action A
  pure a r = (ok a, r)

  abbrev pub throw : CartError → Action A
  throw e r = (err e, r)

  abbrev pub or_throw : Option A → CartError → Action A
  or_throw none e = throw e
  or_throw (some a) _ = pure a

-- What follows a call that has returned.
abbrev pub resume : {A B : Type 0} → (A → Action B) → Result A × Redis → Result B × Redis
resume f (ok a, r) = f a r
resume f (err e, r) = (err e, r)

infixl 5 ◌>>=◌ ◌>>◌
abbrev pub ◌>>=◌ : {A B : Type 0} → Action A → (A → Action B) → Action B
◌>>=◌ m f r = resume f (m r)

abbrev pub ◌>>◌ : {A B : Type 0} → Action A → Action B → Action B
m >> k = m >>= λ _. k

abbrev pub throw_if : Bool → CartError → Action (Unit {0})
throw_if c e r = (if c then err e else ok tt, r)

abbrev pub modify : (Redis → Redis) → Action (Unit {0})
modify f r = (ok tt, f r)

-- The script: `none` is Lua's false for a missing hash, and -1 the answer to a stale version.
abbrev pub run_script : Option Entry → ℕ → StoredCart → ℕ → ℤ × Option Entry
run_script none v cart ttl = (pos 1, some (record { cart = cart; version = 1; ttl = ttl }))
run_script (some e) v cart ttl =
    if e.version == v
    then (pos (e.version + 1), some (record { cart = cart; version = e.version + 1; ttl = ttl }))
    else (negsuc 0, some e)

abbrev pub put_entry : String → Option Entry → Redis → Redis
put_entry k e r = record r { carts = update r.carts k e }

unfoldable pub cas_script : String → ℕ → StoredCart → ℕ → Action ℤ
cas_script k v cart ttl r =
    let (answer, e) = run_script (r.carts k) v cart ttl in (ok answer, put_entry k e r)

-- One answer of `evalsha`: the script ran; Redis does not hold the script; it was not run for
-- another reason; or it ran and the answer was lost on the way.
pub data Reply : Type 0 where
  ran no_script refused lost : Reply

abbrev pub set_sha : Bool → Redis → Redis
set_sha b r = record r { cas_sha = b }

-- When the list of answers is used up, the script runs.
unfoldable pub cas : List Reply → String → ℕ → StoredCart → ℕ → Action ℤ
unfolding cas_script
cas [] k v cart ttl r = cas_script k v cart ttl (set_sha true r)
cas (ran ∷ rs) k v cart ttl r = cas_script k v cart ttl (set_sha true r)
cas (no_script ∷ rs) k v cart ttl r = cas rs k v cart ttl (set_sha false r)
cas (refused ∷ rs) k v cart ttl r = (err redis_failed, set_sha true r)
cas (lost ∷ rs) k v cart ttl r = (err redis_failed, (cas_script k v cart ttl (set_sha true r)).1)

abbrev pub loaded : Option Entry → Option (StoredCart × ℕ)
loaded none = none
loaded (some e) = some (e.cart, e.version)

unfoldable pub load : String → Action (Option (StoredCart × ℕ))
load k r = (ok (loaded (r.carts k)), r)

unfoldable pub ttl_for : StoredCart → ℕ
ttl_for cart = elim cart.user_id [ none ↦ anon_cart_ttl_seconds | some _ ↦ cart_ttl_seconds ]

-- `redis.get(userIndex(userId))`, `redis.set(userIndex(userId), cartId)`, `redis.del(key(cartId))`
unfoldable pub get_index : String → Action (Option String)
get_index u r = (ok (r.user_index u), r)

unfoldable pub set_index : String → String → Action (Unit {0})
set_index u k r = (ok tt, record r { user_index = update r.user_index u (some k) })

unfoldable pub del_cart : String → Action (Unit {0})
del_cart k r = (ok tt, put_entry k none r)

-- A chain that returned passed each of its checks.
module _ {A B : Type 0} {b : B} {r' : Redis} where
  pub or_throw-ok :
      (f : A → Action B) (o : Option A) (e : CartError) (r : Redis)
      → resume f (or_throw o e r) ≡ (ok b, r')
      → (a : A) × (o ≡ some a) × (f a r ≡ (ok b, r'))
  or_throw-ok f none e r h = cc (ap (λ (p : Result B × Redis). p.0) h)
  or_throw-ok f (some a) e r h = (a, refl, h)

module _ {B : Type 0} {b : B} {r' : Redis} where
  pub throw_if-ok :
      (f : Unit {0} → Action B) (c : Bool) (e : CartError) (r : Redis)
      → resume f (throw_if c e r) ≡ (ok b, r')
      → (c ≡ false) × (f tt r ≡ (ok b, r'))
  throw_if-ok f true e r h = cc (ap (λ (p : Result B × Redis). p.0) h)
  throw_if-ok f false e r h = (refl, h)
