-- ===== src/Cart/Service/Merging.antt =====
-- What `merge` does to the two stored carts (services/cart-service/src/cart.ts).
use ecomerce_microservices_o.Prelude.{
  ℕ, ◌≡◌, refl, ◌≢◌, inl, inr, true, String, none, some, arith, ◌==◌, if◌then◌else◌, Bool-cases, ap,
  sym, str_eq_self, str_eq_ne,
}
use ecomerce_microservices_o.Prelude.Int.{ℤ}
use ecomerce_microservices_o.Cart.Types.{Cart, cart_ttl_seconds}
use ecomerce_microservices_o.Cart.Redis.{
  Entry, Redis, Result, ok, err, redis_failed, put_entry, cas_script, set_sha, load, get_index,
  del_cart, resume, Action,
}
use ecomerce_microservices_o.Cart.Redis.Versions.{next_entry, cas_cases}
use ecomerce_microservices_o.Cart.Service.{Env, merged_cart, merge_loaded, merge}
use ecomerce_microservices_o.Cart.Service.Atomic.{price_action-state}

module _ (env : Env) (anon_id user_id : String) (r : Redis) {anon e : Entry}
    (has_anon : r.carts anon_id ≡ some anon) (indexed : r.user_index user_id ≡ some e.cart.id)
    (has_cart : r.carts e.cart.id ≡ some e)
    (answered : (merge env anon_id user_id r).0 ≢ err redis_failed) where
  merge-eq :
      merge env anon_id user_id r
      ≡ merge_loaded env anon_id user_id
          (some (anon.cart, anon.version))
          (some (e.cart, e.version))
          r
  unfolding merge load get_index
  merge-eq = rw indexed (rw (has_anon, has_cart))

  merge-swapped :
      (merge env anon_id user_id r).1
      ≡ put_entry anon_id none
          (cas_script e.cart.id e.version
            (merged_cart env e.cart anon.cart)
            cart_ttl_seconds
            (set_sha true (env.between r))).1
  unfolding merge_loaded del_cart cas_script
  merge-swapped =
      elim (cas_cases env.replies e.cart.id e.version (merged_cart env e.cart anon.cart)
        cart_ttl_seconds (env.between r)) [
          | inl once ↦ rw merge-eq (rw once (price_action-state env _ _ _))
          | inr failed ↦ absurd (answered (rw merge-eq (failed_resume _ _ failed)))
        ]
    where
      failed_resume :
          (f : ℤ → Action Cart) (x : Result ℤ × Redis)
          → x.0 ≡ err redis_failed
          → (resume f x).0 ≡ err redis_failed
      failed_resume f (ok v, s) h = cc
      failed_resume f (err e, s) h = cc

-- When the user's cart and another cart are merged, the user's cart still exists at the write and
-- Redis answers, the anonymous cart is deleted; the user's cart becomes the merged one if its
-- version is still the one that was loaded, and otherwise stays what another client made of it.
pub merge_both :
    (env : Env) (anon_id user_id : String) (r : Redis) (anon e e' : Entry)
    → anon_id ≢ e.cart.id
    → r.carts anon_id ≡ some anon
    → r.user_index user_id ≡ some e.cart.id
    → r.carts e.cart.id ≡ some e
    → (env.between r).carts e.cart.id ≡ some e'
    → (merge env anon_id user_id r).0 ≢ err redis_failed
    → ((merge env anon_id user_id r).1.carts anon_id ≡ none)
      × ((merge env anon_id user_id r).1.carts e.cart.id
          ≡ some (
              if e'.version == e.version
              then next_entry (merged_cart env e.cart anon.cart) e.version cart_ttl_seconds
              else e'))
unfolding cas_script
merge_both env anon_id user_id r anon e e' ne has_anon indexed has_cart at answered =
    let swapped = merge-swapped env anon_id user_id r has_anon indexed has_cart answered in
    let user_left = str_eq_ne e.cart.id anon_id (λ p. ne (sym p)) in
    (
      rw swapped (rw (str_eq_self anon_id)),
      rw swapped (
          rw user_left (
            rw (str_eq_self e.cart.id) (
              rw at (elim (Bool-cases (e'.version == e.version)) [
                | inl same ↦ rw same (
                    ap
                      (λ (v : ℕ).
                        some (next_entry (merged_cart env e.cart anon.cart) v cart_ttl_seconds))
                      (eq_of_test e'.version e.version same))
                | inr changed ↦ rw changed refl
              ])))),
    )
  where
    eq_of_test : (n m : ℕ) → (n == m) ≡ true → n ≡ m
    eq_of_test n m h = ground arith

-- Merging the cart that already is the user's own, when Redis answers and no one else changes the
-- user's index, deletes it, while the user's index still names it.
pub merge_self :
    (env : Env) (user_id : String) (r : Redis) (e : Entry)
    → r.user_index user_id ≡ some e.cart.id
    → r.carts e.cart.id ≡ some e
    → (env.between r).user_index user_id ≡ some e.cart.id
    → (merge env e.cart.id user_id r).0 ≢ err redis_failed
    → ((merge env e.cart.id user_id r).1.carts e.cart.id ≡ none)
      × ((merge env e.cart.id user_id r).1.user_index user_id ≡ some e.cart.id)
unfolding cas_script
merge_self env user_id r e indexed has_cart still answered =
    let swapped = merge-swapped env e.cart.id user_id r has_cart indexed has_cart answered in
    (rw swapped (rw (str_eq_self e.cart.id)), rw swapped still)
