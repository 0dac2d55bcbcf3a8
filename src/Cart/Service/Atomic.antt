-- ===== src/Cart/Service/Atomic.antt =====
-- The load and the write of a request on a cart, with other clients in between
-- (services/cart-service/src/cart.ts).
use ecomerce_microservices_o.Prelude.{
  ℕ, ◌+◌, ◌≡◌, refl, inl, inr, true, false, not, String, str_eq, List, none, some, arith, eq_iff,
  ◌==◌, if◌then◌else◌, Option-cases, Bool-cases, ap, sym, ◌∙◌,
}
use ecomerce_microservices_o.Prelude.Int.{ℤ, pos, negsuc, ℤ_eq}
use ecomerce_microservices_o.Prelude.Store.{update_self}
use ecomerce_microservices_o.Cart.Types.{Code, StoredCart, StoredLine, Variant, Cart}
use ecomerce_microservices_o.Cart.Codes.{normalise, push_code}
use ecomerce_microservices_o.Cart.Lines.{add_to_lines, update_lines}
use ecomerce_microservices_o.Cart.Redis.{
  Entry, Redis, Result, ok, err, cart_stale, cart_not_found, cart_full, product_not_found,
  product_not_available, line_not_found, redis_failed, set_sha, cas, load, ttl_for, Action, resume,
  or_throw-ok, throw_if-ok,
}
use ecomerce_microservices_o.Cart.Redis.Versions.{
  Reach, Reach-entry, Later, next_entry, cas_script-Later, cas_cases,
}
use ecomerce_microservices_o.Cart.Pricing.{price}
use ecomerce_microservices_o.Cart.Service.{
  Env, price_action, stale, commit, load_expecting, new_line, with_lines, add_line, update_line,
  apply_coupon,
}

module _ (env : Env) where
  pub price_action-state :
      (cart : StoredCart) (v : ℤ) (r : Redis) → (price_action env cart v r).1 ≡ r
  unfolding price_action
  price_action-state cart v r =
      elim (Option-cases (price env.get_variants env.calculate env.now cart v)) [
        | inl thrown ↦ rw thrown
        | inr (c, priced) ↦ rw priced
      ]

  commit_swapped :
      (k : String) (v n : ℕ) (cart : StoredCart) (r s : Redis)
      → cas env.replies k v cart (ttl_for cart) (env.between r) ≡ (ok (pos n), s)
      → commit env k v cart r ≡ price_action env cart (pos n) s
  unfolding commit
  commit_swapped k v n cart r s h = rw h (rw (not_minus_one n))
    where
      not_minus_one : (m : ℕ) → ℤ_eq (pos m) (negsuc 0) ≡ false
      not_minus_one m = ground arith

  commit_refused :
      (k : String) (v : ℕ) (cart : StoredCart) (r s : Redis)
      → cas env.replies k v cart (ttl_for cart) (env.between r) ≡ (ok (negsuc 0), s)
      → commit env k v cart r ≡ stale env k v s
  unfolding commit
  commit_refused k v cart r s h = rw h refl

  commit_failed :
      (k : String) (v : ℕ) (cart : StoredCart) (r : Redis)
      → (cas env.replies k v cart (ttl_for cart) (env.between r)).0 ≡ err redis_failed
      → (commit env k v cart r).0 ≡ err redis_failed
  unfolding commit
  commit_failed k v cart r h = ground arith

  -- A successful commit replaced the very entry that the request had loaded.
  commit-ok :
      (k : String) (e : Entry) (cart : StoredCart) (r : Redis) {c : Cart} {r' : Redis}
      → Later e ((env.between r).carts k)
      → commit env k e.version cart r ≡ (ok c, r')
      → ((env.between r).carts k ≡ some e)
        × (r'.carts k ≡ some (next_entry cart e.version (ttl_for cart)))
  unfolding load
  commit-ok k e cart r {c} {r'} later h =
      elim (cas_cases env.replies k e.version cart (ttl_for cart) (env.between r)) [
        | inl once ↦
            elim (cas_script-Later (set_sha true (env.between r)) e cart (ttl_for cart) later) [
              | inl (same, swapped) ↦
                  let done = commit_swapped k e.version (e.version + 1) cart r _ (once ∙ swapped) in
                  let state =
                    sym (price_action-state cart (pos (e.version + 1)) _)
                    ∙ ap (λ (p : Result Cart × Redis). p.1) (sym done ∙ h) in
                  (same, rw (← state) (update_self (env.between r).carts k _))
              | inr (e', at, grew, refused) ↦
                  let done = commit_refused k e.version cart r _ (once ∙ refused) in
                  cc (ap (λ (p : Result Cart × Redis). p.0) (sym done ∙ h))
            ]
        | inr failed ↦ cc (commit_failed k e.version cart r failed)
      ]

  load_expecting-none :
      (k : String) (expected : ℕ) (r : Redis)
      → r.carts k ≡ none
      → load_expecting env k expected r ≡ (err cart_not_found, r)
  unfolding load_expecting load
  load_expecting-none k expected r p = rw p

  load_expecting-some :
      (k : String) (expected : ℕ) (r : Redis) (e : Entry)
      → r.carts k ≡ some e
      → load_expecting env k expected r ≡ (
          if e.version == expected
          then (ok (e.cart, e.version), r)
          else (err (cart_stale expected (pos e.version)), r))
  unfolding load_expecting load
  load_expecting-some k expected r e p = elim (Bool-cases (e.version == expected)) [
    | inl same ↦ rw p (rw same)
    | inr other ↦ rw p (rw other)
  ]

  load_expecting-ok :
      (f : StoredCart × ℕ → Action Cart) (k : String) (expected : ℕ) (r : Redis) {c : Cart}
      {r' : Redis}
      → resume f (load_expecting env k expected r) ≡ (ok c, r')
      → (e : Entry) × (r.carts k ≡ some e)
        × (e.version ≡ expected)
        × (f (e.cart, e.version) r ≡ (ok c, r'))
  load_expecting-ok f k expected r {c} {r'} h = elim (Option-cases (r.carts k)) [
    | inl p ↦
        let q : resume f (err cart_not_found, r) ≡ (ok c, r') =
          rw (load_expecting-none k expected r p) at h in
        cc (ap (λ (x : Result Cart × Redis). x.0) q)
    | inr (e, p) ↦ elim (Bool-cases (e.version == expected)) [
      | inl same ↦
          let q = rw (load_expecting-some k expected r e p, same) at h in
          (e, p, test_eq e.version expected same, q)
      | inr other ↦
          let q : resume f (err (cart_stale expected (pos e.version)), r) ≡ (ok c, r') =
            rw (load_expecting-some k expected r e p, other) at h in
          cc (ap (λ (x : Result Cart × Redis). x.0) q)
    ]
  ]
    where
      test_eq : (n m : ℕ) → (n == m) ≡ true → n ≡ m
      test_eq n m h = ground arith

  -- What a successful request has done to the cart `k`: the entry that it found, at the client's
  -- version, was still there at the write, and was replaced by `cart` of it.
  abbrev pub Replaced : String → ℕ → (Entry → StoredCart → Type 0) → Redis → Redis → Type 0
  Replaced k expected P r r' =
      (e : Entry) × (cart : StoredCart) × (r.carts k ≡ some e)
      × (e.version ≡ expected)
      × ((env.between r).carts k ≡ some e)
      × P e cart
      × (r'.carts k ≡ some (next_entry cart e.version (ttl_for cart)))

  -- The common end of the three requests.
  commit-Replaced :
      (k : String) (expected : ℕ) (P : Entry → StoredCart → Type 0) (e : Entry) (cart : StoredCart)
      (r : Redis) {c : Cart} {r' : Redis}
      → Reach k r (env.between r)
      → r.carts k ≡ some e
      → e.version ≡ expected
      → P e cart
      → commit env k e.version cart r ≡ (ok c, r')
      → Replaced k expected P r r'
  commit-Replaced k expected P e cart r path found version p h =
      let (same, written) = commit-ok k e cart r (Reach-entry path found) h in
      (e, cart, found, version, same, p, written)

  -- A successful addLine, while other clients act between its load and its write and the cart
  -- neither expires nor is deleted: the product exists and is active, the cart at the client's
  -- version was still in place at the write, and it is replaced by itself with the line added and
  -- the time of the update, at the next version.
  pub add_line-Replaced :
      (k sku : String) (quantity expected : ℕ) (r : Redis) {c : Cart} {r' : Redis}
      → Reach k r (env.between r)
      → add_line env k sku quantity expected r ≡ (ok c, r')
      → (product : Variant) × (env.get_variant sku ≡ some product)
        × (product.status ≡ "ACTIVE")
        × Replaced k expected
            (λ e cart.
              (lines : List StoredLine) × (add_to_lines
                  (new_line env product sku quantity)
                  e.cart.lines
                ≡ some lines)
              × (cart ≡ with_lines env e.cart lines))
            r
            r'
  unfolding add_line
  add_line-Replaced k sku quantity expected r path h =
      let (e, found, version, h1) = load_expecting-ok _ k expected r h in
      let (product, has, h2) = or_throw-ok _ (env.get_variant sku) product_not_found r h1 in
      let (active, h3) =
        throw_if-ok _ (not (str_eq product.status "ACTIVE")) product_not_available r h2 in
      let (lines, added, h4) =
        or_throw-ok _ (add_to_lines (new_line env product sku quantity) e.cart.lines) cart_full r
          h3 in
      (
        product,
        has,
        is_active product.status active,
        commit-Replaced k expected _ e (with_lines env e.cart lines) r path found version
            (lines, added, refl) h4,
      )
    where
      is_active : (s : String) → not (str_eq s "ACTIVE") ≡ false → s ≡ "ACTIVE"
      is_active s h = ground (arith, eq_iff s "ACTIVE")

  -- A successful updateLine, while other clients act between its load and its write and the cart
  -- neither expires nor is deleted: the cart at the client's version was still in place at the
  -- write, and it is replaced by itself with the quantity of the line updated or the line removed,
  -- at the next version.
  pub update_line-Replaced :
      (k sku : String) (quantity expected : ℕ) (r : Redis) {c : Cart} {r' : Redis}
      → Reach k r (env.between r)
      → update_line env k sku quantity expected r ≡ (ok c, r')
      → Replaced k expected
          (λ e cart.
            (lines : List StoredLine) × (update_lines sku quantity e.cart.lines ≡ some lines)
            × (cart ≡ with_lines env e.cart lines))
          r
          r'
  unfolding update_line
  update_line-Replaced k sku quantity expected r path h =
      let (e, found, version, h1) = load_expecting-ok _ k expected r h in
      let (lines, updated, h2) =
        or_throw-ok _ (update_lines sku quantity e.cart.lines) line_not_found r h1 in
      commit-Replaced k expected _ e (with_lines env e.cart lines) r path found version
        (lines, updated, refl) h2

  -- A successful applyCoupon, while other clients act between its load and its write and the cart
  -- neither expires nor is deleted: the cart at the client's version was still in place at the
  -- write, and it is replaced by itself with the normalised code among its coupons, at the next
  -- version.
  pub apply_coupon-Replaced :
      (k : String) (code : Code) (expected : ℕ) (r : Redis) {c : Cart} {r' : Redis}
      → Reach k r (env.between r)
      → apply_coupon env k code expected r ≡ (ok c, r')
      → Replaced k expected
          (λ e cart. cart ≡ record e.cart {
            coupons = push_code e.cart.coupons (normalise code);
            updated_at = env.now;
          })
          r
          r'
  unfolding apply_coupon
  apply_coupon-Replaced k code expected r path h =
      let (e, found, version, h1) = load_expecting-ok _ k expected r h in
      commit-Replaced k expected _ e _ r path found version refl h1
