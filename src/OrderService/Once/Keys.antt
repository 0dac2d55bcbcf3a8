-- ===== src/OrderService/Once/Keys.antt =====
-- What the handling of a fresh idempotency key leaves in the database
-- (services/order-service/internal/httpapi/api.go and internal/store/idempotency.go).
use ecomerce_microservices_o.Prelude.{
  ℕ, suc, ◌+◌, ◌≤◌, ◌≢◌, ◌⊎◌, ◌≡◌, refl, sym, ◌∙◌, ap, true, false, String, List, [], ◌∷◌, Option,
  none, some, inl, inr, arith, Bool-cases, if◌then◌else◌, str_eq, str_eq_self, str_eq_ne, str_ne,
  eq_iff,
}
use mathlib.Core.Path.{subst}
use ecomerce_microservices_o.OrderService.{
  Body, Order, KeyRow, Replay, Db, Env, claimed, Placed, placed, invalid_order, total_mismatch,
  failed, finish, complete_key, release_key, key_lifetime,
}

unfoldable pub orders_of : String → List Order → ℕ
orders_of key [] = 0
orders_of key (o ∷ os) =
    let rest = orders_of key os in if str_eq o.idempotency_key key then suc rest else rest

-- The row of the key outlives the day from the start.
abbrev pub IsKept : ℕ → Option KeyRow → Type 0
IsKept start none = ⊥
IsKept start (some row) = start + key_lifetime ≤ row.expires_at

-- No key has two orders, and one with an order has such a row.
abbrev pub IsOnce : ℕ → String → Db → Type 0
IsOnce start key db =
    (orders_of key db.orders ≤ 1) × ((orders_of key db.orders ≡ 0) ⊎ IsKept start (db.keys key))

module _ (start : ℕ) (key : String) where
  -- A database with the orders of another one, where the row of the key is not gone.
  pub same_orders :
      (db db' : Db)
      → db'.orders ≡ db.orders
      → (IsKept start (db.keys key) → IsKept start (db'.keys key))
      → IsOnce start key db
      → IsOnce start key db'
  same_orders db db' same kept (once, row) = (
    rw same once,
    elim row [ inl unused ↦ inl (ap (orders_of key) same ∙ unused) | inr here ↦ inr (kept here) ],
  )

  -- Only the row of a fresh key changed.
  update-IsKept :
      (mine : String) (db db' : Db)
      → db.keys mine ≡ none
      → (str_eq key mine ≡ false → db'.keys key ≡ db.keys key)
      → IsKept start (db.keys key)
      → IsKept start (db'.keys key)
  update-IsKept mine db db' free others here = elim (Bool-cases (str_eq key mine)) [
    | inl same ↦
        let none_here : db.keys key ≡ none = rw ((eq_iff key mine).0 same) free in
        absurd (subst (IsKept start) none_here here)
    | inr other ↦ rw (others other) here
  ]

  pub claimed-IsOnce :
      (env : Env) (mine user : String) (body : Body) (db : Db)
      → db.keys mine ≡ none
      → IsOnce start key db
      → IsOnce start key (claimed env mine user body db)
  claimed-IsOnce env mine user body db free h =
      same_orders db (claimed env mine user body db) refl
        (update-IsKept mine db (claimed env mine user body db) free (λ other. rw other refl)) h

  release_key-IsOnce :
      (env : Env) (mine user : String) (body : Body) (db : Db)
      → db.keys mine ≡ none
      → IsOnce start key db
      → IsOnce start key (release_key env mine (claimed env mine user body db))
  release_key-IsOnce env mine user body db free h = elim (Bool-cases env.release_ok) [
    | inl ok ↦ rw ok (
        let db' =
          release_key (record env { release_ok = true }) mine (claimed env mine user body db) in
        same_orders db db' refl (update-IsKept mine db db' free (λ other. rw other refl)) h)
    | inr lost ↦ rw lost (claimed-IsOnce env mine user body db free h)
  ]

  -- The order's own key has its row, and no other key has got an order.
  placed-IsOnce :
      (mine : String) (o : Order) (db db' : Db) {row : KeyRow}
      → o.idempotency_key ≡ mine
      → db.keys mine ≡ none
      → db'.orders ≡ o ∷ db.orders
      → db'.keys mine ≡ some row
      → start + key_lifetime ≤ row.expires_at
      → (str_eq key mine ≡ false → db'.keys key ≡ db.keys key)
      → IsOnce start key db
      → IsOnce start key db'
  unfolding orders_of
  placed-IsOnce mine o db db' {row} of_key free added taken long others (once, before) =
      elim (Bool-cases (str_eq key mine)) [
        | inl same ↦
            let is : key ≡ mine = (eq_iff key mine).0 same in
            let none_here : db.keys key ≡ none = rw is free in
            let none_yet : orders_of key db.orders ≡ 0 = elim before [
              | inl unused ↦ unused
              | inr here ↦ absurd (subst (IsKept start) none_here here)
            ] in
            (
              rw added (rw of_key (rw (← is) (rw (str_eq_self key) (rw none_yet (omega arith))))),
              inr (rw is (rw taken long)),
            )
        | inr other ↦
            let not_mine : str_eq mine key ≡ false =
              str_eq_ne mine key (λ e. str_ne key mine other (sym e)) in
            (
              rw added (rw of_key (rw not_mine once)),
              elim before [
                | inl unused ↦ inl (rw added (rw of_key (rw not_mine unused)))
                | inr here ↦ inr (rw (others other) here)
              ],
            )
      ]

  pub finish-IsOnce :
      (env : Env) (mine user : String) (body : Body) (p : Placed) (db : Db)
      → start ≤ env.now
      → ((o : Order) → p ≡ placed o → o.idempotency_key ≡ mine)
      → ((o : Order) → p ≢ failed (some o))
      → db.keys mine ≡ none
      → IsOnce start key db
      → IsOnce start key (finish env mine p (claimed env mine user body db)).1
  finish-IsOnce env mine user body (placed o) db late of_key known free h =
      elim (Bool-cases env.complete_ok) [
        | inl ok ↦ rw ok (
            placed-IsOnce mine o db (complete_key (record env { complete_ok = true }) mine r made)
              {row = row (some r)} (of_key o refl) free refl (rw (str_eq_self mine) refl)
              (omega arith) (λ other. rw other refl) h)
        | inr lost ↦ rw lost (
            placed-IsOnce mine o db made {row = row none} (of_key o refl) free refl
              (rw (str_eq_self mine) refl) (omega arith) (λ other. rw other refl) h)
      ]
    where
      row : Option Replay → KeyRow
      row response = record {
        user_id = user;
        request_hash = env.hash body;
        response = response;
        expires_at = env.now + key_lifetime;
      }

      r : Replay
      r = record { code = 202; order_id = o.id }

      made : Db
      made = record (claimed env mine user body db) { orders = o ∷ db.orders }
  finish-IsOnce env mine user body invalid_order db late of_key known free h =
      release_key-IsOnce env mine user body db free h
  finish-IsOnce env mine user body total_mismatch db late of_key known free h =
      release_key-IsOnce env mine user body db free h
  finish-IsOnce env mine user body (failed none) db late of_key known free h =
      release_key-IsOnce env mine user body db free h
  finish-IsOnce env mine user body (failed (some o)) db late of_key known free h =
      absurd (known o refl)
