-- ===== src/Cart/Redis/Versions.antt =====
-- Versions under concurrent clients: the compare-and-swap of services/cart-service/src/cart.ts.
use ecomerce_microservices_o.Prelude.{
  ℕ, zero, suc, ◌+◌, ◌<◌, ◌≡◌, refl, ◌≢◌, ◌⊎◌, inl, inr, true, false, String, String-cases, List,
  [], ◌∷◌, ◌++◌, Option, none, some, arith, ◌==◌, replicate, Bool-cases, ap, sym,
}
use ecomerce_microservices_o.Prelude.Int.{pos, negsuc}
use ecomerce_microservices_o.Prelude.Store.{update_self, update_ne}
use ecomerce_microservices_o.Cart.Types.{StoredCart}
use ecomerce_microservices_o.Cart.Redis.{
  Entry, Redis, ok, err, redis_failed, run_script, put_entry, cas_script, Reply, ran, no_script,
  refused, lost, set_sha, cas, set_index, del_cart,
}

-- What another client of Redis may do, as long as the cart `k` neither expires nor is deleted.
pub data Step (k : String) : Redis → Redis → Type 0 where
  swap :
      (r : Redis) (j : String) (v : ℕ) (cart : StoredCart) (ttl : ℕ)
      → Step k r (cas_script j v cart ttl r).1
  index : (r : Redis) (u j : String) → Step k r (set_index u j r).1
  delete : (r : Redis) (j : String) → j ≢ k → Step k r (del_cart j r).1

pub data Reach (k : String) (r : Redis) : Redis → Type 0 where
  here : Reach k r r
  next : {s t : Redis} → Reach k r s → Step k s t → Reach k r t

-- A cart that is still what it was, or has a later version.
abbrev pub Later : Entry → Option Entry → Type 0
Later e none = ⊥
Later e (some e') = (e' ≡ e) ⊎ (e.version < e'.version)

run_script-Later :
    (e : Entry) (o : Option Entry) (v : ℕ) (cart : StoredCart) (ttl : ℕ)
    → Later e o
    → Later e (run_script o v cart ttl).1
run_script-Later e none v cart ttl h = absurd h
run_script-Later e (some e') v cart ttl h = elim (Bool-cases (e'.version == v)) [
  | inl same ↦ rw same (inr (later h))
  | inr other ↦ rw other h
]
  where
    later : (e' ≡ e) ⊎ (e.version < e'.version) → e.version < e'.version + 1
    later (inl p) = omega (arith, ap (λ (x : Entry). x.version) p)
    later (inr p) = omega arith

Step-Later :
    {k : String} {r s : Redis} (e : Entry) → Step k r s → Later e (r.carts k) → Later e (s.carts k)
unfolding cas_script set_index del_cart
Step-Later {k} e (swap r j v cart ttl) h = elim (String-cases k j) [
  | inl same ↦
      rw same
        (rw (update_self r.carts j _) (run_script-Later e (r.carts j) v cart ttl (rw same at h)))
  | inr other ↦ rw (update_ne r.carts k j _ other) h
]
Step-Later e (index r u j) h = h
Step-Later {k} e (delete r j ne) h = rw (update_ne r.carts k j none (λ p. ne (sym p))) h

Reach-Later :
    {k : String} {r s : Redis} (e : Entry) → Reach k r s → Later e (r.carts k) → Later e (s.carts k)
Reach-Later e here h = h
Reach-Later e (next path step) h = Step-Later e step (Reach-Later e path h)

-- However other clients swap carts, write indexes and delete other carts, the entry of a cart stays
-- what it was or its version grows.
pub Reach-entry :
    {k : String} {r s : Redis} {e : Entry} → Reach k r s → r.carts k ≡ some e → Later e (s.carts k)
Reach-entry {e = e} path h = Reach-Later e path (rw h (inl refl))

Later-cases :
    (e : Entry) (o : Option Entry)
    → Later e o
    → (o ≡ some e) ⊎ ((e' : Entry) × (o ≡ some e') × (e.version < e'.version))
Later-cases e none h = absurd h
Later-cases e (some e') (inl p) = inl (ap some p)
Later-cases e (some e') (inr p) = inr (e', refl, p)

-- The entry that a request writes over version `v`.
abbrev pub next_entry : StoredCart → ℕ → ℕ → Entry
next_entry cart v ttl = record { cart = cart; version = v + 1; ttl = ttl }

pub cas_script-Later :
    {k : String} (s : Redis) (e : Entry) (cart : StoredCart) (ttl : ℕ)
    → Later e (s.carts k)
    → ((s.carts k ≡ some e)
        × (cas_script k e.version cart ttl s
            ≡ (ok (pos (e.version + 1)), put_entry k (some (next_entry cart e.version ttl)) s)))
      ⊎ ((e' : Entry) × (s.carts k ≡ some e')
          × (e.version < e'.version)
          × (cas_script k e.version cart ttl s ≡ (ok (negsuc 0), put_entry k (some e') s)))
unfolding cas_script
cas_script-Later {k} s e cart ttl h = elim (Later-cases e (s.carts k) h) [
  | inl same ↦ inl (same, rw same (rw (test_true e.version)))
  | inr (e', at, grew) ↦ inr (e', at, grew, rw at (rw (test_false e'.version e.version grew)))
]
  where
    test_true : (n : ℕ) → (n == n) ≡ true
    test_true n = ground arith

    test_false : (n m : ℕ) → m < n → (n == m) ≡ false
    test_false n m h = ground arith

-- With the retries: the script is run once, or the call throws.
pub cas_cases :
    (rs : List Reply) (k : String) (v : ℕ) (cart : StoredCart) (ttl : ℕ) (r : Redis)
    → (cas rs k v cart ttl r ≡ cas_script k v cart ttl (set_sha true r))
      ⊎ ((cas rs k v cart ttl r).0 ≡ err redis_failed)
unfolding cas
cas_cases [] k v cart ttl r = inl refl
cas_cases (ran ∷ rs) k v cart ttl r = inl refl
cas_cases (no_script ∷ rs) k v cart ttl r = cas_cases rs k v cart ttl (set_sha false r)
cas_cases (refused ∷ rs) k v cart ttl r = inr refl
cas_cases (lost ∷ rs) k v cart ttl r = inr refl

-- Any number of NOSCRIPT answers in a row, before one to a script that ran, is retried, and the
-- outcome is that of one run of the script.
pub cas-replicate :
    (n : ℕ) (rs : List Reply) (k : String) (v : ℕ) (cart : StoredCart) (ttl : ℕ) (r : Redis)
    → cas (replicate n no_script ++ ran ∷ rs) k v cart ttl r
      ≡ cas_script k v cart ttl (set_sha true r)
unfolding cas
cas-replicate zero rs k v cart ttl r = refl
cas-replicate (suc n) rs k v cart ttl r = cas-replicate n rs k v cart ttl (set_sha false r)
