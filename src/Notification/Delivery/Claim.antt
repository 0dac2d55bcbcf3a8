-- ===== src/Notification/Delivery/Claim.antt =====
-- How the claim of a dedupe key ends, for the delivery that makes it
-- (services/notification-service/src/delivery.ts).
use ecomerce_microservices_o.Prelude.{
  ◌≡◌, refl, Bool, true, false, none, some, if◌then◌else◌, ◌⊎◌, inl, inr, Bool-cases,
}
use ecomerce_microservices_o.Notification.Types.{NotificationCommand, duplicate, suppressed}
use ecomerce_microservices_o.Notification.Delivery.{
  claim_dedupe_key, deliver, deliver_if, deliver_claimed, address_of, recipient_of, with_claim,
  is_claimed, Db, Env,
}

-- The ways in which the claim of a key ends: it is taken, it throws without or with the row written,
-- or it is made.
abbrev pub DeliverCases : Env → NotificationCommand → Db → Type 0
DeliverCases env cmd db =
    (deliver env cmd db ≡ (some (suppressed duplicate), db))
    ⊎ ((env.claim_ok ≡ false) × (deliver env cmd db ≡ (none, db)))
    ⊎ ((is_claimed env.now (db.dedupe cmd.dedupe_key) ≡ false)
        × (env.claim_ok ≡ false)
        × (deliver env cmd db ≡ (none, with_claim env cmd.dedupe_key db)))
    ⊎ ((is_claimed env.now (db.dedupe cmd.dedupe_key) ≡ false)
        × (env.claim_ok ≡ true)
        × (deliver env cmd db
            ≡ deliver_claimed env cmd (address_of cmd (recipient_of env cmd))
                (with_claim env cmd.dedupe_key db)))

pub deliver-cases : (env : Env) (cmd : NotificationCommand) (db : Db) → DeliverCases env cmd db
unfolding deliver claim_dedupe_key
deliver-cases env cmd db = elim (Bool-cases (is_claimed env.now (db.dedupe cmd.dedupe_key))) [
  | inl taken ↦ elim (Bool-cases env.claim_ok) [
    | inl ok ↦ inl (rw taken (rw ok refl))
    | inr lost ↦ inr (inl (lost, rw taken (rw lost (same env.claim_landed))))
  ]
  | inr free ↦ elim (Bool-cases env.claim_ok) [
    | inl ok ↦ inr (inr (inr (free, ok, rw free (rw ok refl))))
    | inr lost ↦ elim (Bool-cases env.claim_landed) [
      | inl landed ↦ inr (inr (inl (free, lost, rw free (rw lost (rw landed refl)))))
      | inr aborted ↦ inr (inl (lost, rw free (rw lost (rw aborted refl))))
    ]
  ]
]
  where
    same : (landed : Bool) → deliver_if env cmd (none, if landed then db else db) ≡ (none, db)
    same true = refl
    same false = refl

-- Where the claim is answered and the key is taken, the delivery is a duplicate.
pub deliver-duplicate :
    (env : Env) (cmd : NotificationCommand) (db : Db)
    → env.claim_ok ≡ true
    → is_claimed env.now (db.dedupe cmd.dedupe_key) ≡ true
    → deliver env cmd db ≡ (some (suppressed duplicate), db)
unfolding deliver claim_dedupe_key
deliver-duplicate env cmd db ok taken = rw taken (rw ok refl)

pub deliver-claimed :
    (env : Env) (cmd : NotificationCommand) (db : Db)
    → env.claim_ok ≡ true
    → is_claimed env.now (db.dedupe cmd.dedupe_key) ≡ false
    → deliver env cmd db
      ≡ deliver_claimed env cmd
          (address_of cmd (recipient_of env cmd))
          (with_claim env cmd.dedupe_key db)
unfolding deliver claim_dedupe_key
deliver-claimed env cmd db ok free = rw free (rw ok refl)
