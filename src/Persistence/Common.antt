-- ===== src/Persistence/Common.antt =====
-- What the operations share: reads, index entries, the settling of a transaction.
use partner_integration_reli.Prelude.{
  ℕ, ◌+◌, ◌/◌, ◌≡◌, refl, Bool, true, ◌||◌, Option, none, some, List, [], ◌∷◌, ◌++◌, map,
  if◌then◌else◌, Result, ok, err, arith, option_eq,
}
use partner_integration_reli.Domain.Types.{
  dead_lettered, failed_terminal, DeliveryExecution, LeaseToken, token_eq, Expiry, seconds,
  DomainError,
}
use partner_integration_reli.Domain.Records.{
  CanonicalEvent, DeliveryAttempt, DeliveryHistoryEntry, OutboxRecord,
}
use partner_integration_reli.Domain.Transition.{state_eq}
use partner_integration_reli.Store.Condition.{always, absent}
use partner_integration_reli.Store.Keys.{
  DeliveryKey, DeliveryIndexKey, IndexCategory, all_deliveries, terminal_failure, by_status,
  by_partner, by_destination, TenantKey, AttemptKey,
}
use partner_integration_reli.Store.Tables.{
  Tables, Write, put_delivery_index, delete_delivery_index, put_outbox, put_history,
  DeliveryIndexEntry, epoch_seconds, is_expired,
}
use partner_integration_reli.Store.Database.{Verdict, committed, cancelled, broken}
use partner_integration_reli.Store.Commit.{all_quiet}

-- What an operation throws: a domain failure, an error of the database that is no failed condition,
-- or an error of its own.
pub data Fault : Type 0 where
  domain : DomainError → Fault
  storage event_not_found routing_conflict routing_completion_conflict : Fault
  delivery_finalization_conflict malformed_url : Fault

-- `item`: what is expired is not there.
pub fresh : {A : Type 0} → (A → Expiry) → ℕ → Option A → Option A
fresh expiry now none = none
fresh expiry now (some a) = if is_expired (expiry a) now then none else some a

unfoldable pub get_delivery : Tables → DeliveryKey → ℕ → Option DeliveryExecution
unfolding fresh is_expired
get_delivery t k now = fresh (λ d. d.expires_at) now (t.deliveries k)

unfoldable pub get_event : Tables → TenantKey → ℕ → Option CanonicalEvent
unfolding fresh is_expired
get_event t k now = fresh (λ e. e.expires_at) now (t.events k)

unfoldable pub get_attempt : Tables → AttemptKey → ℕ → Option DeliveryAttempt
unfolding fresh is_expired
get_attempt t k now = fresh (λ a. a.expires_at) now (t.attempts k)

pub get-delivery_stored :
    (t : Tables) (k : DeliveryKey) (now : ℕ) {d : DeliveryExecution}
    → get_delivery t k now ≡ some d
    → t.deliveries k ≡ some d
unfolding get_delivery fresh
get-delivery_stored t k now h = ground arith

-- `{ ...delivery, expiresAt: epochSeconds(delivery.expiresAt) }`.
abbrev pub stored : DeliveryExecution → DeliveryExecution
stored d = record d { expires_at = seconds (epoch_seconds d.expires_at) }

abbrev pub stored_event : CanonicalEvent → CanonicalEvent
stored_event e = record e { expires_at = seconds (epoch_seconds e.expires_at) }

delivery_index_categories : DeliveryExecution → List IndexCategory
delivery_index_categories d =
    all_deliveries
    ∷ by_status d.state
    ∷ by_partner d.partner_id
    ∷ by_destination d.destination_id
    ∷ (if state_eq d.state dead_lettered || state_eq d.state failed_terminal
        then terminal_failure ∷ []
        else [])

delivery_index_key : DeliveryExecution → IndexCategory → DeliveryIndexKey
delivery_index_key d c = record {
  tenant = d.tenant_id;
  category = c;
  updated_at = d.updated_at;
  delivery = d.delivery_id;
}

delivery_index_item : DeliveryExecution → DeliveryIndexEntry
delivery_index_item d = record {
  delivery_id = d.delivery_id;
  event_id = d.event_id;
  correlation_id = d.correlation_id;
  destination_id = d.destination_id;
  partner_id = d.partner_id;
  state = d.state;
  blocked_reason = d.blocked_reason;
  updated_at = d.updated_at;
  expires_at = epoch_seconds d.expires_at;
}

-- The entries of `before` make way for those of `after`.
unfoldable pub reindex : DeliveryExecution → DeliveryExecution → List Write
unfolding delivery_index_categories delivery_index_key delivery_index_item
reindex before after =
    map (λ c. delete_delivery_index (delivery_index_key before c))
      (delivery_index_categories before)
    ++ map (λ c. put_delivery_index always (delivery_index_key after c) (delivery_index_item after))
        (delivery_index_categories after)

-- The entries of a delivery that is new.
unfoldable pub new_index : DeliveryExecution → List Write
unfolding delivery_index_categories delivery_index_key delivery_index_item
new_index d =
    map (λ c. put_delivery_index absent (delivery_index_key d c) (delivery_index_item d))
      (delivery_index_categories d)

pub all_quiet-append :
    (xs ys : List Write) → all_quiet xs ≡ true → all_quiet ys ≡ true → all_quiet (xs ++ ys) ≡ true
all_quiet-append [] ys h k = k
all_quiet-append (x ∷ xs) ys h k = ground (arith, all_quiet-append xs ys)

pub reindex-quiet : (d e : DeliveryExecution) → all_quiet (reindex d e) ≡ true
unfolding reindex
reindex-quiet d e = ground arith

pub new_index-quiet : (d : DeliveryExecution) → all_quiet (new_index d) ≡ true
unfolding new_index
new_index-quiet d = ground arith

-- Seven days, in seconds.
abbrev week : ℕ
week = 604_800

-- The put of an outbox record, which joins the index of the unpublished.
unfoldable pub outbox_put : OutboxRecord → Write
outbox_put o =
    put_outbox absent (record { created_at = o.created_at; outbox_id = o.outbox_id })
      (record { outbox = o; expires_at = o.created_at / 1000 + week; unpublished = true })

unfoldable pub history_put : DeliveryKey → DeliveryHistoryEntry → Write
history_put k h =
    put_history absent
      (record {
        delivery = record k { delivery = h.delivery_id };
        occurred_at = h.occurred_at;
        history_id = h.history_id;
      })
      (record h { expires_at = seconds (epoch_seconds h.expires_at) })

-- `leaseToken = :lease`; a delivery without a lease does not meet it.
abbrev pub lease_is : LeaseToken → DeliveryExecution → Bool
lease_is token d = option_eq token_eq d.lease_token (some token)

-- A transaction in a `try`: a failed condition is answered, any other error goes on.
abbrev pub settle : {S A : Type 0} → S × Verdict → A → A → S × Result Fault A
settle (s, committed) yes_value no_value = (s, ok yes_value)
settle (s, cancelled) yes_value no_value = (s, ok no_value)
settle (s, broken) yes_value no_value = (s, err storage)

pub settle-store : {S A : Type 0} (p : S × Verdict) (a b : A) → (settle p a b).0 ≡ p.0
settle-store (s, committed) a b = refl
settle-store (s, cancelled) a b = refl
settle-store (s, broken) a b = refl

-- A settled transaction that answers `a`, and not `b`, was committed.
pub settle-committed :
    {S A : Type 0} (p : S × Verdict) (a b c : A)
    → (settle p a b).1 ≡ ok c
    → ¬ (c ≡ b)
    → (p.1 ≡ committed) × (c ≡ a)
settle-committed (s, committed) a b c h n = ground arith
settle-committed (s, cancelled) a b c h n = absurd (n (cc))
settle-committed (s, broken) a b c h n = cc
