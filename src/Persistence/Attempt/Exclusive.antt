-- ===== src/Persistence/Attempt/Exclusive.antt =====
-- An attempt is started by one worker alone.
use partner_integration_reli.Prelude.{◌≡◌, ◌<◌, ◌≤◌, ◌⊎◌, sym, ap, ◌∙◌, some, ok, arith}
use partner_integration_reli.Domain.Types.{DeliveryExecution}
use partner_integration_reli.Store.Database.{Database}
use partner_integration_reli.Store.Commit.{Evolves}
use partner_integration_reli.Persistence.Common.{stored}
use partner_integration_reli.Persistence.Attempt.{StartAttempt, start_attempt}
use partner_integration_reli.Persistence.Attempt.Laws.{start-Started, startable_version}

not_below : (d e : DeliveryExecution) → (e ≡ d) ⊎ (d.version < e.version) → d.version ≤ e.version
not_below d e h = ground arith

-- Two starts that expect one version of one delivery exclude each other, where the first passes the
-- delivery at that version, whatever attempts they bring and whatever happened in between, as long
-- as the deliveries only moved forward.
pub start_exclusive :
    (db : Database) (s s' : db.Store) (i i' : StartAttempt) (first second : DeliveryExecution)
    → i.delivery.version ≡ i.expected_version
    → i'.key ≡ i.key
    → i'.expected_version ≡ i.expected_version
    → (start_attempt db i s).1 ≡ ok (some first)
    → Evolves (db.tables (start_attempt db i s).0) (db.tables s')
    → ¬ ((start_attempt db i' s').1 ≡ ok (some second))
start_exclusive db s s' i i' first second at_version same_key same_version g1 onward g2 =
    let one = start-Started db s i first g1 in
    let two = start-Started db s' i' second g2 in
    let (later, at_later, grown) = onward i.key (stored first) one.kept in
    let (old, at_old, free) = two.freed in
    let e : some old ≡ some later = sym at_old ∙ ap (db.tables s').deliveries same_key ∙ at_later in
    let same : old ≡ later = cc in
    omega (
      arith,
      not_below (stored first) later grown,
      one.next,
      at_version,
      same_version,
      ap (λ (d : DeliveryExecution). d.version) same,
      startable_version i'.expected_version two.token old free,
    )
