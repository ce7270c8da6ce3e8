-- ===== src/Contact/Actuality.antt =====
-- The order of contacts by how new their information is.
use kira_rust.Prelude.{
  ℕ, ◌-◌, ◌*◌, ◌/◌, ◌^◌, ◌<◌, ◌≡◌, true, false, ◌&&◌, ◌||◌, arith, ltb, ◌==◌, returns, Ordering,
  flip,
}
use kira_rust.Contact.{Contact, age, cmp_actuality, is_older_than}

-- With the same two readings of the clock for both contacts, so that each has one age, the comparison
-- the other way round gives the reversed order.
pub cmp_actuality-flip :
    (c d : Contact) (now : ℕ) (order : Ordering)
    → cmp_actuality c d now now ≡ returns order
    → cmp_actuality d c now now ≡ returns (flip order)
unfolding cmp_actuality age
cmp_actuality-flip c d now order h = ground arith

-- At one reading of the clock "older" is a strict order: asymmetric and transitive.
pub is_older_than_order :
    (c d e : Contact) (now : ℕ)
    → is_older_than c d now now ≡ returns true
    → is_older_than d e now now ≡ returns true
    → (is_older_than d c now now ≡ returns false) × (is_older_than c e now now ≡ returns true)
unfolding is_older_than cmp_actuality age
is_older_than_order c d e now h k = (ground arith, ground arith)

-- Up to half a billion years after the clock's start no age overflows, and a contact is older exactly if
-- its state sequence number is smaller, or equal while it was seen earlier by full milliseconds.
pub is_older_than_lem :
    (c d : Contact) (now : ℕ)
    → now < 2 ^ 64 * 1_000_000
    → is_older_than c d now now
      ≡ returns (
          ltb c.state_seq_nr.ssn d.state_seq_nr.ssn
          || c.state_seq_nr.ssn == d.state_seq_nr.ssn
            && ltb ((now - d.last_seen) / 1_000_000) ((now - c.last_seen) / 1_000_000))
unfolding is_older_than cmp_actuality age
is_older_than_lem c d now h = ground arith
