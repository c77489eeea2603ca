-- ===== src/Tests/Mailbox.antt =====
-- Held messages, src/server/mailbox.rs, on concrete inputs.
use rfircd.Prelude.{ℕ, ◌≡◌, refl, [], ◌∷◌, true, false, arith, ok}
use rfircd.Prelude.Assoc.{lookup}
use rfircd.Prelude.Chars.{text_beq}
use rfircd.Callsign.{callsign_beq}
use rfircd.Server.Mailbox.{StoredMessage, Mailbox, store, drop_front, expire, len, count}
use rfircd.Server.Mailbox.Bounds.{IsBounded, mailbox-IsBounded}
use rfircd.Tests.Samples.{alice, special}

abbrev note : ℕ → StoredMessage
note at = record {
  sender = special;
  text = special;
  notice = false;
  truncated = false;
  stored_at = at;
}

-- One message for one station, of at most two and three in all.
abbrev held : Mailbox
held = record {
  enabled = true;
  per_station = 2;
  total = 3;
  ttl = 100;
  boxes = (alice, note 5 ∷ []) ∷ [];
}

held-IsBounded : IsBounded held
unfolding len count lookup
held-IsBounded = record { in_all = omega arith; each = (omega arith, tt); distinct = (refl, tt) }

store_run : (store held alice (note 7)).1 ≡ ok 2
unfolding store len count lookup callsign_beq text_beq
store_run = refl

mailbox-IsBounded_example :
    IsBounded (store held alice (note 7)).0
    × (IsBounded (drop_front held alice).0 × IsBounded (expire held 50).0)
mailbox-IsBounded_example = mailbox-IsBounded held alice (note 7) 50 held-IsBounded
