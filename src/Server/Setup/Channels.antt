-- ===== src/Server/Setup/Channels.antt =====
-- The channels of the configuration in the state that the server starts with, src/server/mod.rs.
use rfircd.Prelude.{
  ℕ, ◌≡◌, refl, ◌∙◌, true, false, not, List, [], ◌∷◌, Option, none, some, Text, ok, guard, All, any,
  inl, inr, Bool-cases, is_empty, arith, if◌then◌else◌,
}
use rfircd.Prelude.Assoc.{
  lookup, is_some, lookup-insert, lookup-insert_self, lookup-modify_self, lookup-modify_other,
}
use rfircd.Prelude.Chars.{text_eq, text_beq, text_beq_iff}
use rfircd.Prelude.Float.{Float}
use rfircd.Irc.Casemap.{lower}
use rfircd.Irc.Message.{is_channel_name}
use rfircd.Config.{Config, ChannelConfig}
use rfircd.Config.Validate.{Outside, check_channels, among, validate, invalid_channel, same_channel}
use rfircd.Config.Sound.{validate-check_channels, >>-ok, >>-guard}
use rfircd.Server.State.{Channel, State, empty, new_channel, ensure_channel}
use rfircd.Server.Setup.{lower_set, configured, configure, setup}

-- No two entries are one channel.
abbrev Apart : List ChannelConfig → Type 0
Apart [] = Unit
Apart (c ∷ channels) =
    All (λ (d : ChannelConfig). text_beq (lower c.name) (lower d.name) ≡ false) channels
    × Apart channels

abbrev Unseen : List Text → List ChannelConfig → Type 0
Unseen seen channels = All (λ (c : ChannelConfig). among (lower c.name) seen ≡ false) channels

unseen :
    (t : Text) (seen : List Text) (channels : List ChannelConfig)
    → Unseen (t ∷ seen) channels
    → All (λ (d : ChannelConfig). text_beq t (lower d.name) ≡ false) channels × Unseen seen channels
unseen t seen [] h = (tt, tt)
unseen t seen (c ∷ channels) h =
    let rest = unseen t seen channels h.1 in
    (
      (ground (arith, h.0, text_beq_iff t (lower c.name), text_beq_iff (lower c.name) t), rest.0),
      (ground (arith, h.0), rest.1),
    )

check_channels-Apart :
    (seen : List Text) (channels : List ChannelConfig)
    → check_channels seen channels ≡ ok tt
    → Unseen seen channels × Apart channels
unfolding check_channels
check_channels-Apart seen [] h = (tt, tt)
check_channels-Apart seen (c ∷ channels) h =
    let both = >>-ok _ _ h in
    let fresh =
      (>>-guard (guard (is_channel_name c.name) (invalid_channel c.name))
        (not (among (lower c.name) seen)) (same_channel c.name) both.0).1 in
    let rest = check_channels-Apart (lower c.name ∷ seen) channels both.1 in
    let (apart, unseen_rest) = unseen (lower c.name) seen channels rest.0 in
    ((ground (arith, fresh), unseen_rest), (apart, rest.1))

module _ (server : Text) (now : ℕ) where
  configure_other :
      (s : State) (ch : ChannelConfig) (k : Text)
      → text_beq (lower ch.name) k ≡ false
      → lookup k (configure server now s ch).channels ≡ lookup k s.channels
  unfolding configure ensure_channel
  configure_other s ch k other =
      lookup-modify_other (lower ch.name) k (configured server now ch)
        (ensure_channel s ch.name ch.rf).channels other
      ∙ ensured (lookup (lower ch.name) s.channels) refl
    where
      ensured :
          (o : Option Channel)
          → lookup (lower ch.name) s.channels ≡ o
          → lookup k (ensure_channel s ch.name ch.rf).channels ≡ lookup k s.channels
      ensured none q =
          rw (ensure_channel, q)
            (lookup-insert (lower ch.name) k (new_channel ch.name ch.rf) s.channels
              ∙ rw (other) refl)
      ensured (some c) q = rw (ensure_channel, q) refl

  configure_self :
      (s : State) (ch : ChannelConfig)
      → lookup (lower ch.name) s.channels ≡ none
      → lookup (lower ch.name) (configure server now s ch).channels
        ≡ some (configured server now ch (new_channel ch.name ch.rf))
  unfolding configure ensure_channel
  configure_self s ch absent =
      lookup-modify_self (lower ch.name) (configured server now ch)
        (ensure_channel s ch.name ch.rf).channels {v = new_channel ch.name ch.rf}
        (rw (ensure_channel, absent)
          (lookup-insert_self (lower ch.name) (new_channel ch.name ch.rf) s.channels))

  setup_other :
      (s : State) (channels : List ChannelConfig) (k : Text)
      → All (λ (d : ChannelConfig). text_beq k (lower d.name) ≡ false) channels
      → lookup k (setup server now s channels).channels ≡ lookup k s.channels
  unfolding setup
  setup_other s [] k others = refl
  setup_other s (c ∷ channels) k others =
      setup_other (configure server now s c) channels k others.1
      ∙ configure_other s c k
          (ground (arith, others.0, text_beq_iff k (lower c.name), text_beq_iff (lower c.name) k))

  absent_configure :
      (s : State) (c : ChannelConfig) (channels : List ChannelConfig)
      → All (λ (d : ChannelConfig). text_beq (lower c.name) (lower d.name) ≡ false) channels
      → All (λ (d : ChannelConfig). lookup (lower d.name) s.channels ≡ none) channels
      → All
          (λ (d : ChannelConfig). lookup (lower d.name) (configure server now s c).channels ≡ none)
          channels
  absent_configure s c [] apart absent = tt
  absent_configure s c (d ∷ channels) apart absent = (
    configure_other s c (lower d.name) apart.0 ∙ absent.0,
    absent_configure s c channels apart.1 absent.1,
  )

  setup-Apart :
      (s : State) (channels : List ChannelConfig)
      → Apart channels
      → All (λ (d : ChannelConfig). lookup (lower d.name) s.channels ≡ none) channels
      → All
          (λ (d : ChannelConfig).
            lookup (lower d.name) (setup server now s channels).channels
            ≡ some (configured server now d (new_channel d.name d.rf)))
          channels
  unfolding setup
  setup-Apart s [] apart absent = tt
  setup-Apart s (c ∷ channels) apart absent = (
    setup_other (configure server now s c) channels (lower c.name) apart.0
        ∙ configure_self s c absent.0,
    setup-Apart (configure server now s c) channels apart.1
        (absent_configure s c channels apart.0 absent.1),
  )

none_in_empty :
    (channels : List ChannelConfig)
    → All (λ (d : ChannelConfig). lookup (lower d.name) empty.channels ≡ none) channels
unfolding lookup
none_in_empty [] = tt
none_in_empty (c ∷ channels) = (refl, none_in_empty channels)

-- What the configuration says of a channel, held against the channel itself.
pub record IsSetUp (server : Text) (now : ℕ) (d : ChannelConfig) (c : Channel) : Type 0 where
  pub named : c.name ≡ d.name
  pub stays : c.configured ≡ true
  pub bridged : c.rf ≡ d.rf
  pub moderates : c.moderated ≡ d.rf
  pub nobody : c.members ≡ []
  pub no_key : c.key ≡ none
  pub no_limit : c.limit ≡ none
  pub topic : c.topic ≡ (if is_empty d.topic then none else some d.topic)
  pub setter : c.topic_setter ≡ (if is_empty d.topic then [] else server)
  pub time : c.topic_time ≡ (if is_empty d.topic then 0 else now)
  pub operators :
      (t : Text) → is_some (lookup t c.operators) ≡ any (λ o. text_beq (lower o) t) d.operators

lookup-lower_set :
    (t : Text) (ts : List Text)
    → is_some (lookup t (lower_set ts)) ≡ any (λ o. text_beq (lower o) t) ts
unfolding lower_set lookup
lookup-lower_set t [] = refl
lookup-lower_set t (o ∷ ts) =
    ground (arith, lookup-lower_set t ts, lookup-insert (lower o) t tt (lower_set ts))

configured-IsSetUp :
    (server : Text) (now : ℕ) (d : ChannelConfig)
    → IsSetUp server now d (configured server now d (new_channel d.name d.rf))
unfolding configured new_channel
configured-IsSetUp server now d = elim (Bool-cases (is_empty d.topic)) [
  | inl empty_topic ↦ record {
    named = rw (empty_topic) refl;
    stays = rw (empty_topic) refl;
    bridged = rw (empty_topic) refl;
    moderates = rw (empty_topic) refl;
    nobody = rw (empty_topic) refl;
    no_key = rw (empty_topic) refl;
    no_limit = rw (empty_topic) refl;
    topic = rw (empty_topic) refl;
    setter = rw (empty_topic) refl;
    time = rw (empty_topic) refl;
    operators = λ t. lookup-lower_set t d.operators;
  }
  | inr set ↦ record {
    named = rw (set) refl;
    stays = rw (set) refl;
    bridged = rw (set) refl;
    moderates = rw (set) refl;
    nobody = rw (set) refl;
    no_key = rw (set) refl;
    no_limit = rw (set) refl;
    topic = rw (set) refl;
    setter = rw (set) refl;
    time = rw (set) refl;
    operators = λ t. lookup-lower_set t d.operators;
  }
]

configured_each :
    (server : Text) (now : ℕ) (m : List (Text × Channel)) (channels : List ChannelConfig)
    → All
        (λ (d : ChannelConfig).
          lookup (lower d.name) m ≡ some (configured server now d (new_channel d.name d.rf)))
        channels
    → All
        (λ (d : ChannelConfig).
          (c : Channel) × (lookup (lower d.name) m ≡ some c) × IsSetUp server now d c)
        channels
configured_each server now m [] h = tt
configured_each server now m (d ∷ channels) h = (
  (configured server now d (new_channel d.name d.rf), h.0, configured-IsSetUp server now d),
  configured_each server now m channels h.1,
)

-- With a configuration that is accepted, every channel of it stands in the state that the server
-- starts with, under its own name: it stays when it is empty, it is bridged and moderated as the
-- configuration says, with nobody in it and no key or limit; it has the topic of the configuration, set
-- by the server at the start, or none if that is empty; and its operators are the names that the
-- configuration lists, in lower case.
pub setup-IsSetUp :
    (fl : Float) (out : Outside) (cfg : Config) (now : ℕ)
    → validate fl out cfg ≡ ok tt
    → All
        (λ (d : ChannelConfig).
          (c : Channel) × (lookup
              (lower d.name)
              (setup cfg.server.name now empty cfg.channels).channels
            ≡ some c)
          × IsSetUp cfg.server.name now d c)
        cfg.channels
setup-IsSetUp fl out cfg now h =
    configured_each cfg.server.name now (setup cfg.server.name now empty cfg.channels).channels
      cfg.channels
      (setup-Apart cfg.server.name now empty cfg.channels
        (check_channels-Apart [] cfg.channels (validate-check_channels fl out cfg h)).1
        (none_in_empty cfg.channels))
