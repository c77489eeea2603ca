-- ===== src/Server/Setup.antt =====
-- The channels that `Server::with_audit` of src/server/mod.rs makes from the configuration.
pub mod Channels
use rfircd.Prelude.{
  ℕ, ◌≡◌, refl, ◌∙◌, true, false, not, List, [], ◌∷◌, Option, none, some, Text, ok, guard, All, any,
  inl, inr, Bool-cases, is_empty, arith, if◌then◌else◌,
}
use rfircd.Prelude.Assoc.{
  lookup, is_some, insert, modify, lookup-insert, lookup-insert_self, lookup-modify_self,
  lookup-modify_other,
}
use rfircd.Prelude.Chars.{text_eq, text_beq, text_beq_iff}
use rfircd.Prelude.Float.{Float}
use rfircd.Irc.Casemap.{lower}
use rfircd.Irc.Message.{is_channel_name}
use rfircd.Config.{Config, ChannelConfig}
use rfircd.Config.Validate.{Outside, check_channels, among, validate, invalid_channel, same_channel}
use rfircd.Config.Sound.{validate-check_channels, >>-ok, >>-guard}
use rfircd.Server.State.{Channel, State, TextSet, empty, new_channel, ensure_channel}

-- `collect` into a `HashSet`.
unfoldable pub lower_set : List Text → TextSet
unfolding lower insert
lower_set [] = []
lower_set (t ∷ ts) = insert (lower t) tt (lower_set ts)

-- What the configuration says of a channel, written into it.
abbrev pub with_topic : Text → ℕ → Text → Channel → Channel
with_topic server now topic c =
    if is_empty topic
    then c
    else record c { topic = some topic; topic_setter = server; topic_time = now }

unfoldable pub configured : Text → ℕ → ChannelConfig → Channel → Channel
unfolding lower_set
configured server now ch c =
    record (with_topic server now ch.topic (record c { configured = true })) {
      operators = lower_set ch.operators;
    }

unfoldable pub configure : Text → ℕ → State → ChannelConfig → State
unfolding ensure_channel configured modify lower
configure server now s ch =
    let made = ensure_channel s ch.name ch.rf in
    record made { channels = modify (lower ch.name) (configured server now ch) made.channels }

unfoldable pub setup : Text → ℕ → State → List ChannelConfig → State
unfolding configure
setup server now s [] = s
setup server now s (ch ∷ channels) = setup server now (configure server now s ch) channels
