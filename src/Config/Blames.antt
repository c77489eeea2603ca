-- ===== src/Config/Blames.antt =====
-- Refusals of the checks of src/config.rs, put together check by check.
use rfircd.Prelude.{
  ℕ, ◌+◌, ◌≡◌, refl, Bool, true, false, not, ◌&&◌, List, [], ◌∷◌, Text, ok, err, ◌>>◌, guard, any,
  length, is_empty, leb, if◌then◌else◌, arith, keep, subst,
}
use rfircd.Prelude.Chars.{trim, text_beq, text_beq_iff}
use rfircd.Irc.Casemap.{lower}
use rfircd.Irc.Message.{is_channel_name}
use rfircd.Config.{ChannelConfig, OperConfig}
use rfircd.Config.Validate.{
  ConfigError, Checked, among, check_each, check_oper_names, check_channels, no_oper_name,
  duplicate_oper, invalid_channel, same_channel,
}

-- How many entries have the name `t`, whatever its case.
abbrev pub named {ℓ} : {A : Type ℓ} → (A → Text) → Text → List A → ℕ
named name t xs = length (keep (λ x. text_beq (lower (name x)) (lower t)) xs)

-- Where a check refuses, `P` holds of what it refuses for.
pub record Blames (P : ConfigError → Bool) (m : Checked) : Type 0 where
  pub blamed : (e : ConfigError) → m ≡ err e → P e ≡ true

abbrev refused : ConfigError → Checked
refused e = err e

refused_same : {e f : ConfigError} → refused e ≡ refused f → e ≡ f
refused_same h = cc

among-length :
    (t : Text) (seen : List Text)
    → among t seen ≡ true
    → leb 1 (length (keep (λ x. text_beq x t) seen)) ≡ true
among-length t [] h = absurd (cc)
among-length t (x ∷ seen) h =
    ground (arith, among-length t seen, text_beq_iff t x, text_beq_iff x t)

module _ {P : ConfigError → Bool} where
  pub guard-Blames : (b : Bool) (e : ConfigError) → (b ≡ false → P e ≡ true) → Blames P (guard b e)
  guard-Blames true e this = record { blamed = λ f h. absurd (cc) }
  guard-Blames false e this = record {
    blamed = λ f h. subst (λ x. P x ≡ true) (refused_same h) (this refl);
  }

  pub >>-Blames : {m k : Checked} → Blames P m → Blames P k → Blames P (m >> k)
  >>-Blames {m = ok u} first second = second
  >>-Blames {m = err e} first second = record { blamed = first.blamed }

  pub ok-Blames : Blames P (ok tt)
  ok-Blames = record { blamed = λ e h. absurd (cc) }

  pub if-Blames :
      (b : Bool) (m : Checked) → (b ≡ true → Blames P m) → Blames P (if b then m else ok tt)
  if-Blames true m h = h refl
  if-Blames false m h = ok-Blames

  pub unless-Blames :
      (b : Bool) (m : Checked) → (b ≡ false → Blames P m) → Blames P (if b then ok tt else m)
  unless-Blames true m h = ok-Blames
  unless-Blames false m h = h refl

  pub check_each-Blames :
      (f : Text → Bool) (e : Text → ConfigError) (ts : List Text)
      → ((t : Text) → among t ts ≡ true → f t ≡ false → P (e t) ≡ true)
      → Blames P (check_each (λ t. guard (f t) (e t)) ts)
  unfolding check_each
  check_each-Blames f e [] this = ok-Blames
  check_each-Blames f e (t ∷ ts) this =
      >>-Blames (guard-Blames _ _ (this t (ground (arith, (text_beq_iff t t).1 refl))))
        (check_each-Blames f e ts (λ x there. this x (ground (arith, there))))

  pub check_oper_names-Blames :
      (seen : List Text) (opers : List OperConfig)
      → (any (λ (o : OperConfig). is_empty (trim o.name)) opers ≡ true → P no_oper_name ≡ true)
      → ((t : Text)
          → leb 2 (
              named (λ (o : OperConfig). o.name) t opers
              + length (keep (λ x. text_beq x (lower t)) seen))
            ≡ true
          → P (duplicate_oper t) ≡ true)
      → Blames P (check_oper_names seen opers)
  unfolding check_oper_names
  check_oper_names-Blames seen [] bare twice = ok-Blames
  check_oper_names-Blames seen (o ∷ opers) bare twice =
      >>-Blames
        (>>-Blames (guard-Blames _ _ (λ h. bare (ground (arith, h)))) (
          guard-Blames _ _ (λ h. twice o.name (
            ground (
              arith,
              among-length (lower o.name) seen,
              text_beq_iff (lower o.name) (lower o.name),
            )))))
        (check_oper_names-Blames (lower o.name ∷ seen) opers (λ h. bare (ground (arith, h)))
          (λ t h. twice t (ground (arith, h))))

  pub check_channels-Blames :
      (seen : List Text) (channels : List ChannelConfig)
      → ((t : Text)
          → (any (λ (c : ChannelConfig). text_beq c.name t) channels && not (is_channel_name t))
            ≡ true
          → P (invalid_channel t) ≡ true)
      → ((t : Text)
          → leb 2 (
              named (λ (c : ChannelConfig). c.name) t channels
              + length (keep (λ x. text_beq x (lower t)) seen))
            ≡ true
          → P (same_channel t) ≡ true)
      → Blames P (check_channels seen channels)
  unfolding check_channels
  check_channels-Blames seen [] invalid twice = ok-Blames
  check_channels-Blames seen (c ∷ channels) invalid twice =
      >>-Blames
        (>>-Blames
          (guard-Blames _ _ (λ h. invalid c.name (ground (arith, h, text_beq_iff c.name c.name))))
          (guard-Blames _ _ (λ h. twice c.name (
            ground (
              arith,
              among-length (lower c.name) seen,
              text_beq_iff (lower c.name) (lower c.name),
            )))))
        (check_channels-Blames (lower c.name ∷ seen) channels (λ t h. invalid t (ground (arith, h)))
          (λ t h. twice t (ground (arith, h))))

-- One check after the other.
infixl 5 ◌▹◌
pub ◌▹◌ : {P : ConfigError → Bool} {m k : Checked} → Blames P m → Blames P k → Blames P (m >> k)
first ▹ second = >>-Blames first second
