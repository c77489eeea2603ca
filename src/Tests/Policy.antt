-- ===== src/Tests/Policy.antt =====
-- The policy on what is transmitted, src/policy.rs, on concrete inputs.
use rfircd.Prelude.{◌≡◌, ◌≤◌, refl, [], ◌∷◌, true, Text, arith, length, max, all}
use rfircd.Prelude.Chars.{trim, trim_start, trim_end, split_by}
use rfircd.Tests.Samples.{alice, thousandths}
use rfircd.Callsign.{Callsign}
use rfircd.Callsign.Valid.{IsValid}
use rfircd.Policy.{
  clean, sanitize, ScreenConfig, screen_outbound, looks_like_ciphertext, allow, truncated,
  RateLimiter, new, check, expire, station_allowed,
}
use rfircd.Policy.Screen.{is_plain, radiated, screen_outbound-fits}

-- "^C04r^C t" becomes "r t".
colours : sanitize (3 ∷ b'0' ∷ b'4' ∷ b'r' ∷ 3 ∷ b' ' ∷ b't' ∷ []) ≡ b'r' ∷ b' ' ∷ b't' ∷ []
unfolding sanitize clean trim trim_start trim_end
colours = refl

-- The comma behind the octet that ends a colour is taken for a part of it.
comma_lost : sanitize (b'r' ∷ 3 ∷ b',' ∷ b' ' ∷ b't' ∷ []) ≡ b'r' ∷ b' ' ∷ b't' ∷ []
unfolding sanitize clean trim trim_start trim_end
comma_lost = refl

abbrev cfg : ScreenConfig
cfg = record { max_rf_text_len = 3; block_apparent_ciphertext = true }

abbrev text : Text
text = b'h' ∷ b'e' ∷ 0x0A ∷ b'l' ∷ b'o' ∷ []

screened : screen_outbound thousandths cfg text ≡ truncated (b'h' ∷ b'e' ∷ 0x2026 ∷ [])
unfolding screen_outbound sanitize clean trim trim_start trim_end looks_like_ciphertext split_by
    rfircd.Policy.is_suspect
screened = refl

screen_outbound-fits_example :
    (all is_plain (radiated (screen_outbound thousandths cfg text)) ≡ true)
    × (length (radiated (screen_outbound thousandths cfg text)) ≤ max cfg.max_rf_text_len 1)
screen_outbound-fits_example = screen_outbound-fits thousandths cfg text

abbrev limiter : RateLimiter thousandths
limiter = new 6 2

abbrev base_only : Callsign
base_only = record alice { ssid = 0 }

base_only-IsValid : IsValid base_only
base_only-IsValid = record {
  chars = refl;
  nonempty = omega arith;
  short = omega arith;
  ssid = omega arith;
}
