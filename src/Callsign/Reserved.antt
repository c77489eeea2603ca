-- ===== src/Callsign/Reserved.antt =====
-- The nicknames that src/callsign.rs keeps for radio stations.
use rfircd.Prelude.{
  ℕ, ◌<◌, ◌≡◌, ◌≢◌, ◌⊎◌, refl, ap, ◌∙◌, inl, inr, Bool, true, false, List, [], ◌∷◌, ◌++◌, map, none,
  Text, arith, Result, ok, ◌==◌, if◌then◌else◌, length, all,
}
use rfircd.Prelude.Chars.{ascii_upper, is_ascii_alphanumeric, show_u8}
use rfircd.Irc.Casemap.{lower_char, lower}
use rfircd.Callsign.{
  Callsign, CallsignError, looks_like_amateur_call, to_string, to_nick, with_separator, from_nick,
  from_str, first_amateur, reserved_from_nick,
}
use rfircd.Callsign.Valid.{IsValid, is_base_char, with_separator_alphanumeric}

lower-append : (s t : Text) → lower (s ++ t) ≡ lower s ++ lower t
unfolding lower
lower-append [] t = refl
lower-append (c ∷ s) t = ap (λ r. lower_char c ∷ r) (lower-append s t)

lower_cons : (c : ℕ) (s : Text) → lower (c ∷ s) ≡ lower_char c ∷ lower s
unfolding lower
lower_cons c s = refl

lower_base_alphanumeric :
    (s : Text) → all is_base_char s ≡ true → all is_ascii_alphanumeric (lower s) ≡ true
unfolding lower lower_char
lower_base_alphanumeric [] h = refl
lower_base_alphanumeric (c ∷ s) h = ground (arith, lower_base_alphanumeric s)

upper-lower_base : (s : Text) → all is_base_char s ≡ true → map ascii_upper (lower s) ≡ s
unfolding lower lower_char
upper-lower_base [] h = refl
upper-lower_base (c ∷ s) h = ground (arith, upper-lower_base s)

length-lower : (s : Text) → length (lower s) ≡ length s
unfolding lower
length-lower [] = refl
length-lower (c ∷ s) = omega (arith, length-lower s)

lower-show_u8 : (n : ℕ) → n < 256 → lower (show_u8 n) ≡ show_u8 n
unfolding lower lower_char show_u8
lower-show_u8 n h = ground arith

first_amateur_second :
    (r : Result CallsignError Callsign) (c : Callsign) (rest : List (Result CallsignError Callsign))
    → looks_like_amateur_call c ≡ true
    → first_amateur (r ∷ ok c ∷ rest) ≢ none
unfolding first_amateur
first_amateur_second r c rest h = ground arith

first_amateur_fourth :
    (q r s : Result CallsignError Callsign) (c : Callsign)
    → looks_like_amateur_call c ≡ true
    → first_amateur (q ∷ r ∷ s ∷ ok c ∷ []) ≢ none
unfolding first_amateur
first_amateur_fourth q r s c h = ground arith

module _ (c : Callsign) (v : IsValid c) where
  lowered :
      (sep : ℕ)
      → is_ascii_alphanumeric sep ≡ false
      → lower_char sep ≡ sep
      → with_separator sep
          (lower (if c.ssid == 0 then c.base else c.base ++ (sep ∷ show_u8 c.ssid)))
        ≡ ok c
  lowered sep n same =
      ap (with_separator sep) (parts (c.ssid == 0))
      ∙ with_separator_alphanumeric sep (lower c.base) c.ssid n
          (lower_base_alphanumeric c.base v.chars) (omega (arith, length-lower c.base, v.nonempty))
          (omega (arith, length-lower c.base, v.short)) v.ssid
      ∙ ap (λ b. ok (record { base = b; ssid = c.ssid })) (upper-lower_base c.base v.chars)
    where
      tail : lower (sep ∷ show_u8 c.ssid) ≡ sep ∷ show_u8 c.ssid
      tail =
          lower_cons sep (show_u8 c.ssid)
          ∙ ap (λ x. x ∷ lower (show_u8 c.ssid)) same
          ∙ ap (λ t. sep ∷ t) (lower-show_u8 c.ssid (omega (arith, v.ssid)))

      parts :
          (b : Bool)
          → lower (if b then c.base else c.base ++ (sep ∷ show_u8 c.ssid))
            ≡ (if b then lower c.base else lower c.base ++ (sep ∷ show_u8 c.ssid))
      parts true = refl
      parts false = lower-append c.base (sep ∷ show_u8 c.ssid) ∙ ap (λ t. lower c.base ++ t) tail

-- A nickname that the server's case mapping cannot tell from the nickname of a station, or from
-- its callsign as printed, is reserved, if the station's callsign is an amateur call.
pub reserved_from_nick-ne-none :
    (c : Callsign) (nick : Text)
    → IsValid c
    → looks_like_amateur_call c ≡ true
    → (lower nick ≡ lower (to_nick c)) ⊎ (lower nick ≡ lower (to_string c))
    → reserved_from_nick nick ≢ none
unfolding reserved_from_nick from_nick from_str to_nick to_string
reserved_from_nick-ne-none c nick v h (inl e) =
    rw (e, lowered c v b'|' refl (unfold lower_char in refl)) (first_amateur_second _ c _ h)
reserved_from_nick-ne-none c nick v h (inr e) =
    rw (e, lowered c v b'-' refl (unfold lower_char in refl)) (first_amateur_fourth _ _ _ c h)
