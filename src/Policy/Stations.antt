-- ===== src/Policy/Stations.antt =====
-- Who may use the gateway, `station_allowed` of src/policy.rs.
use rfircd.Prelude.{◌≡◌, refl, Bool, true, false, List, [], ◌∷◌, ◌++◌, Text, arith, ==_iff, any}
use rfircd.Prelude.Chars.{text_beq_iff}
use rfircd.Callsign.{Callsign, to_string, same_station}
use rfircd.Callsign.Valid.{IsValid, from_str-to_string}
use rfircd.Policy.{matches, station_allowed}

any-append :
    (p : Text → Bool) (xs ys : List Text) (x : Text) → p x ≡ true → any p (xs ++ (x ∷ ys)) ≡ true
any-append p [] ys x h = ground (arith, h)
any-append p (y ∷ xs) ys x h = ground (arith, any-append p xs ys x h)

-- A callsign without an SSID on the list of those denied keeps out every station of that base,
-- whatever its SSID is and whatever else the lists hold.
pub station_allowed-denied :
    (before behind admitted : List Text) (c call : Callsign)
    → IsValid c
    → c.ssid ≡ 0
    → c.base ≡ call.base
    → station_allowed (before ++ (to_string c ∷ behind)) admitted call ≡ false
unfolding station_allowed matches same_station
station_allowed-denied before behind admitted c call v z same =
    let reads = from_str-to_string c v in
    let base = (text_beq_iff c.base call.base).1 same in
    let ssid = (==_iff c.ssid 0).1 z in
    let hit : matches call (to_string c) ≡ true = rw (matches, reads, ssid, base) (ground arith) in
    rw (any-append (matches call) before behind (to_string c) hit) refl
