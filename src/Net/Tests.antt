-- ===== src/Net/Tests.antt =====
-- Addresses that `net.ParseIP` accepts and refuses.
use mlb_controller.Base.{◌≡◌, refl, none, some, codes, [], ◌∷◌}
use mlb_controller.Net.Parse.{parse_ip, to_4}
use mlb_controller.Net.Print.{ip_string}

v4_text :
    parse_ip (codes "10.0.200.7")
    ≡ some (0 ∷ 0 ∷ 0 ∷ 0 ∷ 0 ∷ 0 ∷ 0 ∷ 0 ∷ 0 ∷ 0 ∷ 255 ∷ 255 ∷ 10 ∷ 0 ∷ 200 ∷ 7 ∷ [])
unfolding parse_ip
v4_text = refl

v6_text :
    parse_ip (codes "2001:db8::1")
    ≡ some (0x20 ∷ 1 ∷ 0xd ∷ 0xb8 ∷ 0 ∷ 0 ∷ 0 ∷ 0 ∷ 0 ∷ 0 ∷ 0 ∷ 0 ∷ 0 ∷ 0 ∷ 0 ∷ 1 ∷ [])
unfolding parse_ip
v6_text = refl

leading_zero : parse_ip (codes "10.0.0.07") ≡ none
unfolding parse_ip
leading_zero = refl

nine_groups : parse_ip (codes "1:2:3:4:5:6:7:8:9") ≡ none
unfolding parse_ip
nine_groups = refl

v6_print :
    ip_string (0x20 ∷ 1 ∷ 0xd ∷ 0xb8 ∷ 0 ∷ 0 ∷ 0 ∷ 0 ∷ 0 ∷ 0 ∷ 0 ∷ 0 ∷ 0 ∷ 0 ∷ 0 ∷ 1 ∷ [])
    ≡ codes "2001:db8::1"
unfolding ip_string to_4
v6_print = refl

v4_print : ip_string (10 ∷ 0 ∷ 200 ∷ 7 ∷ []) ≡ codes "10.0.200.7"
unfolding ip_string to_4
v4_print = refl
