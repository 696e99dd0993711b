-- ===== src/Tests/Util.antt =====
-- `ApplyIPReplacement` on small networks.
use mlb_controller.Base.{ℕ, ◌≡◌, refl, List, [], ◌∷◌, codes, pos, arith, length, str_eq}
use mlb_controller.Net.Network.{cidr_mask}
use mlb_controller.Util.IpReplacement.{replace_bytes, replace_in_net}
use mlb_controller.Util.IpReplacement.Mixing.{mix, replace_bytes-eq-mix}

replaced :
    replace_in_net (codes "10.0.0.7") (codes "10.0.0.0") (codes "192.168.1.0") (pos 24)
    ≡ codes "192.168.1.7"
unfolding replace_in_net mlb_controller.Net.Parse.parse_ip mlb_controller.Net.Parse.to_4
    mlb_controller.Net.Print.ip_string cidr_mask
replaced = refl

abbrev ip : List ℕ
ip = 10 ∷ 0 ∷ 0 ∷ 7 ∷ []

abbrev target : List ℕ
target = 192 ∷ 168 ∷ 1 ∷ 0 ∷ []

replace_bytes-eq-mix_example : replace_bytes ip target (cidr_mask 20 (length ip)) ≡ mix 20 target ip
replace_bytes-eq-mix_example =
    replace_bytes-eq-mix 20 ip target (omega arith, (omega arith, (omega arith, (omega arith, tt))))
      (omega arith, (omega arith, (omega arith, (omega arith, tt)))) refl
