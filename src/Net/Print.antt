-- ===== src/Net/Print.antt =====
-- `IP.String`: dotted decimals of four bytes, groups with the longest run of zeros as `::` of sixteen.
use mlb_controller.Base.{
  ℕ, zero, suc, ◌+◌, ◌*◌, ◌/◌, ◌%◌, ◌&&◌, List, [], ◌∷◌, ◌++◌, none, some, Str, ◌==◌, nat_eq, ltb,
  if◌then◌else◌, pos,
}
use mlb_controller.Base.Decimal.{itoa}
use mlb_controller.Net.Parse.{to_4}

join : ℕ → List Str → Str
join sep [] = []
join sep (s ∷ []) = s
join sep (s ∷ t ∷ ss) = s ++ (sep ∷ join sep (t ∷ ss))

dotted : List ℕ → List Str
unfolding itoa
dotted [] = []
dotted (b ∷ bs) = itoa (pos b) ∷ dotted bs

hex_digit : ℕ → ℕ
hex_digit d = if ltb d 10 then 48 + d else 87 + d

-- appendHex: four digits at most, without leading zeros.
hex_group : ℕ → Str
unfolding hex_digit
hex_group x =
    if ltb x 16
    then hex_digit x ∷ []
    else if ltb x 256
    then hex_digit (x / 16) ∷ hex_digit (x % 16) ∷ []
    else if ltb x 4096
    then hex_digit (x / 256) ∷ hex_digit (x / 16 % 16) ∷ hex_digit (x % 16) ∷ []
    else hex_digit (x / 4096)
      ∷ hex_digit (x / 256 % 16)
      ∷ hex_digit (x / 16 % 16)
      ∷ hex_digit (x % 16)
      ∷ []

groups : List ℕ → List ℕ
groups [] = []
groups (a ∷ []) = a ∷ []
groups (a ∷ b ∷ bs) = (a * 256 + b) ∷ groups bs

zero_run : List ℕ → ℕ
zero_run [] = 0
zero_run (g ∷ gs) = let n = zero_run gs in if g == 0 then suc n else 0

-- The first of the longest runs of at least two zeros: where it starts, and how long it is.
longest_run : ℕ → List ℕ → ℕ × ℕ → ℕ × ℕ
unfolding zero_run
longest_run i [] best = best
longest_run i (g ∷ gs) (start, len) =
    let l = zero_run (g ∷ gs) in
    longest_run (suc i) gs (if ltb 1 l && ltb len l then (i, l) else (start, len))

hex_groups : List ℕ → List Str
unfolding hex_group
hex_groups [] = []
hex_groups (g ∷ gs) = hex_group g ∷ hex_groups gs

take : ℕ → List Str → List Str
take zero ss = []
take (suc n) [] = []
take (suc n) (s ∷ ss) = s ∷ take n ss

drop : ℕ → List Str → List Str
drop zero ss = ss
drop (suc n) [] = []
drop (suc n) (s ∷ ss) = drop n ss

with_run : List Str → ℕ × ℕ → Str
unfolding join take drop
with_run gs (start, zero) = join b':' gs
with_run gs (start, suc n) =
    join b':' (take start gs) ++ (b':' ∷ b':' ∷ join b':' (drop (start + suc n) gs))

unfoldable pub ip_string : List ℕ → Str
unfolding join dotted hex_groups groups longest_run with_run
ip_string b = elim (to_4 b) [
  | some four ↦ join b'.' (dotted four)
  | none ↦ let gs = groups b in with_run (hex_groups gs) (longest_run 0 gs (0, 0))
]
