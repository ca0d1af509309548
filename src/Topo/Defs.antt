-- ===== src/Topo/Defs.antt =====
-- srv6_mrc/topo.py: `FlowKey`, FNV-1a and the Fisher-Yates choice of spines. An address is the list
-- of its ASCII codes, which Python compares and encodes code by code.
use Prim.Native.Nat.{bit_xor}
use srv6_mrc_emulator.Common.{
  ℕ, zero, suc, ◌+◌, ◌-◌, ◌*◌, ◌/◌, ◌%◌, ◌^◌, Bool, true, false, ◌&&◌, List, [], ◌∷◌, ◌++◌, foldl,
  ltb, leb, ◌==◌, if◌then◌else◌, get_or, remove_at, range, min, max, value_error, Result, ok, guard,
  ◌>>◌,
}

-- What the topology says of a fabric: `NUM_PLANES` and `NUM_SPINES`, or the fields of a `Topology`.
pub record Shape : Type 0 where
  pub num_planes : ℕ
  pub num_spines : ℕ

abbrev pub Text : Type 0
Text = List ℕ

pub record FlowKey : Type 0 where
  pub src_addr : Text
  pub dst_addr : Text
  pub src_port : ℕ
  pub dst_port : ℕ

-- x & 0xFFFFFFFFFFFFFFFF
abbrev pub wrap64 : ℕ → ℕ
wrap64 x = x % 2 ^ 64

unfoldable pub fnv1a : Text → ℕ
fnv1a seed = foldl (λ h b. wrap64 (bit_xor h b * 0x100000001b3)) 0xcbf29ce484222325 seed

-- Decimal digits; twenty are enough for 64 bits.
unfoldable pub decimal_from : ℕ → ℕ → Text → Text
decimal_from zero n acc = acc
decimal_from (suc fuel) n acc =
    let more = decimal_from fuel (n / 10) ((48 + n % 10) ∷ acc) in
    if ltb n 10 then (48 + n) ∷ acc else more

abbrev pub decimal : ℕ → Text
decimal n = decimal_from 20 n []

-- '|'
abbrev pub bar : ℕ
bar = 124

unfoldable pub hash5 : FlowKey → ℕ
hash5 f = fnv1a (
    f.src_addr
    ++ bar ∷ f.dst_addr
    ++ bar ∷ decimal f.src_port
    ++ bar ∷ decimal f.dst_port
    ++ bar ∷ 49 ∷ 55 ∷ [])

abbrev pub splitmix_gamma : ℕ
splitmix_gamma = 0x9E3779B97F4A7C15

-- The number that a step draws from the seed's hash.
unfoldable pub draw : ℕ → ℕ → ℕ
draw base step =
    let x0 = wrap64 (base + step * splitmix_gamma) in
    let x1 = wrap64 (bit_xor x0 (x0 / 2 ^ 30) * 0xbf58476d1ce4e5b9) in
    let x2 = wrap64 (bit_xor x1 (x1 / 2 ^ 27) * 0x94d049bb133111eb) in
    wrap64 (bit_xor x2 (x2 / 2 ^ 31))

-- The loop over the steps: `n` picks from `step` on.
unfoldable pub pick_spines : ℕ → ℕ → ℕ → ℕ → List ℕ → List ℕ
pick_spines num_spines base step zero pool = []
pick_spines num_spines base step (suc n) pool =
    let j = draw base step % (num_spines - step) in
    get_or pool j 0 ∷ pick_spines num_spines base (suc step) n (remove_at j pool)

unfoldable pub select_spines_from_seed : ℕ → Text → ℕ → List ℕ
select_spines_from_seed num_spines seed n =
    pick_spines num_spines (fnv1a seed) 0 n (range num_spines)

-- src_addr <= dst_addr
unfoldable pub text_le : Text → Text → Bool
text_le [] b = true
text_le (x ∷ a) [] = false
text_le (x ∷ a) (y ∷ b) =
    let rest = text_le a b in if ltb x y then true else if x == y then rest else false

abbrev pub pair_seed : Text → Text → Text
pair_seed lo hi = lo ++ bar ∷ hi

unfoldable pub select_spines_for_addrs : ℕ → Text → Text → ℕ → Result (List ℕ)
select_spines_for_addrs num_spines src_addr dst_addr n = do
  guard (leb 1 n && leb n num_spines) value_error
  let seed =
      if text_le src_addr dst_addr then pair_seed src_addr dst_addr else pair_seed dst_addr src_addr
  ok (select_spines_from_seed num_spines seed n)

unfoldable pub select_spines : ℕ → ℕ → ℕ → ℕ → Result (List ℕ)
select_spines num_spines src_id dst_id n = do
  guard (leb 1 n && leb n num_spines) value_error
  ok (
      select_spines_from_seed num_spines
        (pair_seed (decimal (min src_id dst_id)) (decimal (max src_id dst_id))) n)
