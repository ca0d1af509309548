-- ===== src/Trim/Defs.antt =====
-- srv6_mrc/trim.py. Python's random.Random is a parameter: a generator's state, and a draw from it
-- that gives a fraction and the next state.
use srv6_mrc_emulator.Common.{
  ℕ, ◌+◌, Bool, true, false, not, ◌||◌, List, [], ◌∷◌, ◌++◌, Option, none, some, ltb, leb, ◌==◌,
  if◌then◌else◌, length, drop, same_cell, value_error, Result, ok, raise, guard, ◌>>◌,
}
use native.Mathlib.Decide.{ℕ_discrete}
use srv6_mrc_emulator.Common.Dict.{find, put}
use srv6_mrc_emulator.EvState.Defs.{Ratio, ratio_lt}
use srv6_mrc_emulator.Wire.Defs.{Bytes, Nack, decode_nack}

-- `TRIM_MODES`; another mode is refused.
pub data Mode : Type 0 where
  trim_mode drop_mode other_mode : Mode

pub record TrimSpec : Type 0 where
  pub rate : Ratio
  pub mode : Mode
  pub planes : List ℕ
  pub evs : List (ℕ × ℕ)
  pub seed : ℕ
  pub max_retransmits : ℕ

abbrev pub is_known : Mode → Bool
is_known other_mode = false
is_known _ = true

unfoldable pub make_trim_spec : TrimSpec → Result TrimSpec
make_trim_spec spec = do
  guard (leb spec.rate.num spec.rate.den) value_error
  guard (is_known spec.mode) value_error
  ok spec

abbrev pub has_plane : ℕ → List ℕ → Bool
has_plane plane [] = false
has_plane plane (p ∷ ps) = (p == plane) || has_plane plane ps

abbrev pub has_ev : ℕ → ℕ → List (ℕ × ℕ) → Bool
has_ev plane path [] = false
has_ev plane path (ev ∷ evs) = same_cell plane path ev.0 ev.1 || has_ev plane path evs

abbrev pub none_named : List ℕ → List (ℕ × ℕ) → Bool
none_named [] [] = true
none_named _ _ = false

unfoldable pub matches : TrimSpec → ℕ → ℕ → Bool
matches spec plane path =
    if none_named spec.planes spec.evs
    then true
    else has_plane plane spec.planes || has_ev plane path spec.evs

-- `TrimOracle.hits`, with the generator's state.
unfoldable pub hits {ℓ} : {G : Type ℓ} → (G → Ratio × G) → TrimSpec → G → ℕ → ℕ → Bool × G
hits random spec rng plane path =
    let (u, rng') = random rng in
    if (spec.rate.num == 0) || not (matches spec plane path)
    then (false, rng)
    else (ratio_lt u spec.rate, rng')

pub record TrimStats : Type 0 where
  pub trimmed : ℕ
  pub dropped : ℕ
  pub nacks_received : ℕ
  pub nacks_ignored : ℕ
  pub retransmits : ℕ

abbrev pub no_stats : TrimStats
no_stats = record {
  trimmed = 0;
  dropped = 0;
  nacks_received = 0;
  nacks_ignored = 0;
  retransmits = 0;
}

abbrev pub recent_sends : ℕ
recent_sends = 4096

-- A retransmit request: the number, and the EV of the trimmed arrival.
pub record Request : Type 0 where
  pub seq : ℕ
  pub plane : ℕ
  pub path : ℕ

pub record NackListener : Type 0 where
  pub max_retransmits : ℕ
  pub stats : TrimStats
  pub recent : List (ℕ × ℕ)
  pub queue : List Request

abbrev pub new_listener : ℕ → TrimStats → NackListener
new_listener max_retransmits stats = record {
  max_retransmits = max_retransmits;
  stats = stats;
  recent = [];
  queue = [];
}

-- `popitem(last=False)` past the bound.
abbrev pub evict : List (ℕ × ℕ) → List (ℕ × ℕ)
evict m = if ltb recent_sends (length m) then drop 1 m else m

abbrev pub note_new : NackListener → ℕ → Option ℕ → NackListener
note_new l seq none = record l { recent = evict (l.recent ++ (seq, 0) ∷ []) }
note_new l seq (some count) = l

unfoldable pub note_sent : NackListener → ℕ → NackListener
note_sent l seq = note_new l seq (find ℕ_discrete seq l.recent)

abbrev pub count_received : NackListener → NackListener
count_received l = record l {
  stats = record (l.stats) { nacks_received = l.stats.nacks_received + 1 };
}

abbrev pub ignore_nack : NackListener → NackListener
ignore_nack l = record l { stats = record (l.stats) { nacks_ignored = l.stats.nacks_ignored + 1 } }

abbrev pub request : NackListener → Request → Option ℕ → NackListener
request l r none = ignore_nack l
request l r (some count) =
    if leb l.max_retransmits count
    then ignore_nack l
    else record l { recent = put ℕ_discrete r.seq (count + 1) l.recent; queue = l.queue ++ r ∷ [] }

unfoldable pub on_nack : NackListener → Request → NackListener
on_nack l r = request (count_received l) r (find ℕ_discrete r.seq l.recent)

-- `take`: the requests queued so far, and an empty queue.
unfoldable pub take_requests : NackListener → List Request × NackListener
take_requests l = (l.queue, record l { queue = [] })

abbrev pub handle_nack : NackListener → Result Nack → NackListener
handle_nack l (ok n) = on_nack l (record { seq = n.seq; plane = n.plane_id; path = n.path_id })
handle_nack l (raise e) = l

-- The body of `_rx_loop` for a datagram.
unfoldable pub receive_nack : NackListener → Bytes → NackListener
receive_nack l payload = handle_nack l (decode_nack payload)
