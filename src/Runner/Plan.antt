-- ===== src/Runner/Plan.antt =====
-- srv6_mrc/runner.py: what a run of the sender is given, and what it keeps; and `spine_for` of topo.py.
use Prim.Native.String.{String}
use native.Mathlib.Decide.{ℕ_discrete}
use Prim.Derive.{×_discrete}
use srv6_mrc_emulator.Common.{
  ℕ, ◌+◌, ◌*◌, ◌%◌, Bool, not, List, Option, none, some, ltb, ◌==◌, if◌then◌else◌,
}
use srv6_mrc_emulator.Common.Dict.{find, put}
use srv6_mrc_emulator.EvState.Defs.{Ratio}
use srv6_mrc_emulator.Wire.Defs.{Bytes}
use srv6_mrc_emulator.Topo.Defs.{Text}
use srv6_mrc_emulator.Topo.Addresses.{Fabric, SidMode}
use srv6_mrc_emulator.Reorder.Defs.{Counts, or_zero}
use srv6_mrc_emulator.Trim.Defs.{TrimSpec, NackListener}

-- What a run is given. `pick_ev` is a policy that chooses the spine too, `pick` one that does not.
pub record Plan (P G : Type 0) : Type 0 where
  pub fabric : Fabric
  pub tenant : String
  pub src_id : ℕ
  pub dst_id : ℕ
  pub sid_mode : SidMode
  pub ev_aware : Bool
  pub pick_ev : P → ℕ → (ℕ × ℕ) × P
  pub pick : P → ℕ → ℕ × P
  pub random : G → Ratio × G
  pub works : ℕ → Bool

pub record Trimming (G : Type 0) : Type 0 where
  pub spec : TrimSpec
  pub rng : G
  pub listener : NackListener

-- A packet that was sent: the latest one stands first.
pub record Sent : Type 0 where
  pub seq : ℕ
  pub plane : ℕ
  pub path : ℕ
  pub outer : Text
  pub payload : Bytes

-- SenderResult and the variables of the loop. `result.trim` is the listener's statistics: one object.
pub record Sender (P G : Type 0) : Type 0 where
  pub policy : P
  pub seq : ℕ
  pub sent : ℕ
  pub errors : ℕ
  pub per_plane_sent : Counts
  pub per_ev_sent : List ((ℕ × ℕ) × ℕ)
  pub trimming : Option (Trimming G)
  pub attempts : ℕ
  pub wire : List Sent

abbrev pub ev_discrete : Discrete (ℕ × ℕ)
ev_discrete = ×_discrete ℕ_discrete ℕ_discrete

abbrev pub bump_ev : (ℕ × ℕ) → List ((ℕ × ℕ) × ℕ) → List ((ℕ × ℕ) × ℕ)
bump_ev ev m = put ev_discrete ev (or_zero (find ev_discrete ev m) + 1) m

-- REFERENCE_PAIRS_SPINES
abbrev pub reference_spines : ℕ → ℕ → Option ℕ
reference_spines a b =
    if not (a + b == 15)
    then none
    else if a == 0
    then some 0
    else if a == 1
    then some 2
    else if a == 2
    then some 4
    else if a == 3
    then some 6
    else if a == 4
    then some 1
    else if a == 5
    then some 3
    else if a == 6
    then some 5
    else if a == 7
    then some 7
    else none

abbrev pub spine_or_hash : Fabric → ℕ → ℕ → Option ℕ → ℕ
spine_or_hash f a b (some s) = s
spine_or_hash f a b none = (a * f.num_leaves + b) % f.shape.num_spines

unfoldable pub spine_for : Fabric → ℕ → ℕ → ℕ
spine_for f src_id dst_id =
    if ltb src_id dst_id
    then spine_or_hash f src_id dst_id (reference_spines src_id dst_id)
    else spine_or_hash f dst_id src_id (reference_spines dst_id src_id)
