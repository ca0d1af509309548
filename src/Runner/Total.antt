-- ===== src/Runner/Total.antt =====
-- srv6_mrc/runner.py: a run of the sender without trimming ends, when the policy keeps to the topology.
use Prim.Native.String.{String}
use text.Mathlib.Text.{◌==◌ as str_eq}
use srv6_mrc_emulator.Common.{ℕ, suc, ◌≤◌, ◌<◌, ◌≡◌, ◌≢◌, Bool, true, none, ◌==◌, Result, ok, ◌>>=◌}
use srv6_mrc_emulator.Topo.Defs.{Text}
use srv6_mrc_emulator.Topo.Addresses.{contains}
use srv6_mrc_emulator.Runner.Plan.{Plan, Sender}
use srv6_mrc_emulator.Runner.Sender.{next_ev, spine, after_new}

-- A flow within the topology, and a policy that keeps to it.
pub record IsPlan {P G : Type 0} (plan : Plan P G) : Type 0 where
  pub tenant : contains plan.tenant plan.fabric.tenants ≡ true
  pub src : plan.src_id < plan.fabric.num_leaves
  pub dst : plan.dst_id < plan.fabric.num_leaves
  pub differ : plan.src_id ≢ plan.dst_id
  pub planes_u8 : plan.fabric.shape.num_planes ≤ 256
  pub spines_u8 : plan.fabric.shape.num_spines ≤ 256
  pub spine_in : spine plan < plan.fabric.shape.num_spines
  pub plane_in :
      (policy : P) (seq : ℕ) → (next_ev plan policy seq).0.0 < plan.fabric.shape.num_planes
  pub path_in :
      (policy : P) (seq : ℕ) → (next_ev plan policy seq).0.1 < plan.fabric.shape.num_spines

-- A result that is no error.
abbrev pub IsOk : {A : Type 0} → Result A → Type 0
IsOk {A} r = (a : A) × (r ≡ ok a)

follows :
    {A B : Type 0} (call : Result A) (rest : A → Result B)
    → IsOk call
    → ((a : A) → call ≡ ok a → IsOk (rest a))
    → IsOk (call >>= rest)
follows call rest (a, e) k = rw e (k a e)

module _ {P G : Type 0} (plan : Plan P G) (valid : IsPlan plan) where
  -- One new packet, from a state without trimming.
  record IsGoing (n : ℕ) (s : Sender P G) : Type 0 where
    off : s.trimming ≡ none
    seq : s.seq ≡ n

  abbrev Sends : ℕ → Result (Sender P G × Bool) → Type 0
  Sends n r = (done : Sender P G × Bool) × ((r ≡ ok done) × IsGoing (suc n) (after_new plan done))

  Goes : ℕ → Result (Sender P G) → Type 0
  Goes n r = (e : Sender P G) × ((r ≡ ok e) × IsGoing n e)
