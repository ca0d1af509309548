-- ===== src/Scenario/Valid.antt =====
-- srv6_mrc/mrc/scenario.py: what a validated scenario keeps to.
use text.Mathlib.Text.{◌==◌ as str_eq}
use srv6_mrc_emulator.Common.{
  ℕ, zero, suc, ◌≡◌, ◌≤◌, refl, true, false, not, ◌&&◌, List, [], ◌∷◌, Option, none, some, All, ltb,
  ◌==◌, ok, inl, inr, Bool-cases,
}
use srv6_mrc_emulator.Common.Texts.{is_nil}
use srv6_mrc_emulator.Topo.Text.{codes}
use srv6_mrc_emulator.Topo.Defs.{Text}
use srv6_mrc_emulator.Topo.Addresses.{Fabric}
use srv6_mrc_emulator.Trim.Defs.{TrimSpec}
use srv6_mrc_emulator.Netem.Defs.{NicTarget, parse_target, normalize_spec}
use srv6_mrc_emulator.Scenario.Outcome.{Place, done, need, at_place, of_result, each_from}
use srv6_mrc_emulator.Scenario.Value.{
  Value, Entries, null, flag, pos, negsuc, float, str, list, mapping, empty, entry, nil, cons,
  items, require_keys,
}
use srv6_mrc_emulator.Scenario.Calls.{
  Gives, bind-Gives, need-Gives, test-Gives, at_place-Gives, at_place-of_result-Gives,
  each_from-Gives,
}
use srv6_mrc_emulator.Scenario.Numbers.{or_error, rate_of, duration_of, parse_rate, parse_duration}
use srv6_mrc_emulator.Scenario.Policies.{Policy, policy_from_spec}
use srv6_mrc_emulator.Scenario.Pairs.{field, field_at, item_at, resolve_pairs}
use srv6_mrc_emulator.Scenario.Entries.{IsPair, IsLarge, keys-Gives}
use srv6_mrc_emulator.Scenario.PairSets.{resolve_pairs-IsPair}
use srv6_mrc_emulator.Scenario.Mrc.{MrcSpec}
use srv6_mrc_emulator.Scenario.MrcValues.{IsMrc}
use srv6_mrc_emulator.Scenario.Blocks.{
  FaultSpec, is_empty, require_str, fault_of, validate_fault, validate_faults,
}
use srv6_mrc_emulator.Scenario.Defs.{
  FlowSpec, Scenario, flow_of, validate_flow, validate_flows, has_mrc,
}

-- A flow's pairs are flows of the fabric, and its policy can be made.
pub record IsFlow (f : Fabric) (fs : FlowSpec) : Type 0 where
  pub pairs : All (IsPair f) fs.pairs
  pub policy : (p : Policy) × (policy_from_spec f.shape fs.policy_spec ≡ done p)

-- A fault's target and spec can be parsed.
pub record IsFault (f : Fabric) (x : FaultSpec) : Type 0 where
  pub target : (nics : List NicTarget) × (parse_target f (codes x.target) ≡ ok nics)
  pub spec : (tokens : List Text) × (normalize_spec (codes x.spec) ≡ ok tokens)

abbrev pub IsPaths : ℕ → Option ℕ → Type 0
IsPaths num_spines none = Unit {0}
IsPaths num_spines (some n) = (1 ≤ n) × (n ≤ num_spines)

abbrev pub IsMrcBlock : Option MrcSpec → Type 0
IsMrcBlock none = Unit {0}
IsMrcBlock (some s) = IsMrc s

-- Trimming has a rate of at most one.
abbrev pub IsTrimBlock : Option TrimSpec → Type 0
IsTrimBlock none = Unit {0}
IsTrimBlock (some t) = t.rate.num ≤ t.rate.den

pub record IsScenario (f : Fabric) (s : Scenario) : Type 0 where
  pub name : is_empty s.name ≡ false
  pub some_flow : is_nil s.flows ≡ false
  pub flows : All (IsFlow f) s.flows
  pub faults : All (IsFault f) s.faults
  pub paths : IsPaths f.shape.num_spines s.paths_per_plane
  pub mrc : IsMrcBlock s.mrc
  pub trim : IsTrimBlock s.trim
  pub answered : has_mrc s.trim s.mrc ≡ true

or_error-Gives :
    {A : Type 0} (path : Place) (o : Option A) → Gives (λ a. Unit {0}) (or_error path o)
or_error-Gives path none = tt
or_error-Gives path (some a) = tt

module _ (f : Fabric) where
  rate-Gives : (v : Value) (path : Place) → Gives (λ n. Unit {0}) (parse_rate v path)
  unfolding parse_rate
  rate-Gives (flag true) path = tt
  rate-Gives (flag false) path = tt
  rate-Gives (pos n) path = test-Gives (λ m. Unit {0}) (ltb 0 n) path n λ h. tt
  rate-Gives (str s) path = or_error-Gives path (rate_of (codes s))
  rate-Gives null path = tt
  rate-Gives (negsuc n) path = tt
  rate-Gives (float b r) path = tt
  rate-Gives (list vs) path = tt
  rate-Gives (mapping d) path = tt

  duration-Gives : (v : Value) (path : Place) → Gives (λ r. Unit {0}) (parse_duration v path)
  unfolding parse_duration
  duration-Gives (flag true) path = tt
  duration-Gives (flag false) path = tt
  duration-Gives (pos n) path = test-Gives (λ r. Unit {0}) (ltb 0 n) path _ λ h. tt
  duration-Gives (float negative r) path =
      test-Gives (λ q. Unit {0}) (not negative && ltb 0 r.num) path r λ h. tt
  duration-Gives (str s) path = or_error-Gives path (duration_of (codes s))
  duration-Gives null path = tt
  duration-Gives (negsuc n) path = tt
  duration-Gives (list vs) path = tt
  duration-Gives (mapping d) path = tt

  flow_of-IsFlow : IsLarge f → (path : Place) (d : Entries) → Gives (IsFlow f) (flow_of f path d)
  flow_of-IsFlow large path d =
      bind-Gives _ (IsFlow f)
        (require_keys d path ("pairs" ∷ "policy" ∷ "rate" ∷ "duration" ∷ []) []) _
        (keys-Gives d path _ _)
        λ u keys.
          bind-Gives _ (IsFlow f) (resolve_pairs f (field "pairs" d) (field_at path "pairs")) _
            (resolve_pairs-IsPair f large (field "pairs" d) (field_at path "pairs"))
            λ pairs a.
              bind-Gives _ (IsFlow f)
                (at_place (field_at path "policy") (policy_from_spec f.shape (field "policy" d))) _
                (at_place-Gives (field_at path "policy")
                  (policy_from_spec f.shape (field "policy" d)))
                λ policy b.
                  bind-Gives _ (IsFlow f) (parse_rate (field "rate" d) (field_at path "rate")) _
                    (rate-Gives (field "rate" d) (field_at path "rate"))
                    λ rate c.
                      bind-Gives _ (IsFlow f)
                        (parse_duration (field "duration" d) (field_at path "duration")) _
                        (duration-Gives (field "duration" d) (field_at path "duration"))
                        λ duration e. record { pairs = a; policy = (policy, b) }

  validate_flow-IsFlow :
      IsLarge f → (path : Place) (i : ℕ) (v : Value) → Gives (IsFlow f) (validate_flow f path i v)
  unfolding validate_flow
  validate_flow-IsFlow large path i (mapping d) = flow_of-IsFlow large (item_at path i) d
  validate_flow-IsFlow large path i null = tt
  validate_flow-IsFlow large path i (flag b) = tt
  validate_flow-IsFlow large path i (pos n) = tt
  validate_flow-IsFlow large path i (negsuc n) = tt
  validate_flow-IsFlow large path i (float b r) = tt
  validate_flow-IsFlow large path i (str t) = tt
  validate_flow-IsFlow large path i (list vs) = tt

  abbrev pub IsFlows : List FlowSpec → Type 0
  IsFlows fss = (is_nil fss ≡ false) × All (IsFlow f) fss

  pub validate_flows-IsFlows :
      IsLarge f → (v : Value) (path : Place) → Gives IsFlows (validate_flows f v path)
  unfolding validate_flows each_from
  validate_flows-IsFlows large (list nil) path = tt
  validate_flows-IsFlows large (list (cons v vs)) path =
      bind-Gives (IsFlow f) IsFlows (validate_flow f path 0 v) _
        (validate_flow-IsFlow large path 0 v)
        λ fs here.
          bind-Gives (All (IsFlow f)) IsFlows (each_from 1 (validate_flow f path) (items vs)) _
            (each_from-Gives (IsFlow f) (validate_flow f path) (validate_flow-IsFlow large path) 1
              (items vs))
            λ fss rest. (refl, (here, rest))
  validate_flows-IsFlows large null path = tt
  validate_flows-IsFlows large (flag b) path = tt
  validate_flows-IsFlows large (pos n) path = tt
  validate_flows-IsFlows large (negsuc n) path = tt
  validate_flows-IsFlows large (float b r) path = tt
  validate_flows-IsFlows large (str t) path = tt
  validate_flows-IsFlows large (mapping d) path = tt

  pub str-Gives : (v : Value) (path : Place) → Gives (λ s. is_empty s ≡ false) (require_str v path)
  unfolding require_str
  str-Gives (str s) path = elim (Bool-cases (is_empty s)) [ inl e ↦ rw e tt | inr e ↦ rw e e ]
  str-Gives null path = tt
  str-Gives (flag b) path = tt
  str-Gives (pos n) path = tt
  str-Gives (negsuc n) path = tt
  str-Gives (float b r) path = tt
  str-Gives (list vs) path = tt
  str-Gives (mapping d) path = tt

  fault_of-IsFault : (path : Place) (d : Entries) → Gives (IsFault f) (fault_of f path d)
  fault_of-IsFault path d =
      bind-Gives _ (IsFault f) (require_keys d path ("kind" ∷ "target" ∷ "spec" ∷ []) []) _
        (keys-Gives d path _ _)
        λ u keys.
          bind-Gives _ (IsFault f) (require_str (field "kind" d) (field_at path "kind")) _
            (str-Gives (field "kind" d) (field_at path "kind"))
            λ kind a.
              bind-Gives _ (IsFault f) (need (str_eq kind "netem") (field_at path "kind")) _
                (need-Gives (str_eq kind "netem") (field_at path "kind"))
                λ v netem.
                  bind-Gives _ (IsFault f) (require_str (field "target" d) (field_at path "target"))
                    _ (str-Gives (field "target" d) (field_at path "target"))
                    λ target b.
                      bind-Gives _ (IsFault f) (require_str (field "spec" d) (field_at path "spec"))
                        _ (str-Gives (field "spec" d) (field_at path "spec"))
                        λ spec c.
                          bind-Gives _ (IsFault f)
                            (at_place (field_at path "target")
                              (of_result (parse_target f (codes target))))
                            _
                            (at_place-of_result-Gives (field_at path "target")
                              (parse_target f (codes target)))
                            λ nics e.
                              bind-Gives _ (IsFault f)
                                (at_place (field_at path "spec")
                                  (of_result (normalize_spec (codes spec))))
                                _
                                (at_place-of_result-Gives (field_at path "spec")
                                  (normalize_spec (codes spec)))
                                λ tokens g. record { target = (nics, e); spec = (tokens, g) }

  validate_fault-IsFault :
      (path : Place) (i : ℕ) (v : Value) → Gives (IsFault f) (validate_fault f path i v)
  unfolding validate_fault
  validate_fault-IsFault path i (mapping d) = fault_of-IsFault (item_at path i) d
  validate_fault-IsFault path i null = tt
  validate_fault-IsFault path i (flag b) = tt
  validate_fault-IsFault path i (pos n) = tt
  validate_fault-IsFault path i (negsuc n) = tt
  validate_fault-IsFault path i (float b r) = tt
  validate_fault-IsFault path i (str t) = tt
  validate_fault-IsFault path i (list vs) = tt

  pub validate_faults-IsFault :
      (o : Option Value) (path : Place) → Gives (All (IsFault f)) (validate_faults f o path)
  unfolding validate_faults
  validate_faults-IsFault none path = tt
  validate_faults-IsFault (some null) path = tt
  validate_faults-IsFault (some (flag false)) path = tt
  validate_faults-IsFault (some (flag true)) path = tt
  validate_faults-IsFault (some (pos zero)) path = tt
  validate_faults-IsFault (some (pos (suc n))) path = tt
  validate_faults-IsFault (some (negsuc n)) path = tt
  validate_faults-IsFault (some (float b r)) path =
      test-Gives (All (IsFault f)) (r.num == 0) path [] λ h. tt
  validate_faults-IsFault (some (str s)) path =
      test-Gives (All (IsFault f)) (is_empty s) path [] λ h. tt
  validate_faults-IsFault (some (mapping empty)) path = tt
  validate_faults-IsFault (some (mapping (entry k v d))) path = tt
  validate_faults-IsFault (some (list vs)) path =
      each_from-Gives (IsFault f) (validate_fault f path) (validate_fault-IsFault path) 0 (items vs)
