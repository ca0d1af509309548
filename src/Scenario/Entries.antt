-- ===== src/Scenario/Entries.antt =====
-- srv6_mrc/mrc/scenario.py: the listed pairs of a flow.
use Prim.Native.String.{String}
use srv6_mrc_emulator.Common.{
  ℕ, ◌≡◌, ◌≤◌, ◌<◌, ◌≢◌, true, false, not, ◌&&◌, List, [], ◌∷◌, ◌++◌, arith, ltb, ltb→lt, ◌==◌,
}
use srv6_mrc_emulator.Topo.Addresses.{Fabric, contains}
use srv6_mrc_emulator.Scenario.Outcome.{Place, need}
use srv6_mrc_emulator.Scenario.Value.{
  Value, Entries, null, negsuc, float, flag, pos, str, list, mapping, require_keys, has_all,
  all_known,
}
use srv6_mrc_emulator.Scenario.Calls.{Gives, bind-Gives, need-Gives, test-Gives}
use srv6_mrc_emulator.Scenario.Pairs.{
  FlowPair, field, field_at, item_at, require_choice, require_host_id, resolve_entry, resolve_pair,
}

-- A tenant and two hosts of the fabric.
pub record IsPair (f : Fabric) (p : FlowPair) : Type 0 where
  pub tenant : contains p.tenant f.tenants ≡ true
  pub src : p.src < f.num_leaves
  pub dst : p.dst < f.num_leaves
  pub differ : p.src ≢ p.dst

-- A fabric that has the hosts of the fixed pair sets.
pub record IsLarge (f : Fabric) : Type 0 where
  pub leaves : 16 ≤ f.num_leaves
  pub green : contains "green" f.tenants ≡ true
  pub yellow : contains "yellow" f.tenants ≡ true

choice-Gives :
    (choices : List String) (v : Value) (path : Place)
    → Gives (λ s. contains s choices ≡ true) (require_choice choices v path)
unfolding require_choice
choice-Gives choices (str t) path =
    test-Gives (λ s. contains s choices ≡ true) (contains t choices) path t λ known. known
choice-Gives choices null path = tt
choice-Gives choices (flag b) path = tt
choice-Gives choices (pos n) path = tt
choice-Gives choices (negsuc n) path = tt
choice-Gives choices (float b r) path = tt
choice-Gives choices (list vs) path = tt
choice-Gives choices (mapping d) path = tt

host-Gives : (n : ℕ) (v : Value) (path : Place) → Gives (λ i. i < n) (require_host_id n v path)
unfolding require_host_id
host-Gives n (flag true) path = test-Gives (λ i. i < n) (ltb 1 n) path 1 (ltb→lt 1 n)
host-Gives n (flag false) path = test-Gives (λ i. i < n) (ltb 0 n) path 0 (ltb→lt 0 n)
host-Gives n (pos j) path = test-Gives (λ i. i < n) (ltb j n) path j (ltb→lt j n)
host-Gives n null path = tt
host-Gives n (negsuc j) path = tt
host-Gives n (float b r) path = tt
host-Gives n (str t) path = tt
host-Gives n (list vs) path = tt
host-Gives n (mapping d) path = tt

pub keys-Gives :
    (d : Entries) (path : Place) (required optional : List String)
    → Gives (λ u. Unit {0}) (require_keys d path required optional)
unfolding require_keys
keys-Gives d path required optional =
    test-Gives (λ u. Unit {0}) (has_all required d && all_known (required ++ optional) d) path tt
      λ known. tt

resolve_entry-IsPair :
    (f : Fabric) (path : Place) (d : Entries) → Gives (IsPair f) (resolve_entry f path d)
resolve_entry-IsPair f path d =
    bind-Gives _ (IsPair f) (require_keys d path ("tenant" ∷ "src" ∷ "dst" ∷ []) []) _
      (keys-Gives d path _ _)
      λ u keys.
        bind-Gives _ (IsPair f)
          (require_choice f.tenants (field "tenant" d) (field_at path "tenant")) _
          (choice-Gives f.tenants _ _)
          λ tenant a.
            bind-Gives _ (IsPair f)
              (require_host_id f.num_leaves (field "src" d) (field_at path "src")) _
              (host-Gives f.num_leaves _ _)
              λ src b.
                bind-Gives _ (IsPair f)
                  (require_host_id f.num_leaves (field "dst" d) (field_at path "dst")) _
                  (host-Gives f.num_leaves _ _)
                  λ dst c.
                    bind-Gives _ (IsPair f) (need (not (src == dst)) path) _
                      (need-Gives (not (src == dst)) path)
                      λ v differs. record {
                        tenant = a;
                        src = b;
                        dst = c;
                        differ = λ same. ground (arith, same, differs);
                      }

pub resolve_pair-IsPair :
    (f : Fabric) (path : Place) (i : ℕ) (v : Value) → Gives (IsPair f) (resolve_pair f path i v)
unfolding resolve_pair
resolve_pair-IsPair f path i (mapping d) = resolve_entry-IsPair f (item_at path i) d
resolve_pair-IsPair f path i null = tt
resolve_pair-IsPair f path i (flag b) = tt
resolve_pair-IsPair f path i (pos n) = tt
resolve_pair-IsPair f path i (negsuc n) = tt
resolve_pair-IsPair f path i (float b r) = tt
resolve_pair-IsPair f path i (str t) = tt
resolve_pair-IsPair f path i (list vs) = tt
