-- ===== src/Scenario/PairSets.antt =====
-- srv6_mrc/mrc/scenario.py: every pair of a flow, named or listed, is a flow of the fabric.
use Prim.Native.String.{String}
use mathlib.Core.Path.{subst}
use mathlib.Core.Logic.{ite}
use native.Mathlib.Nat.{mod-lt, mod_self, mod-eq_of_lt}
use text.Mathlib.TextEquality.{eq_iff}
use srv6_mrc_emulator.Common.{
  ℕ, zero, suc, ◌+◌, ◌-◌, ◌/◌, ◌%◌, ◌≡◌, ◌≤◌, ◌<◌, ◌≢◌, refl, ap, ◌∙◌, Bool, true, not, ◌&&◌, List,
  [], ◌∷◌, map, foldl, Option, none, some, All, Bool-cases, inl, inr, arith, ltb, ltb→lt, ◌==◌,
  ==_iff, list_discrete, range_from, cells, IsCell, All-cells, All_weaken, and_true,
}
use srv6_mrc_emulator.Common.Texts.{all_of}
use srv6_mrc_emulator.Common.Dict.{find, put}
use srv6_mrc_emulator.Topo.Defs.{Text}
use srv6_mrc_emulator.Topo.Text.{codes}
use srv6_mrc_emulator.Topo.Addresses.{Fabric, contains}
use srv6_mrc_emulator.Scenario.Outcome.{Place}
use srv6_mrc_emulator.Scenario.Value.{
  Value, null, negsuc, float, flag, pos, str, list, mapping, nil, cons, items,
}
use srv6_mrc_emulator.Scenario.Calls.{Gives, each_from-Gives}
use srv6_mrc_emulator.Scenario.Pairs.{
  FlowPair, pair, differing, all_to_all_pairs, ring_pairs, mirror_pairs, PairSets,
  reference_pairs_16, reference_pairs_8, fixed_pair_sets, add_tenant, named_pair_sets, resolve_pair,
  or_unknown, resolve_pairs,
}
use srv6_mrc_emulator.Scenario.Entries.{IsPair, IsLarge, resolve_pair-IsPair}

some-injective : {A : Type 0} (a b : A) → some a ≡ some b → a ≡ b
some-injective a b h = cc

ring_differs : (n i : ℕ) → 2 ≤ n → i < n → i ≢ (i + 1) % n
ring_differs n i large h e = elim (Bool-cases (i + 1 == n)) [
  | inl last ↦
      let wrapped : (i + 1) % n ≡ 0 = ap (λ m. m % n) ((==_iff (i + 1) n).0 last) ∙ mod_self n in
      omega (arith, e, wrapped, (==_iff (i + 1) n).0 last)
  | inr inner ↦
      let next : i + 1 < n = ground (arith, h, inner) in omega (arith, e, mod-eq_of_lt next)
]

contains_self : (t : String) (ts : List String) → contains t (t ∷ ts) ≡ true
contains_self t ts = rw ((eq_iff t t).1 refl) refl

contains-cons :
    (t u : String) (ts : List String) → contains t ts ≡ true → contains t (u ∷ ts) ≡ true
contains-cons t u ts h = ground (arith, h)

contains-cons_from :
    (u : String) (ts : List String) (t : String) → contains t ts ≡ true → contains t (u ∷ ts) ≡ true
contains-cons_from u ts t h = contains-cons t u ts h

All-contains : (ts : List String) → All (λ t. contains t ts ≡ true) ts
All-contains [] = tt
All-contains (t ∷ ts) =
    (contains_self t ts, All_weaken _ _ (contains-cons_from t ts) ts (All-contains ts))

-- The named sets.
module _ (f : Fabric) where
  abbrev IsSets : PairSets → Type 0
  IsSets [] = Unit {0}
  IsSets ((name, ps) ∷ m) = All (IsPair f) ps × IsSets m

  put-IsSets :
      (name : Text) (ps : List FlowPair) (m : PairSets)
      → All (IsPair f) ps
      → IsSets m
      → IsSets (put list_discrete name ps m)
  unfolding put
  put-IsSets name ps [] h k = (h, tt)
  put-IsSets name ps ((n, qs) ∷ m) h (l, k) =
      elim (list_discrete n name)
        as (λ d. IsSets (ite d ((n, ps) ∷ m) ((n, qs) ∷ put list_discrete name ps m))) [
          | yes same ↦ (h, k)
          | no other ↦ (l, put-IsSets name ps m h k)
        ]

  find-IsSets :
      (name : Text) (ps : List FlowPair) (m : PairSets)
      → find list_discrete name m ≡ some ps
      → IsSets m
      → All (IsPair f) ps
  unfolding find
  find-IsSets name ps [] e h = absurd cc
  find-IsSets name ps ((n, qs) ∷ m) e (l, k) =
      elim (list_discrete n name)
          as (λ d. ite d (some qs) (find list_discrete name m) ≡ some ps → All (IsPair f) ps) [
            | yes same ↦ λ e'. subst (All (IsPair f)) (some-injective qs ps e') l
            | no other ↦ λ e'. find-IsSets name ps m e' k
          ]
        e

  module _ (tenant : String) (known : contains tenant f.tenants ≡ true) where
    pairs_IsPair :
        (cs : List (ℕ × ℕ))
        → All (IsCell f.num_leaves f.num_leaves) cs
        → All (IsPair f) (map (pair tenant) (differing cs))
    unfolding differing
    pairs_IsPair [] h = tt
    pairs_IsPair ((i, j) ∷ cs) ((a, b), h) = elim (Bool-cases (i == j)) [
      | inl same ↦ rw same (pairs_IsPair cs h)
      | inr differs ↦ rw differs (
        record { tenant = known; src = a; dst = b; differ = λ e. ground (arith, e, differs) },
        pairs_IsPair cs h,
      )
    ]

    ring-IsPair :
        2 ≤ f.num_leaves
        → (i k : ℕ) → i + k ≤ f.num_leaves
        → All (IsPair f) (map (λ i. pair tenant (i, (i + 1) % f.num_leaves)) (range_from i k))
    ring-IsPair large i zero h = tt
    ring-IsPair large i (suc k) h = (
      record {
        tenant = known;
        src = omega (arith, h);
        dst = mod-lt (i + 1) (omega (arith, large));
        differ = ring_differs f.num_leaves i large (omega (arith, h));
      },
      ring-IsPair large (suc i) k (omega (arith, h)),
    )

    mirror-IsPair :
        (i k : ℕ)
        → i + k ≤ f.num_leaves / 2
        → All (IsPair f) (map (λ i. pair tenant (i, f.num_leaves - 1 - i)) (range_from i k))
    mirror-IsPair i zero h = tt
    mirror-IsPair i (suc k) h = (
      record {
        tenant = known;
        src = omega (arith, h);
        dst = omega (arith, h);
        differ = λ e. omega (arith, h, e);
      },
      mirror-IsPair (suc i) k (omega (arith, h)),
    )

  add_tenant-IsSets :
      2 ≤ f.num_leaves
      → (m : PairSets) (t : String) → contains t f.tenants ≡ true
      → IsSets m
      → IsSets (add_tenant f.num_leaves m t)
  unfolding all_to_all_pairs ring_pairs mirror_pairs
  add_tenant-IsSets large m t known h =
      put-IsSets _ _ _ (mirror-IsPair t known 0 (f.num_leaves / 2) (omega arith)) (
        put-IsSets _ _ _ (ring-IsPair t known large 0 f.num_leaves (omega arith)) (
          put-IsSets _ _ m
            (pairs_IsPair t known (cells f.num_leaves f.num_leaves)
              (All-cells f.num_leaves f.num_leaves))
            h))

  add_tenants-IsSets :
      2 ≤ f.num_leaves
      → (ts : List String) → All (λ t. contains t f.tenants ≡ true) ts
      → (m : PairSets) → IsSets m
      → IsSets (foldl (add_tenant f.num_leaves) m ts)
  add_tenants-IsSets large [] known m h = h
  add_tenants-IsSets large (t ∷ ts) (k, ks) m h =
      add_tenants-IsSets large ts ks _ (add_tenant-IsSets large m t k h)

  fixed_pair :
      (t : String) (a b : ℕ)
      → contains t f.tenants ≡ true
      → a < f.num_leaves
      → b < f.num_leaves
      → a ≢ b
      → IsPair f (pair t (a, b))
  fixed_pair t a b known ha hb differ = record {
    tenant = known;
    src = ha;
    dst = hb;
    differ = differ;
  }

  hosts_known : List (ℕ × ℕ) → Bool
  hosts_known cs = all_of (λ (c : ℕ × ℕ). ltb c.0 16 && (ltb c.1 16 && not (c.0 == c.1))) cs

  fixed-IsPair :
      IsLarge f
      → (t : String) → contains t f.tenants ≡ true
      → (cs : List (ℕ × ℕ)) → hosts_known cs ≡ true
      → All (IsPair f) (map (pair t) cs)
  unfolding hosts_known all_of
  fixed-IsPair large t known [] h = tt
  fixed-IsPair large t known ((a, b) ∷ cs) h =
      let (here, rest) = and_true (ltb a 16 && (ltb b 16 && not (a == b))) (hosts_known cs) h in
      let (ha, hbd) = and_true (ltb a 16) (ltb b 16 && not (a == b)) here in
      let (hb, hd) = and_true (ltb b 16) (not (a == b)) hbd in
      (
        fixed_pair t a b known (omega (arith, ltb→lt a 16 ha, large.leaves))
            (omega (arith, ltb→lt b 16 hb, large.leaves)) (λ e. ground (arith, e, hd)),
        fixed-IsPair large t known cs rest,
      )

  named_pair_sets-IsSets : IsLarge f → IsSets (named_pair_sets f)
  unfolding named_pair_sets hosts_known all_of
  named_pair_sets-IsSets large =
      add_tenants-IsSets (omega (arith, large.leaves)) f.tenants (All-contains f.tenants)
        fixed_pair_sets
        (
          fixed-IsPair large "green" large.green reference_pairs_16 refl,
          (
            fixed-IsPair large "yellow" large.yellow reference_pairs_16 refl,
            (
              fixed-IsPair large "green" large.green reference_pairs_8 refl,
              (
                fixed-IsPair large "yellow" large.yellow reference_pairs_8 refl,
                (
                  fixed-IsPair large "green" large.green ((0, 15) ∷ []) refl,
                  (fixed-IsPair large "yellow" large.yellow ((0, 15) ∷ []) refl, tt),
                ),
              ),
            ),
          ),
        )

found-Gives :
    (f : Fabric)
    → IsLarge f
    → (name : Text) (path : Place) (o : Option (List FlowPair))
    → find list_discrete name (named_pair_sets f) ≡ o
    → Gives (All (IsPair f)) (or_unknown path o)
found-Gives f large name path none h = tt
found-Gives f large name path (some ps) h =
    find-IsSets f name ps (named_pair_sets f) h (named_pair_sets-IsSets f large)

pub resolve_pairs-IsPair :
    (f : Fabric)
    → IsLarge f
    → (v : Value) (path : Place) → Gives (All (IsPair f)) (resolve_pairs f v path)
unfolding resolve_pairs
resolve_pairs-IsPair f large (str s) path =
    found-Gives f large (codes s) path (find list_discrete (codes s) (named_pair_sets f)) refl
resolve_pairs-IsPair f large (list nil) path = tt
resolve_pairs-IsPair f large (list (cons v vs)) path =
    each_from-Gives (IsPair f) (resolve_pair f path) (resolve_pair-IsPair f path) 0 (v ∷ items vs)
resolve_pairs-IsPair f large null path = tt
resolve_pairs-IsPair f large (flag b) path = tt
resolve_pairs-IsPair f large (pos n) path = tt
resolve_pairs-IsPair f large (negsuc n) path = tt
resolve_pairs-IsPair f large (float b r) path = tt
resolve_pairs-IsPair f large (mapping d) path = tt
