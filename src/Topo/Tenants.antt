-- ===== src/Topo/Tenants.antt =====
-- srv6_mrc/topo.py: the ids of the tenants, and the tenant that an id names.
use Prim.Native.String.{String}
use text.Mathlib.Text.{◌==◌ as str_eq}
use text.Mathlib.TextEquality.{eq_iff}
use srv6_mrc_emulator.Common.{
  ℕ, ◌+◌, ◌<◌, ◌≡◌, ◌∙◌, ap, inl, inr, Bool-cases, Option-cases, List, [], ◌∷◌, Option, none, some,
  arith, ok,
}
use srv6_mrc_emulator.Topo.Addresses.{
  Fabric, tenant_id, tenant_id_from, tenant_by_id_from, tenant_name, or_value_error,
}

tenant_id_from-above :
    (i : ℕ) (ts : List String) (tenant : String) (id : ℕ)
    → tenant_id_from i ts tenant ≡ some id
    → i < id
unfolding tenant_id_from
tenant_id_from-above i [] tenant id h = cc
tenant_id_from-above i (t ∷ ts) tenant id h =
    elim (Option-cases (tenant_id_from (i + 1) ts tenant)) [
      | inl e ↦ ground (arith, e)
      | inr (later, e) ↦ ground (arith, e, tenant_id_from-above (i + 1) ts tenant later e)
    ]

tenant_by_id_from-tenant_id_from :
    (i : ℕ) (ts : List String) (tenant : String) (id : ℕ)
    → tenant_id_from i ts tenant ≡ some id
    → tenant_by_id_from i ts id ≡ some tenant
unfolding tenant_id_from tenant_by_id_from
tenant_by_id_from-tenant_id_from i [] tenant id h = cc
tenant_by_id_from-tenant_id_from i (t ∷ ts) tenant id h =
    elim (Option-cases (tenant_id_from (i + 1) ts tenant)) [
      | inl e ↦ elim (Bool-cases (str_eq t tenant)) [
        | inl same ↦
            let name : t ≡ tenant = (eq_iff t tenant).0 same in
            let last : tenant_id_from (i + 1) ts t ≡ none =
              ap (tenant_id_from (i + 1) ts) name ∙ e in
            let here : id ≡ i + 1 = ground (arith, h, e, same) in
            rw (tenant_by_id_from, last, here) (ground (arith, ap (λ x. some x) name))
        | inr other ↦ ground (arith, h, e, other)
      ]
      | inr (later, e) ↦
          let rest = tenant_by_id_from-tenant_id_from (i + 1) ts tenant later e in
          let above = tenant_id_from-above (i + 1) ts tenant later e in
          ground (arith, h, e, rest, above)
    ]

or_value_error-ok : (o : Option ℕ) (id : ℕ) → or_value_error o ≡ ok id → o ≡ some id
or_value_error-ok none id h = cc
or_value_error-ok (some x) id h = cc

-- The id of a tenant, looked up, gives that tenant, also where the list of tenants repeats a name.
pub tenant_name-tenant_id :
    (f : Fabric) (tenant : String) (id : ℕ)
    → tenant_id f tenant ≡ ok id
    → tenant_name f id ≡ ok tenant
unfolding tenant_id tenant_name
tenant_name-tenant_id f tenant id h = ap or_value_error (
    tenant_by_id_from-tenant_id_from 0 f.tenants tenant id
      (or_value_error-ok (tenant_id_from 0 f.tenants tenant) id h))
