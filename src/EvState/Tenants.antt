-- ===== src/EvState/Tenants.antt =====
-- srv6_mrc/mrc/ev_state.py: calls for different tenants do not touch one another, and a call that
-- raises changes nothing.
use srv6_mrc_emulator.Common.{
  ◌≡◌, refl, ◌∙◌, ap, inl, inr, false, List, [], ◌∷◌, some, if◌then◌else◌, arith, Bool-cases,
  Option-cases, foldl, Result, ok, raise,
}
use Prim.Native.String.{String}
use text.Mathlib.Text.{◌==◌ as str_eq}
use text.Mathlib.TextEquality.{eq_iff}
use srv6_mrc_emulator.EvState.Defs.{TenantEvs, Setup, probe_sent, probe_recv, tick, loss_window}
use srv6_mrc_emulator.EvState.Table.{
  EvStateTable, find_tenant, put_tenant, check_tenant, check_ev, record_probe_sent,
  record_probe_recv, tick_tenant, record_loss_window,
}
use srv6_mrc_emulator.EvState.Run.{
  Signal, sent_signal, recv_signal, tick_signal, loss_signal, apply_signal, run,
}

-- The table after a call that may raise.
abbrev pub keep_on_raise : EvStateTable → Result EvStateTable → EvStateTable
keep_on_raise t (ok t') = t'
keep_on_raise t (raise e) = t

unfoldable pub call : EvStateTable → String × Signal → EvStateTable
call t (tenant, sent_signal p q) = keep_on_raise t (record_probe_sent t tenant p q)
call t (tenant, recv_signal p q) = keep_on_raise t (record_probe_recv t tenant p q)
call t (tenant, tick_signal) = keep_on_raise t (tick_tenant t tenant)
call t (tenant, loss_signal p q seen expected) =
    keep_on_raise t (record_loss_window t tenant p q seen expected)

unfoldable pub calls : EvStateTable → List (String × Signal) → EvStateTable
calls t cs = foldl call t cs

-- The signals that are for one tenant, in order.
unfoldable pub signals_for : String → List (String × Signal) → List Signal
signals_for k [] = []
signals_for k ((tenant, sig) ∷ cs) =
    if str_eq tenant k then sig ∷ signals_for k cs else signals_for k cs

find-put_same :
    (k : String) (s : TenantEvs) (m : List (String × TenantEvs)) (old : TenantEvs)
    → find_tenant k m ≡ some old
    → find_tenant k (put_tenant k s m) ≡ some s
unfolding find_tenant put_tenant
find-put_same k s [] old h = cc
find-put_same k s ((j, v) ∷ m) old h = ground (arith, find-put_same k s m old)

find-put_other :
    (a k : String) (s : TenantEvs) (m : List (String × TenantEvs))
    → str_eq a k ≡ false
    → find_tenant k (put_tenant a s m) ≡ find_tenant k m
unfolding find_tenant put_tenant
find-put_other a k s [] h = refl
find-put_other a k s ((j, v) ∷ m) h =
    ground (arith, find-put_other a k s m h, eq_iff j a, eq_iff j k, eq_iff a k)

pub call-setup : (t : EvStateTable) (c : String × Signal) → (call t c).setup ≡ t.setup
unfolding call record_probe_sent record_probe_recv tick_tenant record_loss_window check_tenant
    check_ev
call-setup t (a, sent_signal p q) = ground arith
call-setup t (a, recv_signal p q) = ground arith
call-setup t (a, tick_signal) = ground arith
call-setup t (a, loss_signal p q seen expected) = ground arith

call-find_other :
    (t : EvStateTable) (a k : String) (sig : Signal)
    → str_eq a k ≡ false
    → find_tenant k (call t (a, sig)).tenants ≡ find_tenant k t.tenants
unfolding call record_probe_sent record_probe_recv tick_tenant record_loss_window check_tenant
    check_ev
call-find_other t a k (sent_signal p q) h = elim (Option-cases (find_tenant a t.tenants)) [
  | inl e ↦ ground arith
  | inr (s, e) ↦ ground (arith, find-put_other a k (probe_sent s p q) t.tenants h)
]
call-find_other t a k (recv_signal p q) h = elim (Option-cases (find_tenant a t.tenants)) [
  | inl e ↦ ground arith
  | inr (s, e) ↦ ground (arith, find-put_other a k (probe_recv s p q) t.tenants h)
]
call-find_other t a k tick_signal h = elim (Option-cases (find_tenant a t.tenants)) [
  | inl e ↦ ground arith
  | inr (s, e) ↦ ground (arith, find-put_other a k (tick t.setup s) t.tenants h)
]
call-find_other t a k (loss_signal p q seen expected) h =
    elim (Option-cases (find_tenant a t.tenants)) [
      | inl e ↦ ground arith
      | inr (s, e) ↦
          ground (arith, find-put_other a k (loss_window t.setup s p q seen expected) t.tenants h)
    ]

pub call-find_same :
    (t : EvStateTable) (k : String) (sig : Signal) (s : TenantEvs)
    → find_tenant k t.tenants ≡ some s
    → find_tenant k (call t (k, sig)).tenants ≡ some (apply_signal t.setup s sig)
unfolding call record_probe_sent record_probe_recv tick_tenant record_loss_window check_tenant
    check_ev apply_signal
call-find_same t k (sent_signal p q) s e =
    ground (arith, find-put_same k (probe_sent s p q) t.tenants s e)
call-find_same t k (recv_signal p q) s e =
    ground (arith, find-put_same k (probe_recv s p q) t.tenants s e)
call-find_same t k tick_signal s e = ground (arith, find-put_same k (tick t.setup s) t.tenants s e)
call-find_same t k (loss_signal p q seen expected) s e =
    ground (arith, find-put_same k (loss_window t.setup s p q seen expected) t.tenants s e)

calls-run_at :
    (cs : List (String × Signal)) (t : EvStateTable) (su : Setup) (k : String) (s : TenantEvs)
    → t.setup ≡ su
    → find_tenant k t.tenants ≡ some s
    → find_tenant k (calls t cs).tenants ≡ some (run su s (signals_for k cs))
unfolding calls run signals_for
calls-run_at [] t su k s h e = e
calls-run_at ((a, sig) ∷ cs) t su k s h e = elim (Bool-cases (str_eq a k)) [
  | inl same ↦
      let here : find_tenant k (call t (a, sig)).tenants ≡ some (apply_signal t.setup s sig) =
        rw ((eq_iff a k).0 same) (call-find_same t k sig s e) in
      let found : find_tenant k (call t (a, sig)).tenants ≡ some (apply_signal su s sig) =
        here ∙ ap (λ u. some (apply_signal u s sig)) h in
      rw same (
        calls-run_at cs (call t (a, sig)) su k (apply_signal su s sig) (call-setup t (a, sig) ∙ h)
          found)
  | inr other ↦
      let found : find_tenant k (call t (a, sig)).tenants ≡ some s =
        call-find_other t a k sig other ∙ e in
      rw other (calls-run_at cs (call t (a, sig)) su k s (call-setup t (a, sig) ∙ h) found)
]

-- Whatever calls for whatever tenants are interleaved, each tenant of the table ends in the state
-- that its own signals lead to, in their order; calls for other tenants, for unknown ones and for
-- EVs outside the table leave it alone.
pub calls-run :
    (cs : List (String × Signal)) (t : EvStateTable) (k : String) (s : TenantEvs)
    → find_tenant k t.tenants ≡ some s
    → find_tenant k (calls t cs).tenants ≡ some (run t.setup s (signals_for k cs))
calls-run cs t k s e = calls-run_at cs t t.setup k s refl e
