-- ===== src/Scenario/MrcValues.antt =====
-- srv6_mrc/mrc/scenario.py: what the `mrc:` block of a validated scenario keeps to.
use Prim.Native.String.{String}
use srv6_mrc_emulator.Common.{
  ℕ, ◌≤◌, not, ◌&&◌, ◌||◌, [], ◌++◌, Option, none, some, leb, leb→le, ◌==◌, and_true,
}
use srv6_mrc_emulator.EvState.Defs.{Ratio}
use srv6_mrc_emulator.Scenario.Outcome.{Place}
use srv6_mrc_emulator.Scenario.Value.{
  Value, Entries, null, flag, pos, negsuc, float, str, list, mapping, get, require_keys,
}
use srv6_mrc_emulator.Scenario.Calls.{Gives, bind-Gives, test-Gives}
use srv6_mrc_emulator.Scenario.Pairs.{field_at}
use srv6_mrc_emulator.Scenario.Entries.{keys-Gives}
use srv6_mrc_emulator.Scenario.Mrc.{
  MrcSpec, int_from, unit_interval, ratio_in, int_field, ratio_field, mrc_of, validate_mrc,
  positive_int_fields, non_negative_int_fields, ratio_fields,
}

-- A number that is given is at least `least`; a ratio that is given is at most one.
abbrev pub IsFrom : ℕ → Option ℕ → Type 0
IsFrom least none = Unit {0}
IsFrom least (some n) = least ≤ n

abbrev pub IsRatio : Option Ratio → Type 0
IsRatio none = Unit {0}
IsRatio (some r) = r.num ≤ r.den

pub record IsMrc (s : MrcSpec) : Type 0 where
  pub probe_interval_ms : IsFrom 1 s.probe_interval_ms
  pub probe_timeout_ms : IsFrom 1 s.probe_timeout_ms
  pub loss_window_ms : IsFrom 1 s.loss_window_ms
  pub max_window_skew_ms : IsFrom 1 s.max_window_skew_ms
  pub probe_window_ticks : IsFrom 1 s.probe_window_ticks
  pub probe_min_samples : IsFrom 1 s.probe_min_samples
  pub probe_recover_ticks : IsFrom 1 s.probe_recover_ticks
  pub loss_demote_consecutive : IsFrom 1 s.loss_demote_consecutive
  pub min_active_evs : IsFrom 1 s.min_active_evs
  pub loss_backoff_reset_ticks : IsFrom 1 s.loss_backoff_reset_ticks
  pub probe_fail_ratio : IsRatio s.probe_fail_ratio
  pub probe_recover_ratio : IsRatio s.probe_recover_ratio
  pub loss_threshold : IsRatio s.loss_threshold

int_from-IsFrom :
    (least : ℕ) (o : Option Value) (path : Place) → Gives (IsFrom least) (int_from least o path)
int_from-IsFrom least none path = tt
int_from-IsFrom least (some (pos n)) path =
    test-Gives (IsFrom least) (leb least n) path (some n) (leb→le least n)
int_from-IsFrom least (some null) path = tt
int_from-IsFrom least (some (flag b)) path = tt
int_from-IsFrom least (some (negsuc n)) path = tt
int_from-IsFrom least (some (float b q)) path = tt
int_from-IsFrom least (some (str s)) path = tt
int_from-IsFrom least (some (list vs)) path = tt
int_from-IsFrom least (some (mapping d)) path = tt

pub unit_interval-IsRatio :
    (v : Value) (path : Place) → Gives (λ r. r.num ≤ r.den) (unit_interval v path)
unit_interval-IsRatio (pos n) path =
    test-Gives (λ (r : Ratio). r.num ≤ r.den) (leb n 1) path (record { num = n; den = 1 })
      (leb→le n 1)
unit_interval-IsRatio (float negative q) path =
    test-Gives (λ (r : Ratio). r.num ≤ r.den) ((not negative || q.num == 0) && leb q.num q.den) path
      q
      λ inside.
        leb→le q.num q.den (and_true (not negative || q.num == 0) (leb q.num q.den) inside).1
unit_interval-IsRatio null path = tt
unit_interval-IsRatio (flag b) path = tt
unit_interval-IsRatio (negsuc n) path = tt
unit_interval-IsRatio (str s) path = tt
unit_interval-IsRatio (list vs) path = tt
unit_interval-IsRatio (mapping d) path = tt

ratio_in-IsRatio : (o : Option Value) (path : Place) → Gives IsRatio (ratio_in o path)
ratio_in-IsRatio none path = tt
ratio_in-IsRatio (some v) path =
    bind-Gives _ IsRatio (unit_interval v path) _ (unit_interval-IsRatio v path) λ r small. small

int_field-IsFrom :
    (least : ℕ) (d : Entries) (path : Place) (k : String)
    → Gives (IsFrom least) (int_field least d path k)
int_field-IsFrom least d path k = int_from-IsFrom least (get k d) (field_at path k)

ratio_field-IsRatio :
    (d : Entries) (path : Place) (k : String) → Gives IsRatio (ratio_field d path k)
ratio_field-IsRatio d path k = ratio_in-IsRatio (get k d) (field_at path k)

mrc_of-IsMrc : (d : Entries) (path : Place) → Gives IsMrc (mrc_of d path)
unfolding mrc_of
mrc_of-IsMrc d path =
    bind-Gives _ IsMrc
      (require_keys d path [] (positive_int_fields ++ (non_negative_int_fields ++ ratio_fields))) _
      (keys-Gives d path _ _)
      λ u keys.
        bind-Gives (IsFrom 1) IsMrc (int_field 1 d path "probe_interval_ms") _
          (int_field-IsFrom 1 d path "probe_interval_ms")
          λ a a_is.
            bind-Gives (IsFrom 1) IsMrc (int_field 1 d path "probe_timeout_ms") _
              (int_field-IsFrom 1 d path "probe_timeout_ms")
              λ b b_is.
                bind-Gives (IsFrom 1) IsMrc (int_field 1 d path "loss_window_ms") _
                  (int_field-IsFrom 1 d path "loss_window_ms")
                  λ c c_is.
                    bind-Gives (IsFrom 1) IsMrc (int_field 1 d path "max_window_skew_ms") _
                      (int_field-IsFrom 1 d path "max_window_skew_ms")
                      λ e e_is.
                        bind-Gives (IsFrom 1) IsMrc (int_field 1 d path "probe_window_ticks") _
                          (int_field-IsFrom 1 d path "probe_window_ticks")
                          λ f f_is.
                            bind-Gives (IsFrom 1) IsMrc (int_field 1 d path "probe_min_samples") _
                              (int_field-IsFrom 1 d path "probe_min_samples")
                              λ g g_is.
                                bind-Gives (IsFrom 1) IsMrc
                                  (int_field 1 d path "probe_recover_ticks") _
                                  (int_field-IsFrom 1 d path "probe_recover_ticks")
                                  λ h h_is.
                                    bind-Gives (IsFrom 1) IsMrc
                                      (int_field 1 d path "loss_demote_consecutive") _
                                      (int_field-IsFrom 1 d path "loss_demote_consecutive")
                                      λ i i_is.
                                        bind-Gives (IsFrom 1) IsMrc
                                          (int_field 1 d path "min_active_evs") _
                                          (int_field-IsFrom 1 d path "min_active_evs")
                                          λ j j_is.
                                            bind-Gives (IsFrom 1) IsMrc
                                              (int_field 1 d path "loss_backoff_reset_ticks") _
                                              (int_field-IsFrom 1 d path "loss_backoff_reset_ticks")
                                              λ k k_is.
                                                bind-Gives (IsFrom 0) IsMrc
                                                  (int_field 0 d path "loss_backoff_max_level") _
                                                  (int_field-IsFrom 0 d path
                                                    "loss_backoff_max_level")
                                                  λ l l_is.
                                                    bind-Gives IsRatio IsMrc
                                                      (ratio_field d path "probe_fail_ratio") _
                                                      (ratio_field-IsRatio d path
                                                        "probe_fail_ratio")
                                                      λ m m_is.
                                                        bind-Gives IsRatio IsMrc
                                                          (ratio_field d path "probe_recover_ratio")
                                                          _
                                                          (ratio_field-IsRatio d path
                                                            "probe_recover_ratio")
                                                          λ n n_is.
                                                            bind-Gives IsRatio IsMrc
                                                            (ratio_field d path "loss_threshold") _
                                                            (ratio_field-IsRatio d path
                                                            "loss_threshold")
                                                            λ o o_is. record {
                                                            probe_interval_ms = a_is;
                                                            probe_timeout_ms = b_is;
                                                            loss_window_ms = c_is;
                                                            max_window_skew_ms = e_is;
                                                            probe_window_ticks = f_is;
                                                            probe_min_samples = g_is;
                                                            probe_recover_ticks = h_is;
                                                            loss_demote_consecutive = i_is;
                                                            min_active_evs = j_is;
                                                            loss_backoff_reset_ticks = k_is;
                                                            probe_fail_ratio = m_is;
                                                            probe_recover_ratio = n_is;
                                                            loss_threshold = o_is;
                                                            }

pub validate_mrc-IsMrc : (v : Value) (path : Place) → Gives IsMrc (validate_mrc v path)
unfolding validate_mrc
validate_mrc-IsMrc null path = record {
  probe_interval_ms = tt;
  probe_timeout_ms = tt;
  loss_window_ms = tt;
  max_window_skew_ms = tt;
  probe_window_ticks = tt;
  probe_min_samples = tt;
  probe_recover_ticks = tt;
  loss_demote_consecutive = tt;
  min_active_evs = tt;
  loss_backoff_reset_ticks = tt;
  probe_fail_ratio = tt;
  probe_recover_ratio = tt;
  loss_threshold = tt;
}
validate_mrc-IsMrc (mapping d) path = mrc_of-IsMrc d path
validate_mrc-IsMrc (flag b) path = tt
validate_mrc-IsMrc (pos n) path = tt
validate_mrc-IsMrc (negsuc n) path = tt
validate_mrc-IsMrc (float b q) path = tt
validate_mrc-IsMrc (str t) path = tt
validate_mrc-IsMrc (list vs) path = tt
