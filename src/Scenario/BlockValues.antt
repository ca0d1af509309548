-- ===== src/Scenario/BlockValues.antt =====
-- srv6_mrc/mrc/scenario.py: what the checks of the other blocks give.
use Prim.Native.String.{String}
use text.Mathlib.Text.{◌==◌ as str_eq}
use srv6_mrc_emulator.Common.{
  ℕ, ◌≤◌, ◌&&◌, List, [], ◌∷◌, Option, none, some, All, leb, leb→le, if_elim, and_true,
}
use srv6_mrc_emulator.Trim.Defs.{TrimSpec}
use srv6_mrc_emulator.Scenario.Outcome.{
  Place, Checked, done, scenario_error, wrong_value, wrong_type,
}
use srv6_mrc_emulator.Scenario.Value.{
  Value, Entries, null, flag, pos, negsuc, float, str, list, mapping, items, get, require_keys,
}
use srv6_mrc_emulator.Scenario.Calls.{Gives, bind-Gives, test-Gives, each_from-Gives}
use srv6_mrc_emulator.Scenario.Pairs.{field, field_at, item_at}
use srv6_mrc_emulator.Scenario.Entries.{keys-Gives}
use srv6_mrc_emulator.Scenario.Mrc.{unit_interval}
use srv6_mrc_emulator.Scenario.MrcValues.{unit_interval-IsRatio}
use srv6_mrc_emulator.Scenario.Blocks.{
  opt_str, report_out, validate_report, validate_paths_per_plane, validate_sid_mode,
  validate_transport, whole, whole_or, ints, ints_or_none, ev_of, trim_ev, trim_evs, trim_mode_of,
  trim_of, validate_trim,
}
use srv6_mrc_emulator.Scenario.Valid.{IsPaths}

abbrev pub Any : {A : Type 0} → A → Type 0
Any a = Unit {0}

pub opt_str-Gives :
    (default : String) (o : Option Value) (path : Place) → Gives Any (opt_str default o path)
unfolding opt_str
opt_str-Gives default none path = tt
opt_str-Gives default (some null) path = tt
opt_str-Gives default (some (flag b)) path = tt
opt_str-Gives default (some (pos n)) path = tt
opt_str-Gives default (some (negsuc n)) path = tt
opt_str-Gives default (some (float b r)) path = tt
opt_str-Gives default (some (str t)) path = tt
opt_str-Gives default (some (list vs)) path = tt
opt_str-Gives default (some (mapping d)) path = tt

report_out-Gives : (path : Place) (o : Option Value) → Gives Any (report_out path o)
report_out-Gives path none = tt
report_out-Gives path (some null) = tt
report_out-Gives path (some (flag b)) = tt
report_out-Gives path (some (pos n)) = tt
report_out-Gives path (some (negsuc n)) = tt
report_out-Gives path (some (float b r)) = tt
report_out-Gives path (some (str t)) = tt
report_out-Gives path (some (list vs)) = tt
report_out-Gives path (some (mapping d)) = tt

pub report-Gives : (o : Option Value) (path : Place) → Gives Any (validate_report o path)
unfolding validate_report
report-Gives none path = tt
report-Gives (some (mapping d)) path =
    bind-Gives _ Any (require_keys d path [] ("out" ∷ [])) _ (keys-Gives d path _ _)
      λ u keys. report_out-Gives (field_at path "out") (get "out" d)
report-Gives (some null) path = tt
report-Gives (some (flag b)) path = tt
report-Gives (some (pos n)) path = tt
report-Gives (some (negsuc n)) path = tt
report-Gives (some (float b r)) path = tt
report-Gives (some (str t)) path = tt
report-Gives (some (list vs)) path = tt

pub validate_paths_per_plane-Gives :
    (num_spines : ℕ) (o : Option Value) (path : Place)
    → Gives (IsPaths num_spines) (validate_paths_per_plane num_spines o path)
unfolding validate_paths_per_plane
validate_paths_per_plane-Gives num_spines none path = tt
validate_paths_per_plane-Gives num_spines (some (pos n)) path =
    test-Gives (IsPaths num_spines) (leb 1 n && leb n num_spines) path (some n) λ inside.
      let (least, most) = and_true (leb 1 n) (leb n num_spines) inside in
      (leb→le 1 n least, leb→le n num_spines most)
validate_paths_per_plane-Gives num_spines (some null) path = tt
validate_paths_per_plane-Gives num_spines (some (flag b)) path = tt
validate_paths_per_plane-Gives num_spines (some (negsuc n)) path = tt
validate_paths_per_plane-Gives num_spines (some (float b r)) path = tt
validate_paths_per_plane-Gives num_spines (some (str t)) path = tt
validate_paths_per_plane-Gives num_spines (some (list vs)) path = tt
validate_paths_per_plane-Gives num_spines (some (mapping d)) path = tt

pub sid-Gives : (o : Option Value) (path : Place) → Gives Any (validate_sid_mode o path)
unfolding validate_sid_mode
sid-Gives none path = tt
sid-Gives (some (str s)) path =
    if_elim (Gives Any) (str_eq s "uA") tt (if_elim (Gives Any) (str_eq s "uN") tt tt)
sid-Gives (some null) path = tt
sid-Gives (some (flag b)) path = tt
sid-Gives (some (pos n)) path = tt
sid-Gives (some (negsuc n)) path = tt
sid-Gives (some (float b r)) path = tt
sid-Gives (some (list vs)) path = tt
sid-Gives (some (mapping d)) path = tt

pub transport-Gives : (o : Option Value) (path : Place) → Gives Any (validate_transport o path)
unfolding validate_transport
transport-Gives none path = tt
transport-Gives (some (str s)) path =
    if_elim (Gives Any) (str_eq s "udp") tt (if_elim (Gives Any) (str_eq s "rdma") tt tt)
transport-Gives (some null) path = tt
transport-Gives (some (flag b)) path = tt
transport-Gives (some (pos n)) path = tt
transport-Gives (some (negsuc n)) path = tt
transport-Gives (some (float b r)) path = tt
transport-Gives (some (list vs)) path = tt
transport-Gives (some (mapping d)) path = tt

whole-Gives : (path : Place) (v : Value) → Gives Any (whole path v)
whole-Gives path null = tt
whole-Gives path (flag b) = tt
whole-Gives path (pos n) = tt
whole-Gives path (negsuc n) = tt
whole-Gives path (float b r) = tt
whole-Gives path (str t) = tt
whole-Gives path (list vs) = tt
whole-Gives path (mapping d) = tt

whole_or-Gives :
    (default : ℕ) (path : Place) (o : Option Value) → Gives Any (whole_or default path o)
whole_or-Gives default path none = tt
whole_or-Gives default path (some v) = whole-Gives path v

All-Any : {A : Type 0} (path : Place) (o : Checked (List A)) → Gives (All Any) o → Gives Any o
All-Any path (done a) h = tt
All-Any path (scenario_error p) h = tt
All-Any path wrong_value h = h
All-Any path wrong_type h = tt

ints-Gives : (path : Place) (v : Value) → Gives Any (ints path v)
unfolding ints
ints-Gives path (list vs) =
    All-Any path _
      (each_from-Gives Any (λ i v. whole path v) (λ i v. whole-Gives path v) 0 (items vs))
ints-Gives path null = tt
ints-Gives path (flag b) = tt
ints-Gives path (pos n) = tt
ints-Gives path (negsuc n) = tt
ints-Gives path (float b r) = tt
ints-Gives path (str t) = tt
ints-Gives path (mapping d) = tt

ints_or_none-Gives : (path : Place) (o : Option Value) → Gives Any (ints_or_none path o)
ints_or_none-Gives path none = tt
ints_or_none-Gives path (some v) = ints-Gives path v

ev_of-Gives : (path : Place) (ns : List ℕ) → Gives Any (ev_of path ns)
ev_of-Gives path [] = tt
ev_of-Gives path (a ∷ []) = tt
ev_of-Gives path (a ∷ (b ∷ [])) = tt
ev_of-Gives path (a ∷ (b ∷ (c ∷ ns))) = tt

trim_ev-Gives : (path : Place) (i : ℕ) (v : Value) → Gives Any (trim_ev path i v)
trim_ev-Gives path i v =
    bind-Gives Any Any (ints (item_at path i) v) _ (ints-Gives (item_at path i) v)
      λ ns h. ev_of-Gives (item_at path i) ns

trim_evs-Gives : (path : Place) (o : Option Value) → Gives Any (trim_evs path o)
trim_evs-Gives path none = tt
trim_evs-Gives path (some (list vs)) =
    All-Any path _ (each_from-Gives Any (trim_ev path) (trim_ev-Gives path) 0 (items vs))
trim_evs-Gives path (some null) = tt
trim_evs-Gives path (some (flag b)) = tt
trim_evs-Gives path (some (pos n)) = tt
trim_evs-Gives path (some (negsuc n)) = tt
trim_evs-Gives path (some (float b r)) = tt
trim_evs-Gives path (some (str t)) = tt
trim_evs-Gives path (some (mapping d)) = tt

mode-Gives : (path : Place) (o : Option Value) → Gives Any (trim_mode_of path o)
unfolding trim_mode_of
mode-Gives path none = tt
mode-Gives path (some (str s)) =
    if_elim (Gives Any) (str_eq s "trim") tt (if_elim (Gives Any) (str_eq s "drop") tt tt)
mode-Gives path (some null) = tt
mode-Gives path (some (flag b)) = tt
mode-Gives path (some (pos n)) = tt
mode-Gives path (some (negsuc n)) = tt
mode-Gives path (some (float b r)) = tt
mode-Gives path (some (list vs)) = tt
mode-Gives path (some (mapping d)) = tt

abbrev pub IsTrim : TrimSpec → Type 0
IsTrim t = t.rate.num ≤ t.rate.den

trim_of-IsTrim : (path : Place) (d : Entries) → Gives IsTrim (trim_of path d)
trim_of-IsTrim path d =
    bind-Gives _ IsTrim
      (require_keys d path ("rate" ∷ [])
        ("mode" ∷ "planes" ∷ "evs" ∷ "seed" ∷ "max_retransmits" ∷ []))
      _ (keys-Gives d path _ _)
      λ u keys.
        bind-Gives _ IsTrim (unit_interval (field "rate" d) (field_at path "rate")) _
          (unit_interval-IsRatio (field "rate" d) (field_at path "rate"))
          λ rate small.
            bind-Gives Any IsTrim (trim_mode_of (field_at path "mode") (get "mode" d)) _
              (mode-Gives (field_at path "mode") (get "mode" d))
              λ mode a.
                bind-Gives Any IsTrim (ints_or_none (field_at path "planes") (get "planes" d)) _
                  (ints_or_none-Gives (field_at path "planes") (get "planes" d))
                  λ planes b.
                    bind-Gives Any IsTrim (trim_evs (field_at path "evs") (get "evs" d)) _
                      (trim_evs-Gives (field_at path "evs") (get "evs" d))
                      λ evs c.
                        bind-Gives Any IsTrim (whole_or 0 (field_at path "seed") (get "seed" d)) _
                          (whole_or-Gives 0 (field_at path "seed") (get "seed" d))
                          λ seed e.
                            bind-Gives Any IsTrim
                              (whole_or 3 (field_at path "max_retransmits")
                                (get "max_retransmits" d))
                              _
                              (whole_or-Gives 3 (field_at path "max_retransmits")
                                (get "max_retransmits" d))
                              λ most g. small

pub validate_trim-IsTrim : (v : Value) (path : Place) → Gives IsTrim (validate_trim v path)
unfolding validate_trim
validate_trim-IsTrim (mapping d) path = trim_of-IsTrim path d
validate_trim-IsTrim null path = tt
validate_trim-IsTrim (flag b) path = tt
validate_trim-IsTrim (pos n) path = tt
validate_trim-IsTrim (negsuc n) path = tt
validate_trim-IsTrim (float b r) path = tt
validate_trim-IsTrim (str t) path = tt
validate_trim-IsTrim (list vs) path = tt
