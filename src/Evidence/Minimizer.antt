-- ===== src/Evidence/Minimizer.antt =====
-- control/guardx_control/evidence/minimizer.py
use guard_x.Common.{String, none, str_eq, if◌then◌else◌}
use guard_x.Evidence.Event.{Event}

abbrev pub set_spans_none : Event → Event
set_spans_none e = record e { body = record e.body { spans = none } }

-- `event.get("evidence_mode") or "spans"`
abbrev pub effective_mode : String → String
effective_mode m = if str_eq m "" then "spans" else m

unfoldable pub minimize_event : Event → Event
minimize_event e =
    let mode = effective_mode e.evidence_mode in
    if str_eq mode "none"
    then record (set_spans_none e) { payload_ref = none }
    else if str_eq mode "spans"
    then record e { payload_ref = none }
    else e
