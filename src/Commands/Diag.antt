-- ===== src/Commands/Diag.antt =====
-- src/commands/diag.rs: the diagnostics of transports.
use Prim.Native.String.{String}
use cyphal_service.Common.{
  ℕ, ◌/◌, ◌^◌, Option, none, some, List, [], ◌∷◌, ◌++◌, map, ltb, if◌then◌else◌, Text, text, ok,
  err,
}
use cyphal_service.Common.Decimal.{decimal}
use cyphal_service.Transport.State.{TransportDiagnostics}
use cyphal_service.Transport.Handle.{diagnostics}
use cyphal_service.Commands.Texts.{join}
use cyphal_service.Commands.Selection.{Attached, select, over_selected}

-- Durations are nanoseconds.
unfoldable pub format_duration : Option ℕ → Text
format_duration none = text "none"
format_duration (some d) =
    if ltb 0 (d / 10 ^ 9)
    then decimal (d / 10 ^ 9) ++ text "s"
    else decimal (d / 10 ^ 6) ++ text "ms"

abbrev pub recent_text : List ℕ → Text
recent_text [] = text "none"
recent_text (i ∷ is) = join (text ", ") (map decimal (i ∷ is))

abbrev pub node_id_text : Option ℕ → Text
node_id_text none = text "unknown"
node_id_text (some i) = decimal i

abbrev pub error_text : Option Text → Text
error_text none = text "none"
error_text (some e) = e

-- A line of a report, on a line of its own.
abbrev pub report_line : String → Text → Text
report_line label value = 10 ∷ (text label ++ value)

unfoldable pub format_diagnostics : Text → TransportDiagnostics → Text
unfolding format_duration
format_diagnostics name d =
    text "Transport: "
    ++ (name
        ++ (report_line "  Local node ID        " (node_id_text d.local_node_id)
            ++ (report_line "  Observed nodes        " (decimal d.observed_node_count)
                ++ (report_line "  Messages received     " (decimal d.total_messages_received)
                    ++ (report_line "  Heartbeats received   "
                          (decimal d.heartbeat_messages_received)
                        ++ (report_line "  GetInfo req/res       " (
                              decimal d.get_info_requests_sent
                              ++ (text " / " ++ decimal d.get_info_responses_received))
                            ++ (report_line "  Last message age      "
                                  (format_duration d.last_message_age)
                                ++ (report_line "  Last heartbeat age    "
                                      (format_duration d.last_heartbeat_age)
                                    ++ (report_line "  Recent heartbeat IDs  "
                                          (recent_text d.recent_heartbeat_sources)
                                        ++ report_line "  Last error            "
                                            (error_text d.last_error))))))))))

unfoldable pub diagnostics_section : Attached TransportDiagnostics → Text
unfolding format_diagnostics
diagnostics_section (h, reply) = elim (diagnostics h reply) [
  | ok d ↦ format_diagnostics h.name d
  | err e ↦ text "Transport: " ++ (h.name ++ report_line "  Diagnostics error: " e)
]

-- `DiagCommand::execute`.
unfoldable pub diag_execute : List (Attached TransportDiagnostics) → List Text → Text
unfolding select diagnostics_section
diag_execute = over_selected (λ selected. join (10 ∷ 10 ∷ []) (map diagnostics_section selected))
