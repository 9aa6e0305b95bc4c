-- ===== src/Tests/Logs.antt =====
-- Lines that kubectl prints.
use nf_orchestrator.Prelude.{◌≡◌, refl, [], some, ◌++◌, arith}
use nf_orchestrator.Text.{Text, text}
use nf_orchestrator.Deploy.Klog.{startup_delay, round_trip, ends_with}
use nf_orchestrator.Deploy.Klog.RoundTrip.{
  stamped, startup_delay-stamped, response_line, round_trip-line,
}

-- A second behind a spawn at half a second to midnight.
startup_delay-stamped_example :
    startup_delay (stamped b'I' 724 500_000 (text " 1 loader.go:402] Config loaded")) 86_399_500_000
    ≡ some 1_000_000
startup_delay-stamped_example =
    startup_delay-stamped b'I' 724 86_399_500_000 1_000_000 (text " 1 loader.go:402] Config loaded")
      refl (omega arith) (omega arith)

abbrev header : Text
header = text "I0724 12:00:00.000000 1 round_trippers.go:632] "

round_trip-line_example :
    round_trip (header ++ response_line (text "https://kind/readyz") (text "200 OK") 31 [])
    ≡ some 31_000
unfolding text ends_with
round_trip-line_example =
    round_trip-line header (text "https://kind/readyz") (text "200 OK") 31 [] refl refl refl refl
      refl
