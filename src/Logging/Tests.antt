-- ===== src/Logging/Tests.antt =====
-- The sinks of the unit tests of src/logging.rs, and the theorems at concrete texts.
use zenoh_bridge_tcp.Prelude.{◌≡◌, refl, ok, err, true, false}
use zenoh_bridge_tcp.Text.{Text, codes}
use zenoh_bridge_tcp.Text.Split.{split, split_once}
use zenoh_bridge_tcp.Logging.{
  LogTarget, syslog, local0, file, daily, parse_log_target, show_log_target, read_options,
  read_option, finish_target, finish_file, finish_syslog, file_options, file_option, syslog_options,
  syslog_option, rotation_value, facility_value, duplicate_option, takes_no_value, no_path,
  takes_no_options, default_directives, use_ansi, auto, always, no_color, parse_format, full,
  pretty, parse_color,
}
use zenoh_bridge_tcp.Logging.Target

abbrev sink_text : Text
sink_text = codes "syslog,facility=local0,ident=edge=1"

abbrev edge_sink : LogTarget
edge_sink = syslog (codes "edge=1") local0

sink_parsed : parse_log_target sink_text ≡ ok edge_sink
unfolding parse_log_target split split_once read_options read_option finish_target finish_syslog
    syslog_options syslog_option facility_value
sink_parsed = refl

sinks_read :
    (parse_log_target (codes "file=/var/log/a=b.log,rotation=daily")
      ≡ ok (file (codes "/var/log/a=b.log") daily))
    × (parse_log_target (codes "file=,rotation=daily") ≡ err no_path)
    × (parse_log_target (codes "stdout=x") ≡ err takes_no_value)
    × (parse_log_target (codes "stdout,rotation=daily") ≡ err (takes_no_options (codes "rotation")))
    × (parse_log_target (codes "file=x,rotation=daily,rotation=never")
        ≡ err (duplicate_option (codes "rotation")))
unfolding parse_log_target split split_once read_options read_option finish_target finish_file
    file_options file_option rotation_value
sinks_read = (refl, refl, refl, refl, refl)

directives :
    (default_directives (codes "error") ≡ codes "error")
    × ((split b',' (default_directives (codes "debug"))).0 ≡ codes "debug")
unfolding default_directives split
directives = (refl, refl)

colours :
    (use_ansi auto false ≡ false)
    × (use_ansi always false ≡ true)
    × (use_ansi no_color true ≡ false)
unfolding use_ansi
colours = (refl, refl, refl)

spellings :
    (parse_format (codes "pretty") ≡ ok full)
    × (parse_format (codes "verbose") ≡ ok pretty)
    × (parse_color (codes "never") ≡ ok no_color)
unfolding parse_format parse_color
spellings = (refl, refl, refl)

parse_log_target-IsValid_example : Target.IsValid edge_sink
parse_log_target-IsValid_example = Target.parse_log_target-IsValid sink_text sink_parsed

parse-show_log_target_example : parse_log_target (show_log_target edge_sink) ≡ ok edge_sink
parse-show_log_target_example = Target.parse-show_log_target sink_text sink_parsed
