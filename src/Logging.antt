-- ===== src/Logging.antt =====
-- src/logging.rs: the sinks, formats and levels that the command line names. The layers that are
-- built from them belong to tracing's crates.
pub mod Target
mod Tests
use zenoh_bridge_tcp.Prelude.{
  ◌≡◌, Bool, true, false, not, ◌||◌, List, [], ◌∷◌, ◌++◌, Option, some, none, Result, ok, err,
  ◌>>=◌, ◌>>◌, guard, ok_or, if◌then◌else◌,
}
use zenoh_bridge_tcp.Text.{Text, codes, text_eq, has, is_empty}
use zenoh_bridge_tcp.Text.Split.{split_once, split}

pub data Rotation : Type 0 where
  never daily hourly minutely : Rotation

-- `Rotation::as_str`.
abbrev pub rotation_name : Rotation → Text
rotation_name never = codes "never"
rotation_name daily = codes "daily"
rotation_name hourly = codes "hourly"
rotation_name minutely = codes "minutely"

pub data Facility : Type 0 where
  daemon user local0 local1 local2 local3 local4 local5 local6 local7 : Facility

-- `Facility::as_str`.
abbrev pub facility_name : Facility → Text
facility_name daemon = codes "daemon"
facility_name user = codes "user"
facility_name local0 = codes "local0"
facility_name local1 = codes "local1"
facility_name local2 = codes "local2"
facility_name local3 = codes "local3"
facility_name local4 = codes "local4"
facility_name local5 = codes "local5"
facility_name local6 = codes "local6"
facility_name local7 = codes "local7"

-- A path is the text that it is spelled by.
pub data LogTarget : Type 0 where
  stdout stderr journald : LogTarget
  file : Text → Rotation → LogTarget
  syslog : Text → Facility → LogTarget

abbrev pub default_syslog_ident : Text
default_syslog_ident = codes "zenoh-bridge-tcp"

pub data LogError : Type 0 where
  empty_option no_equals empty_value takes_no_value : LogError
  duplicate_option takes_no_options unknown_option : Text → LogError
  no_path bad_rotation bad_facility nul_in_ident unknown_target : LogError
  bad_color bad_format : LogError

abbrev pub show_rotation : Rotation → Text
show_rotation never = []
show_rotation r = codes ",rotation=" ++ rotation_name r

abbrev pub show_ident : Text → Text
show_ident ident = if not (text_eq ident default_syslog_ident) then codes ",ident=" ++ ident else []

abbrev pub show_facility : Facility → Text
show_facility daemon = []
show_facility f = codes ",facility=" ++ facility_name f

-- `LogTarget`'s `Display`.
unfoldable pub show_log_target : LogTarget → Text
show_log_target stdout = codes "stdout"
show_log_target stderr = codes "stderr"
show_log_target journald = codes "journald"
show_log_target (file path r) = codes "file=" ++ (path ++ show_rotation r)
show_log_target (syslog ident f) = codes "syslog" ++ (show_ident ident ++ show_facility f)

-- `opts.iter().any(|(n, _)| *n == name)`.
abbrev pub has_option : Text → List (Text × Text) → Bool
has_option name [] = false
has_option name ((n, v) ∷ opts) = text_eq n name || has_option name opts

-- One turn of the loop that reads the options, behind those that were read.
unfoldable pub read_option : List (Text × Text) → Text → Result LogError (Text × Text)
read_option seen opt = do
  guard (not (is_empty opt)) empty_option
  (name, value) ← ok_or (split_once b'=' opt) no_equals
  guard (not (is_empty value)) empty_value
  guard (not (has_option name seen)) (duplicate_option name)
  ok (name, value)

unfoldable pub read_options : List (Text × Text) → List Text → Result LogError (List (Text × Text))
read_options seen [] = ok seen
read_options seen (opt ∷ parts) = do o ← read_option seen opt; read_options (seen ++ (o ∷ [])) parts

abbrev pub reject_extra : List (Text × Text) → Result LogError (Unit {0})
reject_extra [] = ok tt
reject_extra ((name, _) ∷ _) = err (takes_no_options name)

abbrev pub reject_value : Option Text → Result LogError (Unit {0})
reject_value none = ok tt
reject_value (some _) = err takes_no_value

unfoldable pub rotation_value : Text → Result LogError Rotation
rotation_value v =
    if text_eq v (codes "never")
    then ok never
    else if text_eq v (codes "daily")
    then ok daily
    else if text_eq v (codes "hourly")
    then ok hourly
    else if text_eq v (codes "minutely")
    then ok minutely
    else err bad_rotation

unfoldable pub facility_value : Text → Result LogError Facility
facility_value v =
    if text_eq v (codes "daemon")
    then ok daemon
    else if text_eq v (codes "user")
    then ok user
    else if text_eq v (codes "local0")
    then ok local0
    else if text_eq v (codes "local1")
    then ok local1
    else if text_eq v (codes "local2")
    then ok local2
    else if text_eq v (codes "local3")
    then ok local3
    else if text_eq v (codes "local4")
    then ok local4
    else if text_eq v (codes "local5")
    then ok local5
    else if text_eq v (codes "local6")
    then ok local6
    else if text_eq v (codes "local7")
    then ok local7
    else err bad_facility

-- One turn of the loop over the options of a file, and the loop.
unfoldable pub file_option : Rotation → Text → Text → Result LogError Rotation
file_option r name value =
    if text_eq name (codes "rotation") then rotation_value value else err (unknown_option name)

unfoldable pub file_options : Rotation → List (Text × Text) → Result LogError Rotation
file_options r [] = ok r
file_options r ((name, value) ∷ opts) = do r' ← file_option r name value; file_options r' opts

set_ident : Text × Facility → Text → Result LogError (Text × Facility)
set_ident (ident, f) value = do guard (not (has 0 value)) nul_in_ident; ok (value, f)

set_facility : Text × Facility → Text → Result LogError (Text × Facility)
set_facility (ident, f) value = do f' ← facility_value value; ok (ident, f')

-- One turn of the loop over the options of a system log, and the loop.
unfoldable pub syslog_option : Text × Facility → Text → Text → Result LogError (Text × Facility)
unfolding set_ident set_facility
syslog_option s name value =
    if text_eq name (codes "ident")
    then set_ident s value
    else if text_eq name (codes "facility")
    then set_facility s value
    else err (unknown_option name)

unfoldable pub syslog_options :
    Text × Facility → List (Text × Text) → Result LogError (Text × Facility)
syslog_options s [] = ok s
syslog_options s ((name, value) ∷ opts) = do s' ← syslog_option s name value; syslog_options s' opts

abbrev pub file_path : Option Text → Result LogError Text
file_path none = err no_path
file_path (some v) = if is_empty v then err no_path else ok v

-- The head in front of the options, cut at its first equals sign.
abbrev pub cut_head : Text → Option (Text × Text) → Text × Option Text
cut_head head none = (head, none)
cut_head head (some (kind, value)) = (kind, some value)

unfoldable pub finish_file : Option Text → List (Text × Text) → Result LogError LogTarget
finish_file value opts = do path ← file_path value; r ← file_options never opts; ok (file path r)

unfoldable pub finish_syslog : Option Text → List (Text × Text) → Result LogError LogTarget
finish_syslog value opts = do
  reject_value value
  (ident, f) ← syslog_options (default_syslog_ident, daemon) opts
  ok (syslog ident f)

-- The match on the sink's kind.
unfoldable pub finish_target : Text → Option Text → List (Text × Text) → Result LogError LogTarget
finish_target kind value opts =
    if text_eq kind (codes "stdout")
    then (reject_value value >> (reject_extra opts >> ok stdout))
    else if text_eq kind (codes "stderr")
    then (reject_value value >> (reject_extra opts >> ok stderr))
    else if text_eq kind (codes "file")
    then finish_file value opts
    else if text_eq kind (codes "journald")
    then (reject_value value >> (reject_extra opts >> ok journald))
    else if text_eq kind (codes "syslog")
    then finish_syslog value opts
    else err unknown_target

-- `LogTarget::from_str`.
unfoldable pub parse_log_target : Text → Result LogError LogTarget
parse_log_target spec = do
  let (head, parts) = split b',' spec
  let (kind, value) = cut_head head (split_once b'=' head)
  opts ← read_options [] parts
  finish_target kind value opts

pub data ColorChoice : Type 0 where
  auto always no_color : ColorChoice

-- `ColorChoice::from_str`.
unfoldable pub parse_color : Text → Result LogError ColorChoice
parse_color s =
    if text_eq s (codes "auto")
    then ok auto
    else if text_eq s (codes "always")
    then ok always
    else if text_eq s (codes "never")
    then ok no_color
    else err bad_color

pub data LogFormat : Type 0 where
  pretty full compact json : LogFormat

-- `LogFormat::from_str`: `pretty` names the full format.
unfoldable pub parse_format : Text → Result LogError LogFormat
parse_format s =
    if text_eq s (codes "pretty") || text_eq s (codes "full")
    then ok full
    else if text_eq s (codes "verbose")
    then ok pretty
    else if text_eq s (codes "compact")
    then ok compact
    else if text_eq s (codes "json")
    then ok json
    else err bad_format

pub record LogOptions : Type 0 where
  pub level : Text
  pub format : LogFormat
  pub color : ColorChoice
  pub targets : List LogTarget

abbrev pub noisy_dependencies : List Text
noisy_dependencies =
    codes "zenoh"
    ∷ codes "zenoh_ext"
    ∷ codes "zenoh_transport"
    ∷ codes "zenoh_link"
    ∷ codes "zenoh_link_commons"
    ∷ codes "zenoh_runtime"
    ∷ codes "zenoh_util"
    ∷ codes "rustls"
    ∷ codes "tungstenite"
    ∷ codes "tokio_tungstenite"
    ∷ []

abbrev pub self_target : Text
self_target = codes "zenoh_bridge_tcp"

-- The level of the dependencies.
abbrev pub dep_level : Text → Text
dep_level level =
    if text_eq level (codes "trace")
      || (text_eq level (codes "debug") || text_eq level (codes "info"))
    then codes "warn"
    else level

-- `,{target}={level}`.
abbrev pub directive : Text → Text → Text
directive target level = b',' ∷ (target ++ b'=' ∷ level)

abbrev pub dep_directives : Text → List Text → Text
dep_directives level [] = []
dep_directives level (d ∷ ds) = directive d level ++ dep_directives level ds

unfoldable pub default_directives : Text → Text
default_directives level =
    if not (text_eq (dep_level level) level)
    then level
      ++ (dep_directives (dep_level level) noisy_dependencies ++ directive self_target level)
    else level

-- Whether a sink renders colours, given whether it is a terminal.
unfoldable pub use_ansi : ColorChoice → Bool → Bool
use_ansi auto is_terminal = is_terminal
use_ansi always is_terminal = true
use_ansi no_color is_terminal = false
