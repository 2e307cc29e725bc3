-- ===== src/Logging/Target.antt =====
-- Log sinks: what the parser accepts is well formed, and is read back from what is shown.
use zenoh_bridge_tcp.Prelude.{
  ◌≡◌, refl, ap, true, false, not, List, [], ◌∷◌, ◌++◌, ok, Bool-cases, Result-cases, Option, none,
  some, Option-cases, inl, inr, all, All, All-append, arith, if◌then◌else◌, if-elim, ◌>>◌,
  append-nil, bind-eq-ok, ◌>>=◌, Result,
}
use zenoh_bridge_tcp.Text.{Text, codes, has, is_empty, text_eq, text_eq_iff}
use zenoh_bridge_tcp.Text.Split.{split_once, split, split_clean, suffix, split-suffix, has-second}
use zenoh_bridge_tcp.Logging.{
  Rotation, never, Facility, daemon, LogTarget, stdout, stderr, journald, file, syslog, LogError,
  default_syslog_ident, rotation_name, facility_name, show_ident, show_facility, show_log_target,
  read_options, finish_target, cut_head, parse_log_target, read_option, file_options, file_option,
  syslog_options, syslog_option, finish_file, finish_syslog, rotation_value, facility_value,
  reject_value, reject_extra,
}

-- A value that an option can carry.
abbrev pub IsValue : Text → Type 0
IsValue v = (is_empty v ≡ false) × (has b',' v ≡ false)

-- A sink that can be written down: a path, or an identifier that C code can hold.
abbrev pub IsValid : LogTarget → Type 0
IsValid (file path r) = IsValue path
IsValid (syslog ident f) = IsValue ident × (has 0 ident ≡ false)
IsValid _ = Unit {0}

-- The head of a sink's text, and the options behind it.
head_of : LogTarget → Text
head_of stdout = codes "stdout"
head_of stderr = codes "stderr"
head_of journald = codes "journald"
head_of (file path r) = codes "file=" ++ path
head_of (syslog ident f) = codes "syslog"

rotation_option : Rotation → List Text
rotation_option never = []
rotation_option r = (codes "rotation=" ++ rotation_name r) ∷ []

facility_option : Facility → List Text
facility_option daemon = []
facility_option f = (codes "facility=" ++ facility_name f) ∷ []

ident_option : Text → List Text → List Text
ident_option ident os =
    if text_eq ident default_syslog_ident then os else (codes "ident=" ++ ident) ∷ os

options_of : LogTarget → List Text
unfolding rotation_option facility_option ident_option
options_of (file path r) = rotation_option r
options_of (syslog ident f) = ident_option ident (facility_option f)
options_of _ = []

show_facility-suffix : (f : Facility) → show_facility f ≡ suffix (facility_option f)
unfolding suffix facility_option
show_facility-suffix daemon = refl
show_facility-suffix f = refl

show_ident-suffix :
    (ident : Text) (os : List Text) → show_ident ident ++ suffix os ≡ suffix (ident_option ident os)
unfolding suffix ident_option
show_ident-suffix ident os = elim (Bool-cases (text_eq ident default_syslog_ident)) [
  | inl e ↦ rw e refl
  | inr e ↦ rw e refl
]

show-suffix : (t : LogTarget) → show_log_target t ≡ head_of t ++ suffix (options_of t)
unfolding show_log_target head_of options_of rotation_option suffix
show-suffix (file path never) = rw append-nil refl
show-suffix (file path r) = refl
show-suffix (syslog ident f) =
    rw (show_facility-suffix f)
      (ap (◌++◌ (codes "syslog")) (show_ident-suffix ident (facility_option f)))
show-suffix _ = refl

-- The options that are shown hold no comma.
abbrev IsClean : List Text → Type 0
IsClean os = all (λ o. not (has b',' o)) os ≡ true

facility-IsClean : (f : Facility) → IsClean (facility_option f)
unfolding facility_option
facility-IsClean daemon = refl
facility-IsClean f = refl

ident-IsClean :
    (ident : Text) (os : List Text) → IsValue ident → IsClean os → IsClean (ident_option ident os)
unfolding ident_option
ident-IsClean ident os v h = ground arith

options-IsClean : (t : LogTarget) → IsValid t → IsClean (options_of t)
unfolding options_of rotation_option ident_option
options-IsClean (file path never) v = refl
options-IsClean (file path r) v = refl
options-IsClean (syslog ident f) v =
    ident-IsClean ident (facility_option f) v.0 (facility-IsClean f)
options-IsClean _ v = refl

head_clean : (t : LogTarget) → IsValid t → has b',' (head_of t) ≡ false
unfolding head_of
head_clean (file path r) v = v.1
head_clean _ v = refl

-- `LogTarget::from_str` behind the cut of the head.
abbrev read_sink : Text → Option Text → List Text → Result LogError LogTarget
read_sink kind value parts = read_options [] parts >>= finish_target kind value

read_default :
    (f : Facility)
    → read_sink (codes "syslog") none (facility_option f) ≡ ok (syslog default_syslog_ident f)
unfolding facility_option read_options read_option finish_target finish_syslog syslog_options
    syslog_option facility_value split_once
read_default daemon = refl
read_default f = refl

read_named :
    (ident : Text) (f : Facility)
    → IsValid (syslog ident f)
    → read_sink (codes "syslog") none ((codes "ident=" ++ ident) ∷ facility_option f)
      ≡ ok (syslog ident f)
unfolding facility_option read_options read_option finish_target finish_syslog syslog_options
    syslog_option facility_value split_once
read_named ident daemon v = rw (v.0.0, v.1) refl
read_named ident f v = rw (v.0.0, v.1) refl

-- The options shown are read as the sink that they were shown for.
read-options_of :
    (t : LogTarget)
    → IsValid t
    → (let (kind, value) = cut_head (head_of t) (split_once b'=' (head_of t)) in
        read_sink kind value (options_of t))
      ≡ ok t
unfolding head_of options_of rotation_option ident_option read_options read_option finish_target
    finish_file file_options file_option rotation_value split_once
read-options_of (file path never) v = rw v.0 refl
read-options_of (file path r) v = rw v.0 refl
read-options_of (syslog ident f) v = elim (Bool-cases (text_eq ident default_syslog_ident)) [
  | inl e ↦ rw (e, (text_eq_iff ident default_syslog_ident).0 e) (read_default f)
  | inr e ↦ rw e (read_named ident f v)
]
read-options_of _ v = refl

-- A well-formed sink is read back from its text.
parse-show_valid : (t : LogTarget) → IsValid t → parse_log_target (show_log_target t) ≡ ok t
unfolding parse_log_target
parse-show_valid t v =
    rw
      (
        show-suffix t,
        split-suffix (head_of t) (options_of t) (head_clean t v) (options-IsClean t v),
      )
      (read-options_of t v)

-- The options that were read have values that can be written down.
abbrev ValuesFit : List (Text × Text) → Type 0
ValuesFit opts = All (λ o. IsValue o.1) opts

read_option-IsValue :
    (seen : List (Text × Text)) (opt : Text) {o : Text × Text}
    → has b',' opt ≡ false
    → read_option seen opt ≡ ok o
    → IsValue o.1
unfolding read_option
read_option-IsValue seen opt {o} c e = elim (Option-cases (split_once b'=' opt)) [
  | inl missing ↦ absurd (ground arith)
  | inr ((name, v), found) ↦ let clean = has-second b'=' b',' opt name v found c in ground arith
]

read_options-ValuesFit :
    (seen : List (Text × Text)) (parts : List Text) {opts : List (Text × Text)}
    → ValuesFit seen
    → IsClean parts
    → read_options seen parts ≡ ok opts
    → ValuesFit opts
unfolding read_options
read_options-ValuesFit seen [] f c e = ground arith
read_options-ValuesFit seen (opt ∷ parts) f c e =
    let (o, first, rest) =
      bind-eq-ok (read_option seen opt) (λ o. read_options (seen ++ (o ∷ [])) parts) e in
    read_options-ValuesFit (seen ++ (o ∷ [])) parts
      (All-append (λ o. IsValue o.1) seen (o ∷ []) f
        (read_option-IsValue seen opt (ground arith) first, tt))
      (ground arith) rest

-- What the loop over a system log's options keeps of its identifier.
abbrev IdentFits : Text → Type 0
IdentFits ident = IsValue ident × (has 0 ident ≡ false)

syslog_option-IdentFits :
    (s : Text × Facility) (name value : Text) {s' : Text × Facility}
    → IdentFits s.0
    → IsValue value
    → syslog_option s name value ≡ ok s'
    → IdentFits s'.0
unfolding syslog_option
syslog_option-IdentFits (ident, f) name value h v e =
    ground (arith, Result-cases (facility_value value))

syslog_options-IdentFits :
    (s : Text × Facility) (opts : List (Text × Text)) {s' : Text × Facility}
    → IdentFits s.0
    → ValuesFit opts
    → syslog_options s opts ≡ ok s'
    → IdentFits s'.0
unfolding syslog_options
syslog_options-IdentFits s [] h v e = ground arith
syslog_options-IdentFits s ((name, value) ∷ opts) h v e =
    let (s₁, first, rest) =
      bind-eq-ok (syslog_option s name value) (λ s₁. syslog_options s₁ opts) e in
    syslog_options-IdentFits s₁ opts (syslog_option-IdentFits s name value h v.0 first) v.1 rest

-- What the first part of the text says of the value behind the kind.
abbrev ValueFits : Option Text → Type 0
ValueFits none = Unit {0}
ValueFits (some v) = has b',' v ≡ false

cut_head-ValueFits :
    (head : Text) → has b',' head ≡ false → ValueFits (cut_head head (split_once b'=' head)).1
cut_head-ValueFits head c = elim (Option-cases (split_once b'=' head)) [
  | inl e ↦ rw e tt
  | inr ((kind, value), e) ↦ rw e (has-second b'=' b',' head kind value e c)
]

finish_file-IsValid :
    (value : Option Text) (opts : List (Text × Text)) {t : LogTarget}
    → ValueFits value
    → finish_file value opts ≡ ok t
    → IsValid t
unfolding finish_file
finish_file-IsValid none opts f e = cc
finish_file-IsValid (some v) opts f e = ground (arith, Result-cases (file_options never opts))

finish_syslog-IsValid :
    (value : Option Text) (opts : List (Text × Text)) {t : LogTarget}
    → ValuesFit opts
    → finish_syslog value opts ≡ ok t
    → IsValid t
unfolding finish_syslog
finish_syslog-IsValid none opts f e =
    elim (Result-cases (syslog_options (default_syslog_ident, daemon) opts)) [
      | inl (o, taken) ↦
          let fits =
            syslog_options-IdentFits (default_syslog_ident, daemon) opts ((refl, refl), refl) f
              taken in
          ground arith
      | inr (why, refused) ↦ absurd (ground arith)
    ]
finish_syslog-IsValid (some v) opts f e = cc

-- A result is a well-formed sink, if it is one.
abbrev Fits : Result LogError LogTarget → Type 0
Fits r = (t : LogTarget) → r ≡ ok t → IsValid t

plain-Fits :
    (value : Option Text) (opts : List (Text × Text)) (s : LogTarget)
    → IsValid s
    → Fits (reject_value value >> (reject_extra opts >> ok s))
plain-Fits none [] s v t e = ground arith
plain-Fits none (o ∷ opts) s v t e = cc
plain-Fits (some x) opts s v t e = cc

finish_target-Fits :
    (kind : Text) (value : Option Text) (opts : List (Text × Text))
    → ValueFits value
    → ValuesFit opts
    → Fits (finish_target kind value opts)
unfolding finish_target
finish_target-Fits kind value opts fv fo =
    if-elim Fits (text_eq kind (codes "stdout")) (plain-Fits value opts stdout tt) (
      if-elim Fits (text_eq kind (codes "stderr")) (plain-Fits value opts stderr tt) (
        if-elim Fits (text_eq kind (codes "file")) (λ t e. finish_file-IsValid value opts fv e)
          (if-elim Fits (text_eq kind (codes "journald")) (plain-Fits value opts journald tt) (
            if-elim Fits (text_eq kind (codes "syslog"))
              (λ t e. finish_syslog-IsValid value opts fo e) (λ t e. cc)))))

-- Whatever sink the parser returns has options that are written as they are read.
pub parse_log_target-IsValid :
    (text : Text) {t : LogTarget} → parse_log_target text ≡ ok t → IsValid t
unfolding parse_log_target
parse_log_target-IsValid text {t} e =
    let (head_ok, parts_ok) = split_clean b',' text in
    let (kind, value) = cut_head (split b',' text).0 (split_once b'=' (split b',' text).0) in
    let (opts, taken, done) =
      bind-eq-ok (read_options [] (split b',' text).1) (finish_target kind value) e in
    finish_target-Fits kind value opts (cut_head-ValueFits (split b',' text).0 head_ok)
      (read_options-ValuesFit [] (split b',' text).1 tt parts_ok taken) t done

-- A log sink that the parser returned is returned again, unchanged, when the text that is
-- displayed for it is parsed.
pub parse-show_log_target :
    (text : Text) {t : LogTarget}
    → parse_log_target text ≡ ok t
    → parse_log_target (show_log_target t) ≡ ok t
parse-show_log_target text {t} e = parse-show_valid t (parse_log_target-IsValid text e)
