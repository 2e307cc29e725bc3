-- ===== src/Import/Exchange/Close.antt =====
-- src/import/multiroute.rs, `response_wants_close`: what a response head says of the connection.
use zenoh_bridge_tcp.Prelude.{
  ℕ, Bool, false, not, ◌&&◌, ◌||◌, List, [], ◌∷◌, Option, some, none, ◌==◌, leb, map, if◌then◌else◌,
}
use zenoh_bridge_tcp.Text.{Text, codes, text_eq, ascii_lower}
use zenoh_bridge_tcp.Text.Split.{split}
use zenoh_bridge_tcp.Import.Http.{ResponseHead}

-- `char::is_whitespace`.
abbrev pub is_whitespace : ℕ → Bool
is_whitespace c =
    (leb 9 c && leb c 13)
    || (c == 32
        || (c == 133
            || (c == 160
                || (c == 5760
                    || ((leb 8192 c && leb c 8202)
                        || (c == 8232
                            || (c == 8233 || (c == 8239 || (c == 8287 || c == 12288)))))))))

abbrev pub trim_start : Text → Text
trim_start [] = []
trim_start (c ∷ cs) = let rest = trim_start cs in if is_whitespace c then rest else c ∷ cs

abbrev pub cons_trimmed : ℕ → Text → Text
cons_trimmed c [] = if is_whitespace c then [] else c ∷ []
cons_trimmed c (d ∷ ds) = c ∷ d ∷ ds

abbrev pub trim_end : Text → Text
trim_end [] = []
trim_end (c ∷ cs) = cons_trimmed c (trim_end cs)

-- `str::trim`.
unfoldable pub trim : Text → Text
trim s = trim_end (trim_start s)

-- `eq_ignore_ascii_case`.
abbrev pub same_token : Text → Text → Bool
same_token a b = text_eq (map ascii_lower a) (map ascii_lower b)

abbrev pub any_token : Text → List Text → Bool
any_token name [] = false
any_token name (t ∷ ts) = same_token (trim t) name || any_token name ts

abbrev pub parts : Text → List Text
parts value = (split b',' value).0 ∷ (split b',' value).1

-- Whether one of the values names the token; a value that is no UTF-8 is passed over.
unfoldable pub names_token : Text → List (Option Text) → Bool
names_token name [] = false
names_token name (none ∷ values) = names_token name values
names_token name (some value ∷ values) = any_token name (parts value) || names_token name values

unfoldable pub response_wants_close : ResponseHead → Bool
response_wants_close rh =
    rh.until_close
    || (names_token (codes "close") rh.connection
        || (rh.http_1_0 && not (names_token (codes "keep-alive") rh.connection)))
