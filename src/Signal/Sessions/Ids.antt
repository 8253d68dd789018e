-- ===== src/Signal/Sessions/Ids.antt =====
-- session.go: session IDs.
use cloudbridge.Common.{ℕ, ◌%◌, ◌≡◌, refl, List, [], ◌∷◌, String, nat_eq, if◌then◌else◌}
use Prim.Native.String.{◌++◌ as concat}

-- `"0123456789abcdef"[d]`
abbrev pub hex_digit : ℕ → String
hex_digit d =
    if nat_eq d 0
    then "0"
    else if nat_eq d 1
    then "1"
    else if nat_eq d 2
    then "2"
    else if nat_eq d 3
    then "3"
    else if nat_eq d 4
    then "4"
    else if nat_eq d 5
    then "5"
    else if nat_eq d 6
    then "6"
    else if nat_eq d 7
    then "7"
    else if nat_eq d 8
    then "8"
    else if nat_eq d 9
    then "9"
    else if nat_eq d 10
    then "a"
    else if nat_eq d 11
    then "b"
    else if nat_eq d 12
    then "c"
    else if nat_eq d 13
    then "d"
    else if nat_eq d 14
    then "e"
    else "f"

-- One digit for each reading of the clock's nanoseconds.
unfoldable pub random_hex : List ℕ → String
random_hex [] = ""
random_hex (t ∷ ts) = concat (hex_digit (t % 16)) (random_hex ts)

-- `now` is the time to the second, as a text; `clock` has the four readings.
abbrev pub generate_session_id : String → List ℕ → String
generate_session_id now clock = concat (concat (concat "ses-" now) "-") (random_hex clock)

-- Two calls in one second with the same readings modulo 16.
same_session_id :
    generate_session_id "20240102030405" (16 ∷ 32 ∷ 48 ∷ 74 ∷ [])
    ≡ generate_session_id "20240102030405" (0 ∷ 0 ∷ 0 ∷ 10 ∷ [])
unfolding random_hex
same_session_id = refl
