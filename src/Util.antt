-- ===== src/Util.antt =====
-- internal/master/util.go: identifiers, tags, and the reset of a stopped instance. Server.Written has the
-- writers of answers.
use Prim.Native.String.{◌++◌ as str_append}
use open_ctrl.Types.{stopped, Instance}
use open_ctrl.Base.{
  ℕ, ◌/◌, ◌%◌, String, Option, none, some, List, [], ◌∷◌, false, ◌==◌, if◌then◌else◌,
}

unfoldable pub hex_digit : ℕ → String
hex_digit d =
    if d == 0
    then "0"
    else if d == 1
    then "1"
    else if d == 2
    then "2"
    else if d == 3
    then "3"
    else if d == 4
    then "4"
    else if d == 5
    then "5"
    else if d == 6
    then "6"
    else if d == 7
    then "7"
    else if d == 8
    then "8"
    else if d == 9
    then "9"
    else if d == 10
    then "a"
    else if d == 11
    then "b"
    else if d == 12
    then "c"
    else if d == 13
    then "d"
    else if d == 14
    then "e"
    else "f"

-- hex.EncodeToString, as in generateID, generateMasterID and generateAPIKey: the bytes, 4, 8 or 16
-- of them, come from crypto/rand and are an argument.
unfoldable pub encode_to_string : List ℕ → String
unfolding hex_digit
encode_to_string [] = ""
encode_to_string (b ∷ bs) =
    str_append (hex_digit (b / 16)) (str_append (hex_digit (b % 16)) (encode_to_string bs))

-- cloneTags: the copy is never nil.
unfoldable pub clone_tags : Option (List (String × String)) → Option (List (String × String))
clone_tags none = some []
clone_tags (some tags) = some tags

-- resetStoppedInstanceLocked; `channel` is the new, open channel `stopped`.
unfoldable pub reset_stopped_instance_locked : ℕ → Instance → Instance
reset_stopped_instance_locked channel inst = record inst {
  status = stopped;
  cmd = none;
  stopped_ch = some channel;
  exited_ch = none;
  cancel_func = none;
  runtime_failure = false;
  ping = 0;
  pool = 0;
  tcps = 0;
  udps = 0;
}
