-- ===== src/Terminal/Message.antt =====
-- What a message of the browser does to the terminal.
use oracle_backup.Base.{
  ℕ, ◌-◌, ◌%◌, ◌^◌, Bool, false, ◌&&◌, [], Option, none, some, leb, if◌then◌else◌,
}
use oracle_backup.Base.Int.{ℤ, pos, negsuc}
use oracle_backup.Text.{Text, codes, same}

-- `text` is the field Data.
pub record Msg : Type 0 where
  pub type : Text
  pub text : Text
  pub cols : ℤ
  pub rows : ℤ

-- Bytes for the terminal, its size in rows and columns, or nothing.
pub data Input : Type 0 where
  write : Text → Input
  set_size : ℕ → ℕ → Input
  ignored : Input

-- `uint16(n)`
abbrev pub uint16 : ℤ → ℕ
uint16 (pos n) = n % 2 ^ 16
uint16 (negsuc n) = (2 ^ 16 - 1) - n % 2 ^ 16

abbrev pub is_positive : ℤ → Bool
is_positive (pos n) = leb 1 n
is_positive (negsuc n) = false

unfoldable pub resize : Msg → Input
resize m =
    if is_positive m.cols && is_positive m.rows
    then set_size (uint16 m.rows) (uint16 m.cols)
    else ignored

unfoldable pub typed : Text → Msg → Input
typed raw m =
    if same m.type []
    then write raw
    else if same m.type (codes "input")
    then write m.text
    else if same m.type (codes "resize")
    then resize m
    else ignored

-- `msg` is the message as JSON, `none` where it is none.
unfoldable pub input_of : Text → Option Msg → Input
input_of raw none = write raw
input_of raw (some m) = typed raw m
