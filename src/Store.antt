-- ===== src/Store.antt =====
-- internal/store: the records of the database, their keys, and the pruning of old records. The
-- database itself (github.com/timshannon/bolthold) is a parameter.
pub mod Key
pub mod Open
pub mod Prune
use Prim.Native.Char.{code}
use Prim.Native.String
use paperminer.Base.{
  ℕ, zero, suc, ◌+◌, ◌-◌, ◌/◌, ◌%◌, ◌^◌, ℤ, pos, negsuc, ◌-ℤ◌, String, Bool, Option, none, some,
  List, [], ◌∷◌, ◌++◌, ◌==◌, ◌&&◌, ◌||◌, ltb, leb, ltb_ℤ, if◌then◌else◌,
}
use paperminer.Errors.{Err, wrap}
use paperminer.Io.{Io, pure, ◌>>=◌, ◌>>◌, or_wrap}
use paperminer.Paperless.{Time}

pub record DocumentTaskAttempt : Type 0 where
  pub begin : Time
  pub finish : Time
  pub success : Bool
  pub message : String

pub record DocumentTask : Type 0 where
  pub id : ℕ
  pub added : Time
  pub modified : Time
  pub original_checksum : String
  pub archive_checksum : String
  pub record_created : Time
  pub record_updated : Time
  pub retry_count : ℕ
  pub retry_after : Time
  pub attempts : List DocumentTaskAttempt

-- The code points of a text.
abbrev pub codes : String → List ℕ
codes String.[] = []
codes (String.◌∷◌ c s) = code c ∷ codes s

-- `time.Time.UnixMicro`: microseconds since 1970, rounded down; year 1 is 62135596800 seconds
-- earlier.
floor_1000 : ℤ → ℤ
floor_1000 (pos n) = pos (n / 1000)
floor_1000 (negsuc n) = negsuc (n / 1000)

unfoldable pub unix_micro : Time → ℤ
unfolding floor_1000
unix_micro t = floor_1000 t -ℤ pos 62135596800000000

-- An `int64` as its 64 bits, and those as eight bytes, the lowest first.
unfoldable pub bits_64 : ℤ → ℕ
bits_64 (pos n) = n % 2 ^ 64
bits_64 (negsuc n) = 2 ^ 64 - 1 - n % 2 ^ 64

unfoldable pub little_endian : ℕ → ℕ → List ℕ
little_endian zero n = []
little_endian (suc k) n = n % 256 ∷ little_endian k (n / 256)

unfoldable pub hex_digit : ℕ → ℕ
hex_digit d = if ltb d 10 then b'0' + d else b'a' + d - 10

unfoldable pub hex : ℕ → ℕ → List ℕ
unfolding hex_digit
hex zero n = []
hex (suc k) n = hex k (n / 16) ++ (hex_digit (n % 16) ∷ [])

abbrev named_escape : ℕ → Option ℕ
named_escape r =
    if r == 7
    then some b'a'
    else if r == 8
    then some b'b'
    else if r == 12
    then some b'f'
    else if r == 10
    then some b'n'
    else if r == 13
    then some b'r'
    else if r == 9
    then some b't'
    else if r == 11
    then some b'v'
    else none

escape_by : Option ℕ → ℕ → List ℕ
unfolding hex
escape_by (some c) r = b'\\' ∷ c ∷ []
escape_by none r =
    if ltb r 0x20 || r == 0x7f
    then b'\\' ∷ b'x' ∷ hex 2 r
    else if ltb r 0x10000
    then b'\\' ∷ b'u' ∷ hex 4 r
    else b'\\' ∷ b'U' ∷ hex 8 r

-- One rune of `strconv.QuoteToASCII`, for texts of valid UTF-8.
unfoldable pub escape : ℕ → List ℕ
unfolding escape_by
escape r =
    if r == 0x22 || r == 0x5c
    then b'\\' ∷ r ∷ []
    else if leb 0x20 r && leb r 0x7e
    then r ∷ []
    else escape_by (named_escape r) r

unfoldable pub escapes : List ℕ → List ℕ
unfolding escape
escapes [] = []
escapes (r ∷ rs) = escape r ++ escapes rs

unfoldable pub quote_to_ascii : List ℕ → List ℕ
unfolding escapes
quote_to_ascii rs = 0x22 ∷ (escapes rs ++ (0x22 ∷ []))

-- `(*DocumentTask).Key`: writing to a `bytes.Buffer` never fails.
unfoldable pub key : DocumentTask → List ℕ
unfolding unix_micro bits_64 little_endian quote_to_ascii
key t =
    little_endian 8 (bits_64 (pos t.id))
    ++ (little_endian 8 (bits_64 (unix_micro t.added))
        ++ (little_endian 8 (bits_64 (unix_micro t.modified))
            ++ (0
                ∷ (quote_to_ascii (codes t.original_checksum)
                    ++ quote_to_ascii (codes t.archive_checksum)))))
