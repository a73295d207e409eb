-- ===== src/Struct.antt =====
-- The bytes of a packed struct: its fields in order, each an unsigned number of so many bytes, the
-- lowest byte first, as on the machines that the program is built for.
pub mod Laws
use nano_fs.Prelude.{
  ℕ, zero, suc, ◌+◌, ◌*◌, ◌/◌, ◌%◌, List, [], ◌∷◌, ◌++◌, take, drop, length, get_or,
}

pub le_bytes : ℕ → ℕ → List ℕ
le_bytes zero v = []
le_bytes (suc width) v = v % 256 ∷ le_bytes width (v / 256)

pub le_value : List ℕ → ℕ
le_value [] = 0
le_value (b ∷ bytes) = b + 256 * le_value bytes

-- Fields with their widths, as bytes.
pub put_fields : List ℕ → List ℕ → List ℕ
put_fields [] values = []
put_fields (w ∷ widths) [] = []
put_fields (w ∷ widths) (v ∷ values) = le_bytes w v ++ put_fields widths values

-- The fields that bytes hold.
pub get_fields : List ℕ → List ℕ → List ℕ
get_fields [] bytes = []
get_fields (w ∷ widths) bytes = le_value (take w bytes) ∷ get_fields widths (drop w bytes)

-- `memcpy(buf + from, bytes, length bytes)` into a buffer that is long enough.
unfoldable pub splice : List ℕ → ℕ → List ℕ → List ℕ
splice buf from bytes = take from buf ++ (bytes ++ drop (from + length bytes) buf)

-- `memcpy` of `n` bytes from `content + from`.
unfoldable pub copy : List ℕ → ℕ → ℕ → List ℕ
copy content from zero = []
copy content from (suc n) = get_or content from 0 ∷ copy content (from + 1) n
