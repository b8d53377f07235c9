-- ===== src/Deployment/Hash.antt =====
-- ComputeHash: the FNV-1a hash of a printed pod template, in letters that are safe in a name
-- (pkg/util/deployment/deployment.go; hash/fnv of Go's library).
use Prim.Native.Nat.{bit_xor}
use batch_release.Base.{
  ℕ, ◌-◌, ◌*◌, ◌/◌, ◌%◌, ◌^◌, Option, none, some, List, [], ◌∷◌, ◌++◌, map, get_elem?,
}
use batch_release.Base.Int.{ℤ, pos, negsuc}
use batch_release.Base.Text.{Text, codes, print_int}
use batch_release.Objects.{PodTemplate}
use batch_release.Vendor.{Vendor}

unfoldable pub fnv32a_from : ℕ → List ℕ → ℕ
fnv32a_from hash [] = hash
fnv32a_from hash (b ∷ bs) = fnv32a_from (bit_xor hash b * 16777619 % 2 ^ 32) bs

unfoldable pub fnv32a : List ℕ → ℕ
fnv32a = fnv32a_from 2166136261

-- `uint32(n)` of an int32
abbrev to_uint32 : ℤ → ℕ
to_uint32 (pos n) = n % 2 ^ 32
to_uint32 (negsuc n) = 2 ^ 32 - 1 - n % 2 ^ 32

-- binary.LittleEndian.PutUint32 into eight bytes
unfoldable pub put_uint32 : ℕ → List ℕ
put_uint32 n = n % 256 ∷ n / 256 % 256 ∷ n / 65536 % 256 ∷ n / 16777216 % 256 ∷ 0 ∷ 0 ∷ 0 ∷ 0 ∷ []

abbrev pub alphanums : Text
alphanums = codes "bcdfghjklmnpqrstvwxz2456789"

-- `alphanums[int(b)%len(alphanums)]`
unfoldable pub safe_letter : ℕ → ℕ
safe_letter b = elim (get_elem? alphanums (b % 27)) [ none ↦ 0 | some c ↦ c ]

-- SafeEncodeString on ASCII text, where a rune is a byte.
unfoldable pub safe_encode_string : Text → Text
unfolding safe_letter
safe_encode_string = map safe_letter

-- What the collision count adds to the hashed bytes.
unfoldable pub collision_bytes : Option ℤ → List ℕ
unfolding put_uint32
collision_bytes none = []
collision_bytes (some count) = put_uint32 (to_uint32 count)

unfoldable pub compute_hash : Vendor → PodTemplate → Option ℤ → Text
compute_hash v template collision_count =
    safe_encode_string
      (print_int (pos (fnv32a (v.dump template ++ collision_bytes collision_count))))
