-- ===== src/Types/Codec/Fields.antt =====
-- Each field of the canonical form is read back, whatever bytes follow it.
use mathlib.Core.List.{append_assoc}
use des_ka_project.Prelude.{
  ℕ, ◌%◌, ◌≤◌, ◌<◌, ◌≡◌, refl, ap, Bool, true, false, [], ◌∷◌, ◌++◌, Str, length, length-append,
  arith, ok,
}
use des_ka_project.Prelude.Int.{ℤ, pos, negsuc}
use des_ka_project.Types.Codec.{
  max_canonical_field_bytes, write_bool, write_canonical_uint32, write_canonical_uint64,
  write_canonical_int64, write_canonical_string, to_uint64, to_int64,
}
use des_ka_project.Types.Codec.Decode.{
  fill, read_uint32, read_uint64, read_int64, read_byte_bool, read_canonical_string,
}

-- The values of an int64.
abbrev pub IsInt64 : ℤ → Type 0
IsInt64 (pos n) = n < 9223372036854775808
IsInt64 (negsuc n) = n < 9223372036854775808

fill-append : (v rest : Str) → fill (length v) (v ++ rest) ≡ (v, rest)
unfolding fill
fill-append [] rest = refl
fill-append (b ∷ v) rest = rw (fill-append v rest) refl

pub read_uint32-write :
    (v : ℕ) (rest : Str)
    → v < 4294967296
    → read_uint32 (write_canonical_uint32 v ++ rest) ≡ (ok v, rest)
unfolding read_uint32 write_canonical_uint32
read_uint32-write v rest h = ap (λ (n : ℕ). (ok n, rest)) (omega arith)

pub read_uint64-write :
    (v : ℕ) (rest : Str)
    → v < 18446744073709551616
    → read_uint64 (write_canonical_uint64 v ++ rest) ≡ (ok v, rest)
unfolding read_uint64 write_canonical_uint64
read_uint64-write v rest h = ap (λ (n : ℕ). (ok n, rest)) (omega arith)

to_int64-to_uint64 : (z : ℤ) → IsInt64 z → to_int64 (to_uint64 z) ≡ z
unfolding to_int64 to_uint64
to_int64-to_uint64 (pos n) h = ground arith
to_int64-to_uint64 (negsuc n) h = ground arith

to_uint64-lt : (z : ℤ) → IsInt64 z → to_uint64 z < 18446744073709551616
unfolding to_uint64
to_uint64-lt (pos n) h = omega arith
to_uint64-lt (negsuc n) h = omega arith

pub read_int64-write :
    (z : ℤ) (rest : Str) → IsInt64 z → read_int64 (write_canonical_int64 z ++ rest) ≡ (ok z, rest)
unfolding read_int64 write_canonical_int64
read_int64-write z rest h =
    ground (arith, read_uint64-write (to_uint64 z) rest (to_uint64-lt z h), to_int64-to_uint64 z h)

pub read_byte_bool-write :
    (b : Bool) (rest : Str) → read_byte_bool (write_bool b ++ rest) ≡ (ok b, rest)
unfolding read_byte_bool write_bool
read_byte_bool-write true rest = refl
read_byte_bool-write false rest = refl

pub read_canonical_string-write :
    (v rest : Str)
    → length v ≤ max_canonical_field_bytes
    → read_canonical_string (write_canonical_string v ++ rest) ≡ (ok v, rest)
unfolding read_canonical_string write_canonical_string
read_canonical_string-write v rest h = rw append_assoc (
    ground (
      arith,
      read_uint32-write (length v % 4294967296) (v ++ rest),
      length-append v rest,
      fill-append v rest,
    ))
