-- ===== src/Address.antt =====
-- deskachain/node/internal/address: base58 text with a checksum, and the addresses of a network. The
-- hashes SHA-256 and RIPEMD-160 are parameters. Text is read byte by byte, where Go reads runes: a
-- byte outside ASCII is no character of the alphabet in either reading.
pub mod Radix
pub mod Base58
pub mod Network
pub mod Encoded
pub mod Accepted
use des_ka_project.Prelude.{
  ℕ, zero, suc, ◌+◌, ◌-◌, ◌*◌, ◌/◌, ◌%◌, Bool, true, false, not, ◌&&◌, List, [], ◌∷◌, ◌++◌, map,
  Str, codes, ◌=s◌, is_empty, has_prefix, ltb, ◌==◌, if◌then◌else◌, length, Option, none, some,
  Error, msg, wrap, Result, ok, err, ⊤, check,
}
use des_ka_project.Prelude.Results.{◌>>=◌, ◌>>◌}
use des_ka_project.Config.{NetworkConfig}

abbrev pub alphabet : Str
alphabet = codes "123456789ABCDEFGHJKLMNPQRSTUVWXYZabcdefghijkmnopqrstuvwxyz"

-- `alphabet[i]`
abbrev pub nth : ℕ → Str → ℕ
nth i [] = 0
nth zero (c ∷ s) = c
nth (suc i) (c ∷ s) = nth i s

-- `bytes.IndexRune`
abbrev pub index_from : ℕ → ℕ → Str → Option ℕ
index_from i c [] = none
index_from i c (d ∷ s) = let rest = index_from (i + 1) c s in if c == d then some i else rest

-- `big.Int.SetBytes`, and the loop of the decoder on digits: most significant first.
abbrev pub from_radix : ℕ → ℕ → List ℕ → ℕ
from_radix b acc [] = acc
from_radix b acc (d ∷ ds) = from_radix b (acc * b + d) ds

-- The digits of x, before those so far. The code appends them and reverses the whole at its end;
-- the fuel x is enough, since x shrinks.
abbrev pub to_radix : ℕ → ℕ → ℕ → List ℕ → List ℕ
to_radix b fuel zero acc = acc
to_radix b zero (suc x) acc = acc
to_radix b (suc fuel) (suc x) acc = to_radix b fuel (suc x / b) (suc x % b ∷ acc)

-- How often a byte stands at the front.
abbrev pub leading : ℕ → Str → ℕ
leading c [] = 0
leading c (d ∷ s) = let rest = leading c s in if d == c then suc rest else 0

abbrev pub repeat : ℕ → ℕ → Str
repeat zero c = []
repeat (suc n) c = c ∷ repeat n c

abbrev pub char : ℕ → ℕ
char d = nth d alphabet

unfoldable pub base58_encode : Str → Str
base58_encode input =
    let x = from_radix 256 0 input in repeat (leading 0 input) 49 ++ map char (to_radix 58 x x [])

unfoldable pub decode_value : ℕ → Str → Result ℕ
decode_value x [] = ok x
decode_value x (c ∷ s) = elim (index_from 0 c alphabet) [
  | none ↦ err (msg "invalid base58 character")
  | some index ↦ decode_value (x * 58 + index) s
]

unfoldable pub base58_decode : Str → Result Str
base58_decode input = do
  x ← decode_value 0 input
  ok (repeat (leading 49 input) 0 ++ to_radix 256 x x [])
