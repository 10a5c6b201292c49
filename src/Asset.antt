-- ===== src/Asset.antt =====
-- deskachain/node/internal/asset/model.go: the definition of an issued asset and its validation.
-- `TrimSpace`, `ToLower` and `EqualFold` are those of Go on ASCII text.

pub mod State
pub mod Balances
pub mod Supply
pub mod Listing
pub mod Moves
pub mod Atomic
use mathlib.Core.List.{reverse}
use des_ka_project.Prelude.{
  ℕ, ◌+◌, Bool, not, ◌&&◌, ◌||◌, [], ◌∷◌, ◌++◌, map, Str, codes, ◌=s◌, is_empty, ltb, leb, ◌==◌,
  if◌then◌else◌, length, msg, Result, ⊤, check, ◌then_check◌,
}
use des_ka_project.Config.{native_asset_id}

abbrev pub kind_fungible : Str
kind_fungible = codes "fungible"

abbrev pub status_active : Str
status_active = codes "active"

abbrev pub status_frozen : Str
status_frozen = codes "frozen"

abbrev pub is_space : ℕ → Bool
is_space c = c == 32 || (leb 9 c && leb c 13)

unfoldable pub trim_left : Str → Str
trim_left [] = []
trim_left (c ∷ s) = let rest = trim_left s in if is_space c then rest else c ∷ s

-- `strings.TrimSpace`
unfoldable pub trim_space : Str → Str
unfolding trim_left
trim_space s = reverse (trim_left (reverse (trim_left s)))

lower : ℕ → ℕ
lower c = if leb b'A' c && leb c b'Z' then c + 32 else c

-- `strings.ToLower`
unfoldable pub to_lower : Str → Str
unfolding lower
to_lower s = map lower s

-- `strings.EqualFold`
unfoldable pub equal_fold : Str → Str → Bool
unfolding to_lower
equal_fold a b = to_lower a =s to_lower b

pub record Definition : Type 0 where
  pub id : Str
  pub name : Str
  pub symbol : Str
  pub decimals : ℕ
  pub kind : Str
  pub issuer : Str
  pub max_supply : ℕ
  pub total_supply : ℕ
  pub mintable : Bool
  pub burnable : Bool
  pub pausable : Bool
  pub permissioned : Bool
  pub status : Str

unfoldable pub is_native : Str → Bool
unfolding equal_fold trim_space
is_native id = equal_fold (trim_space id) native_asset_id

-- `DerivedID`
unfoldable pub derived_id : Str → Str
unfolding to_lower trim_space
derived_id tx_id = codes "asset:" ++ to_lower (trim_space tx_id)

-- An empty status reads as active.
abbrev effective_status : Definition → Str
effective_status d = if is_empty d.status then status_active else d.status

unfoldable pub validate_definition : Definition → Result ⊤
validate_definition d =
    check (is_empty (trim_space d.id) || equal_fold d.id native_asset_id)
      (msg "invalid issued asset id")
    then_check check (is_empty (trim_space d.name)) (msg "asset name is required")
    then_check check (length (trim_space d.symbol) == 0 || ltb 16 (length (trim_space d.symbol)))
        (msg "asset symbol must be 1..16 characters")
    then_check check (ltb 18 d.decimals) (msg "asset decimals too large")
    then_check check (not (is_empty d.kind) && not (d.kind =s kind_fungible))
        (msg "unsupported asset kind")
    then_check check (is_empty (trim_space d.issuer)) (msg "asset issuer is required")
    then_check check (ltb 0 d.max_supply && ltb d.max_supply d.total_supply)
        (msg "asset total supply exceeds max supply")
    then_check check
        (not (effective_status d =s status_active) && not (effective_status d =s status_frozen))
        (msg "invalid asset status")
