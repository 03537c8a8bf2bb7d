-- ===== src/Machine/Interfaces/Keys.antt =====
-- Which key a MAC names, and that writing the interface under it does not change that.
use cluster_api_provider_tin.Prelude.{
  String, ◌≡◌, true, some, [], ◌∷◌, arith, eq_iff, equal_fold, lookup, insert, lookup-insert,
  is_set,
}
use cluster_api_provider_tin.Objects.{NetworkInterface}
use cluster_api_provider_tin.Machine.Interfaces.{Interfaces, find_fold, interface_key}

find_fold_sound :
    (mac : String) (m : Interfaces) (key : String)
    → find_fold mac m ≡ some key
    → (equal_fold key mac ≡ true) × (is_set (lookup key m) ≡ true)
unfolding find_fold lookup
find_fold_sound mac [] key h = cc
find_fold_sound mac ((j, v) ∷ m) key h = ground (arith, find_fold_sound mac m key, eq_iff j key)

find_fold-insert :
    (mac : String) (m : Interfaces) (key : String) (ni : NetworkInterface)
    → find_fold mac m ≡ some key
    → find_fold mac (insert key ni m) ≡ some key
unfolding find_fold insert
find_fold-insert mac [] key ni h = cc
find_fold-insert mac ((j, v) ∷ m) key ni h =
    ground (arith, find_fold_sound mac m key, eq_iff j key, find_fold-insert mac m key ni)

pub interface_key_present :
    (m : Interfaces) (mac key : String)
    → interface_key m mac ≡ some key
    → is_set (lookup key m) ≡ true
unfolding interface_key
interface_key_present m mac key h = ground (arith, find_fold_sound mac m key)

-- Writing the interface that a MAC names does not change which interface it names.
pub interface_key-insert :
    (m : Interfaces) (mac key : String) (ni : NetworkInterface)
    → interface_key m mac ≡ some key
    → interface_key (insert key ni m) mac ≡ some key
unfolding interface_key
interface_key-insert m mac key ni h = ground (
  arith,
  lookup-insert key mac ni m,
  eq_iff key mac,
  find_fold-insert mac m key ni,
  find_fold_sound mac m key,
)
