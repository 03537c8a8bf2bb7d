-- ===== src/Examples/Placement.antt =====
-- The theorems on the choice of a Hardware and of its primary interface, at concrete objects.
use cluster_api_provider_tin.Prelude.{
  ◌≡◌, refl, true, List, [], ◌∷◌, ◌++◌, arith, All, eq_iff, lookup, str_lt, sort_by, to_lower,
}
use cluster_api_provider_tin.Objects.{
  Int32, nonneg, int32_lt, LabelSelector, Hardware, WeightedHardwareAffinityTerm,
}
use cluster_api_provider_tin.Kube.{ok}
use cluster_api_provider_tin.Machine.Interfaces.{Interfaces, primary_interface}
use cluster_api_provider_tin.Machine.Interfaces.Order.{
  SameMap, HasLowerKeys, primary_interface_order,
}
use cluster_api_provider_tin.Machine.Reservation.{interface_at}
use cluster_api_provider_tin.Machine.Selection.{any_match, score, all_valid, less, select_hardware}
use cluster_api_provider_tin.Machine.Selection.Preference.{
  NoBetter, select_hardware_best, select_hardware_total, score_last,
}
use cluster_api_provider_tin.Examples.World.{world, server_a, server_b}

abbrev any : LabelSelector
any = record { match_labels = []; match_expressions = [] }

abbrev weighing : Int32 → WeightedHardwareAffinityTerm
weighing w = record { weight = w; hardware_affinity_term = record { label_selector = any } }

abbrev preferred : List WeightedHardwareAffinityTerm
preferred = weighing (nonneg 50) ∷ []

abbrev servers : List Hardware
servers = server_b ∷ server_a ∷ []

selected : select_hardware world preferred servers ≡ ok server_a
unfolding select_hardware all_valid sort_by less score any_match int32_lt str_lt
selected = refl

abbrev HasDisk : Hardware → Type 0
HasDisk hw = hw.storage_devices ≡ "/dev/sda" ∷ []

select_hardware_best_example :
    HasDisk server_a × All (NoBetter (score world preferred servers (nonneg 0)) server_a) servers
select_hardware_best_example =
    select_hardware_best world preferred servers server_a HasDisk (refl, (refl, tt)) selected

valid : all_valid world preferred ≡ true
unfolding all_valid
valid = refl

select_hardware_total_example : (hw : Hardware) × (select_hardware world preferred servers ≡ ok hw)
select_hardware_total_example = select_hardware_total world preferred server_b (server_a ∷ []) valid

matches : any_match world any server_a servers ≡ true
unfolding any_match
matches = refl

score_last_example :
    score world (preferred ++ (weighing (nonneg 7) ∷ [])) servers (nonneg 0) server_a ≡ nonneg 7
score_last_example =
    score_last world preferred (weighing (nonneg 7)) servers (nonneg 0) server_a matches

abbrev reordered : Interfaces
reordered =
    ("02:00:00:00:00:02", interface_at server_a "02:00:00:00:00:02")
    ∷ ("02:00:00:00:00:01", interface_at server_a "02:00:00:00:00:01")
    ∷ []

lower : HasLowerKeys server_a.network_interfaces
unfolding to_lower
lower = (refl, (refl, tt))

reordered_lower : HasLowerKeys reordered
unfolding to_lower
reordered_lower = (refl, (refl, tt))

reordered_same : SameMap server_a.network_interfaces reordered
unfolding lookup
reordered_same k = ground (
  arith,
  eq_iff "02:00:00:00:00:01" k,
  eq_iff "02:00:00:00:00:02" k,
  eq_iff "02:00:00:00:00:01" "02:00:00:00:00:02",
)

primary_interface_order_example :
    primary_interface world server_a
    ≡ primary_interface world (record server_a { network_interfaces = reordered })
primary_interface_order_example =
    primary_interface_order world server_a reordered lower reordered_lower reordered_same refl
