-- ===== src/Tests/CopyExamples.antt =====
-- A DBUpgrade in memory, and its deep copy.
use mathlib.Core.List.{Memᴰ}
use automatic_db_upgrades.Common.{ℕ, pos, some, none, List, [], ◌∷◌, ◌≡◌, refl, arith, All}
use automatic_db_upgrades.Kube.Objects.{Time, Quantity, LabelSelector, SecretKeySelector, Condition}
use automatic_db_upgrades.Api.Types.{self_hosted}
use automatic_db_upgrades.Api.Memory.{Pointer, Layout, assigned, pointer, struct, scalar}
use automatic_db_upgrades.Api.Deep.{IsDeep}
use automatic_db_upgrades.Api.Layouts.{ObjectMeta, Foreign, UpgradeCell, upgrade_layout}
use automatic_db_upgrades.Api.DeepCopy.{
  deep_copy_upgrade, copy_upgrade, copy_spec, copy_status, copy_database, copy_connection,
}
use automatic_db_upgrades.Api.Copies.{AreDeep, deep_copy_upgrade-apart}
use automatic_db_upgrades.Tests.Objects.{url_ref}

-- How a type is stored that has no pointers.
abbrev whole : (V : Type 0) → Layout V V
whole V = record { plain = λ v. v; addresses = λ v. [] }

whole-IsDeep : {V : Type 0} → IsDeep (whole V) assigned
whole-IsDeep = record { same = λ n c. refl; grows = λ n c. omega arith; new = λ n c. tt }

abbrev no_pointers : Foreign
no_pointers = record {
  LabelSelectorCell = LabelSelector;
  label_selector = whole LabelSelector;
  copy_label_selector = assigned;
  SecretKeySelectorCell = SecretKeySelector;
  secret_key_selector = whole SecretKeySelector;
  copy_secret_key_selector = assigned;
  TimeCell = Time;
  time = whole Time;
  copy_time = assigned;
  ConditionCell = Condition;
  condition = whole Condition;
  copy_condition = assigned;
  QuantityCell = Quantity;
  quantity = whole Quantity;
  copy_quantity = assigned;
  ObjectMetaCell = ObjectMeta;
  object_meta = whole ObjectMeta;
  copy_object_meta = assigned;
  ListMetaCell = Unit;
  list_meta = whole Unit;
  copy_list_meta = assigned;
}

no_pointers-AreDeep : AreDeep no_pointers
no_pointers-AreDeep = record {
  label_selector = whole-IsDeep;
  secret_key_selector = whole-IsDeep;
  time = whole-IsDeep;
  condition = whole-IsDeep;
  quantity = whole-IsDeep;
  object_meta = whole-IsDeep;
  list_meta = whole-IsDeep;
}

-- The object at 1, its connection at 2, the reference to the Secret at 3 and the time at 4.
unfoldable stored : Pointer (UpgradeCell no_pointers)
stored = some (
  1,
  (
    record { name = "app"; namespace = "team"; uid = "u1"; generation = pos 3 },
    (
      (
        ("app:2.0.0", "/migrations"),
        ((self_hosted, (some (2, some (3, url_ref)), none)), (none, none)),
      ),
      (pos 2, (some (4, 1000000000), none)),
    ),
  ),
)

abbrev used : List ℕ
used = 1 ∷ 2 ∷ 3 ∷ 4 ∷ []

addresses_of_copy :
    (pointer (upgrade_layout no_pointers)).addresses (deep_copy_upgrade no_pointers 5 stored).0
    ≡ 5 ∷ 6 ∷ 7 ∷ 8 ∷ []
unfolding stored struct scalar deep_copy_upgrade copy_upgrade copy_spec copy_status copy_database
    copy_connection
addresses_of_copy = refl

deep_copy_upgrade-apart_example :
    ((pointer (upgrade_layout no_pointers)).plain (deep_copy_upgrade no_pointers 5 stored).0
      ≡ (pointer (upgrade_layout no_pointers)).plain stored)
    × All
        (λ x. ¬ Memᴰ x used)
        ((pointer (upgrade_layout no_pointers)).addresses
          (deep_copy_upgrade no_pointers 5 stored).0)
deep_copy_upgrade-apart_example =
    deep_copy_upgrade-apart no_pointers no_pointers-AreDeep 5 stored used
      (omega arith, (omega arith, (omega arith, (omega arith, tt))))
