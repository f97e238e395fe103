-- ===== src/Api/Scheme.antt =====
-- api/v1alpha1/groupversion_info.go, and the end of dbupgrade_types.go: what is registered with a
-- scheme. The kind of a type is the name of the Go type.
use automatic_db_upgrades.Common.{String, ◌<>◌, List, [], ◌∷◌, ◌++◌}
use automatic_db_upgrades.Api.Types.{DbUpgrade}

pub record GroupVersion : Type 0 where
  pub group : String
  pub version : String

pub record GroupVersionKind : Type 0 where
  pub group : String
  pub version : String
  pub kind : String

abbrev pub group_version : GroupVersion
group_version = record { group = "dbupgrade.subbug.learning"; version = "v1alpha1" }

-- `GroupVersion.String` for a group that is not empty
abbrev pub api_version : GroupVersion → String
api_version gv = gv.group <> ("/" <> gv.version)

pub record DbUpgradeList : Type 0 where
  pub items : List DbUpgrade

-- SchemeBuilder.Register in `init`
abbrev pub registered_kinds : List String
registered_kinds = "DBUpgrade" ∷ "DBUpgradeList" ∷ []

abbrev with_kinds : GroupVersion → List String → List GroupVersionKind
with_kinds gv [] = []
with_kinds gv (kind ∷ kinds) =
    record { group = gv.group; version = gv.version; kind = kind } ∷ with_kinds gv kinds

-- AddToScheme
abbrev pub add_to_scheme : List GroupVersionKind → List GroupVersionKind
add_to_scheme known = known ++ with_kinds group_version registered_kinds
